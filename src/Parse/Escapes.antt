-- ===== src/Parse/Escapes.antt =====
-- The escapes that the scan of a string in src/parse.cpp accepts, and what they spell.
use slabjson.Prelude.{
  ℕ, ◌+◌, ◌≤◌, ◌<◌, ◌≡◌, sym, ap, subst, ◌∙◌, inl, inr, true, some, [], ◌∷◌, ◌++◌, length, arith,
  Bool-cases,
}
use slabjson.Result.{ok, Result-cases}
use slabjson.Utf8.{Bytes, byte_at}
use slabjson.Utf8.Encoding.{IsScalar, encode}
use slabjson.Parse.Strings.{
  Piece, slice, encode_utf8, is_high_surrogate, is_low_surrogate, surrogate_pair, parse_hex4,
  parse_hex4_unchecked, short_escape_byte, unicode_piece, scan_low_surrogate, scan_unicode,
  decode_unicode,
}
use slabjson.Parse.Slices.{slice-bytes, slice-append}
use slabjson.Json.Spells.{Hex4, SpellsPiece, short, unicode, pair}
use slabjson.Parse.Helpers.{parse_hex4-agree, surrogate_pair-IsScalar, plain-IsScalar}

module _ (input : Bytes) where
  -- A code point that the scan of `\u` finds.
  pub record Unicode (cursor : ℕ) (piece : Piece) (c : ℕ) : Type 0 where
    pub scalar : IsScalar c
    pub spells : SpellsPiece (slice input cursor piece.stop) (encode c)
    pub found : piece ≡ unicode_piece c piece.stop
    pub decoded : decode_unicode input (cursor + 2) ≡ (encode_utf8 c, piece.stop)
    pub forward : cursor < piece.stop
    pub within : piece.stop ≤ length input

  -- The start of an escape `\u`.
  escape_start :
      (cursor stop : ℕ)
      → cursor + 2 ≤ stop
      → stop ≤ length input
      → byte_at input cursor ≡ b'\\'
      → byte_at input (cursor + 1) ≡ b'u'
      → slice input cursor stop ≡ b'\\' ∷ b'u' ∷ slice input (cursor + 2) stop
  escape_start cursor stop h l slash u =
      let same : cursor + 0 ≡ cursor = omega arith in
      let two : slice input cursor (cursor + 2) ≡ b'\\' ∷ b'u' ∷ [] =
        slice-bytes input cursor 2 (omega arith)
        ∙ ap (λ c. c ∷ byte_at input (cursor + 1) ∷ []) (ap (byte_at input) same ∙ slash)
        ∙ ap (λ c. b'\\' ∷ c ∷ []) u in
      sym (slice-append input cursor (cursor + 2) stop (omega arith) h)
      ∙ ap (λ t. t ++ slice input (cursor + 2) stop) two

  unicode_spells :
      (cursor c : ℕ)
      → byte_at input cursor ≡ b'\\'
      → byte_at input (cursor + 1) ≡ b'u'
      → Hex4 (slice input (cursor + 2) (cursor + 2 + 4)) c
      → cursor + 2 + 4 ≤ length input
      → IsScalar c
      → SpellsPiece (slice input cursor (cursor + 6)) (encode c)
  unicode_spells cursor c slash u h l s =
      let e : cursor + 6 ≡ cursor + 2 + 4 = omega arith in
      subst (λ xs. SpellsPiece xs (encode c))
        (sym (
          ap (slice input cursor) e ∙ escape_start cursor (cursor + 2 + 4) (omega arith) l slash u))
        (unicode h s)

  pair_spells :
      (cursor high low : ℕ)
      → byte_at input cursor ≡ b'\\'
      → byte_at input (cursor + 1) ≡ b'u'
      → Hex4 (slice input (cursor + 2) (cursor + 2 + 4)) high
      → is_high_surrogate high ≡ true
      → byte_at input (cursor + 6) ≡ b'\\'
      → byte_at input (cursor + 6 + 1) ≡ b'u'
      → Hex4 (slice input (cursor + 6 + 2) (cursor + 6 + 2 + 4)) low
      → is_low_surrogate low ≡ true
      → cursor + 6 + 2 + 4 ≤ length input
      → SpellsPiece (slice input cursor (cursor + 6 + 6)) (encode (surrogate_pair high low))
  pair_spells cursor high low slash u h is_high slash' u' k is_low l =
      let stop = cursor + 6 + 2 + 4 in
      let e : cursor + 6 + 6 ≡ stop = omega arith in
      let six : cursor + 2 + 4 ≡ cursor + 6 = omega arith in
      subst (λ xs. SpellsPiece xs (encode (surrogate_pair high low)))
        (sym (
          ap (slice input cursor) e
          ∙ escape_start cursor stop (omega arith) l slash u
          ∙ ap (λ t. b'\\' ∷ b'u' ∷ t)
              (sym (slice-append input (cursor + 2) (cursor + 6) stop (omega arith) (omega arith))
                ∙ ap (λ t. slice input (cursor + 2) (cursor + 6) ++ t)
                    (escape_start (cursor + 6) stop (omega arith) l slash' u'))))
        (pair (subst (λ x. Hex4 (slice input (cursor + 2) x) high) six h) (ground arith)
          (ground arith) k (ground arith) (ground arith))

  scan_low_surrogate-Unicode :
      (cursor high : ℕ) {piece : Piece}
      → byte_at input cursor ≡ b'\\'
      → byte_at input (cursor + 1) ≡ b'u'
      → Hex4 (slice input (cursor + 2) (cursor + 2 + 4)) high
      → parse_hex4_unchecked input (cursor + 2) ≡ high
      → is_high_surrogate high ≡ true
      → scan_low_surrogate input cursor (cursor + 6) high ≡ ok piece
      → (c : ℕ) × Unicode cursor piece c
  unfolding scan_low_surrogate decode_unicode
  scan_low_surrogate-Unicode cursor high {piece} slash u digits e h k =
      elim (Result-cases (parse_hex4 input (cursor + 6 + 2))) [
        | inr (e, q) ↦ absurd (ground arith)
        | inl (low, q) ↦
            let (agree, lt, room, more) = parse_hex4-agree input (cursor + 6 + 2) q in
            elim (Bool-cases (is_low_surrogate low)) [
              | inr no_low ↦ absurd (ground arith)
              | inl is_low ↦ (
                surrogate_pair high low,
                record {
                  scalar = surrogate_pair-IsScalar high low h is_low;
                  spells =
                      let stop : piece.stop ≡ cursor + 6 + 6 = ground arith in
                      subst
                        (λ x. SpellsPiece (slice input cursor x) (encode (surrogate_pair high low)))
                        (sym stop)
                        (pair_spells cursor high low slash u digits h (ground arith) (ground arith)
                          more is_low room);
                  found = ground arith;
                  decoded =
                      let again : parse_hex4_unchecked input (cursor + 2 + 6) ≡ low =
                        ap (parse_hex4_unchecked input) (omega arith) ∙ agree in
                      ground arith;
                  forward = ground arith;
                  within = ground arith;
                },
              )
            ]
      ]

  pub scan_unicode-Unicode :
      (cursor : ℕ) {piece : Piece}
      → byte_at input cursor ≡ b'\\'
      → byte_at input (cursor + 1) ≡ b'u'
      → scan_unicode input cursor ≡ ok piece
      → (c : ℕ) × Unicode cursor piece c
  unfolding scan_unicode decode_unicode
  scan_unicode-Unicode cursor {piece} slash u h =
      elim (Result-cases (parse_hex4 input (cursor + 2))) [
        | inr (e, q) ↦ absurd (ground arith)
        | inl (c, q) ↦
            let (agree, lt, room, digits) = parse_hex4-agree input (cursor + 2) q in
            elim (Bool-cases (is_high_surrogate c)) [
              | inl high ↦
                  scan_low_surrogate-Unicode cursor c slash u digits agree high (ground arith)
              | inr single ↦ elim (Bool-cases (is_low_surrogate c)) [
                | inl low ↦ absurd (ground arith)
                | inr other ↦ (
                  c,
                  record {
                    scalar = plain-IsScalar c lt single other;
                    spells =
                        let stop : piece.stop ≡ cursor + 6 = ground arith in
                        subst (λ x. SpellsPiece (slice input cursor x) (encode c)) (sym stop)
                          (unicode_spells cursor c slash u digits room
                            (plain-IsScalar c lt single other));
                    found = ground arith;
                    decoded = ground arith;
                    forward = ground arith;
                    within = ground arith;
                  },
                )
              ]
            ]
      ]

  pub short_spells :
      (cursor c : ℕ) {stop : ℕ}
      → byte_at input cursor ≡ b'\\'
      → short_escape_byte (byte_at input (cursor + 1)) ≡ some c
      → cursor + 1 < length input
      → stop ≡ cursor + 2
      → SpellsPiece (slice input cursor stop) (c ∷ [])
  unfolding short_escape_byte
  short_spells cursor c s k l e =
      let same : cursor + 0 ≡ cursor = omega arith in
      subst (λ xs. SpellsPiece xs (c ∷ []))
        (sym (
          ap (slice input cursor) e
          ∙ slice-bytes input cursor 2 (omega arith)
          ∙ ap (λ b. b ∷ byte_at input (cursor + 1) ∷ []) (ap (byte_at input) same ∙ s)))
        (short k)

  pub slice_one :
      (cursor : ℕ)
      → cursor < length input
      → slice input cursor (cursor + 1) ≡ byte_at input cursor ∷ []
  slice_one cursor l =
      let same : cursor + 0 ≡ cursor = omega arith in
      slice-bytes input cursor 1 (omega arith) ∙ ap (λ k. byte_at input k ∷ []) same
