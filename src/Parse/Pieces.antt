-- ===== src/Parse/Pieces.antt =====
-- One round of the scan of a string in src/parse.cpp, and the round of the decoding that meets it.
use slabjson.Prelude.{
  ℕ, ◌+◌, ◌≤◌, ◌<◌, ◌≡◌, ◌≢◌, refl, sym, ap, subst, ◌∙◌, inl, inr, true, false, not, some, [], ◌∷◌,
  ◌++◌, ltb, ◌==◌, if◌then◌else◌, length, length-append, drop, arith, Bool-cases, Option-cases,
}
use slabjson.Result.{ok, Result-cases}
use slabjson.Utf8.{Bytes, byte_at, utf8_sequence_length}
use slabjson.Utf8.Encoding.{IsUtf8, encode, encode_pos, encode_ascii}
use slabjson.Utf8.Sequence.{byte_first, utf8_sequence_length-Decoded}
use slabjson.Slab.{string_flags}
use slabjson.Parse.Strings.{
  Piece, slice, take, unchecked_utf8_length, short_escape_byte, validate_utf8, scan_escape,
  scan_piece, decode_piece,
}
use slabjson.Parse.Slices.{drop-At, take-append, slice_lem}
use slabjson.Json.Spells.{SpellsPiece, AllPlain, plain}
use slabjson.Parse.Escapes.{Unicode, scan_unicode-Unicode, short_spells, slice_one}
use slabjson.Parse.Helpers.{
  encode_utf8-eq, utf8_length-eq, encode-IsUtf8, string_flags-encode, unchecked_utf8_length-encode,
}

-- The piece of the string at `cursor` stands for the bytes, which the decoding writes.
pub record Decodes (input : Bytes) (cursor : ℕ) (piece : Piece) (bytes : Bytes) : Type 0 where
  pub spells : SpellsPiece (slice input cursor piece.stop) bytes
  pub written : decode_piece input cursor ≡ (bytes, piece.stop)
  pub counted : length bytes ≡ piece.decoded
  pub utf8 : IsUtf8 bytes
  pub flagged : string_flags bytes ≡ (if piece.flagged then 1 else 0)
  pub forward : cursor < piece.stop
  pub within : piece.stop ≤ length input
  pub plain : piece.escape ≡ false → bytes ≡ slice input cursor piece.stop

ascii-IsUtf8 : (c : ℕ) → c < 0x80 → IsUtf8 (c ∷ [])
ascii-IsUtf8 c l =
    subst IsUtf8 (encode_ascii c l) (encode-IsUtf8 c (omega arith, inl (omega arith)))

short_escape_byte-lt : (letter : ℕ) {c : ℕ} → short_escape_byte letter ≡ some c → c < 0x80
unfolding short_escape_byte
short_escape_byte-lt letter h = ground arith

short_escape_byte-flags :
    (letter : ℕ) {c : ℕ}
    → short_escape_byte letter ≡ some c
    → string_flags (c ∷ []) ≡ (if not (letter == b'/') then 1 else 0)
unfolding short_escape_byte string_flags
short_escape_byte-flags letter h = ground arith

module _ (input : Bytes) where
  Unicode-Decodes :
      (cursor c : ℕ) {piece : Piece}
      → byte_at input cursor ≡ b'\\'
      → byte_at input (cursor + 1) ≡ b'u'
      → Unicode input cursor piece c
      → Decodes input cursor piece (encode c)
  unfolding decode_piece
  Unicode-Decodes cursor c {piece} s u f = record {
    spells = f.spells;
    written = ground (arith, f.decoded, encode_utf8-eq c);
    counted = sym (ap (λ p. p.decoded) f.found ∙ utf8_length-eq c);
    utf8 = encode-IsUtf8 c f.scalar;
    flagged =
        string_flags-encode c ∙ ap (λ b. if b then 1 else 0) (sym (ap (λ p. p.flagged) f.found));
    forward = f.forward;
    within = f.within;
    plain = λ e. absurd (cc (ap (λ p. p.escape) f.found));
  }

  -- A short escape.
  short-Decodes :
      (cursor c : ℕ) {piece : Piece}
      → byte_at input cursor ≡ b'\\'
      → byte_at input (cursor + 1) ≢ b'u'
      → short_escape_byte (byte_at input (cursor + 1)) ≡ some c
      → cursor + 1 < length input
      → piece ≡ (record {
        stop = cursor + 2;
        decoded = 1;
        escape = true;
        flagged = not (byte_at input (cursor + 1) == b'/');
      })
      → Decodes input cursor piece (c ∷ [])
  unfolding decode_piece
  short-Decodes cursor c {piece} s u k l e = record {
    spells = short_spells input cursor c s k l (ap (λ p. p.stop) e);
    written = ground arith;
    counted = ground arith;
    utf8 = ascii-IsUtf8 c (short_escape_byte-lt (byte_at input (cursor + 1)) k);
    flagged =
        short_escape_byte-flags (byte_at input (cursor + 1)) k
        ∙ ap (λ b. if b then 1 else 0) (sym (ap (λ p. p.flagged) e));
    forward = ground arith;
    within = ground arith;
    plain = λ f. absurd (cc (ap (λ p. p.escape) e));
  }

  ascii-Decodes :
      (cursor : ℕ)
      → cursor < length input
      → byte_at input cursor < 0x80
      → 0x20 ≤ byte_at input cursor
      → byte_at input cursor ≢ b'"'
      → byte_at input cursor ≢ b'\\'
      → Decodes input cursor
          (record { stop = cursor + 1; decoded = 1; escape = false; flagged = false })
          (byte_at input cursor ∷ [])
  unfolding decode_piece string_flags
  ascii-Decodes cursor l small printing quote slash = record {
    spells =
        subst (λ xs. SpellsPiece xs (byte_at input cursor ∷ [])) (sym (slice_one input cursor l))
          (plain (printing, quote, slash, tt));
    written = ground arith;
    counted = refl;
    utf8 = ascii-IsUtf8 (byte_at input cursor) small;
    flagged = ground arith;
    forward = omega arith;
    within = omega arith;
    plain = λ e. sym (slice_one input cursor l);
  }

  large : (c : ℕ) (tail : Bytes) → 0x80 ≤ byte_at (encode c ++ tail) 0 → 0x80 ≤ c
  unfolding encode
  large c tail h = ground arith

  encode-AllPlain : (c : ℕ) → 0x80 ≤ c → AllPlain (encode c)
  unfolding encode
  encode-AllPlain c h = ground arith

  decode_wide :
      (cursor : ℕ)
      → 0x80 ≤ byte_at input cursor
      → decode_piece input cursor ≡ (
        slice input cursor (cursor + unchecked_utf8_length (byte_at input cursor)),
        cursor + unchecked_utf8_length (byte_at input cursor),
      )
  unfolding decode_piece
  decode_wide cursor high = ground arith

  sequence-Decodes :
      (cursor len : ℕ)
      → cursor < length input
      → 0x80 ≤ byte_at input cursor
      → utf8_sequence_length input cursor ≡ ok len
      → (bytes : Bytes) × Decodes input cursor
          (record { stop = cursor + len; decoded = len; escape = false; flagged = false })
          bytes
  sequence-Decodes cursor len l high h =
      let at = drop-At input cursor (omega arith) in
      let (c, tail, scalar, e, n) = utf8_sequence_length-Decoded (drop cursor input) at h in
      let first : byte_at input cursor ≡ byte_at (encode c ++ tail) 0 =
        byte_first at ∙ ap (λ t. byte_at t 0) e in
      let span : unchecked_utf8_length (byte_at input cursor) ≡ len =
        ap unchecked_utf8_length first ∙ unchecked_utf8_length-encode c tail scalar ∙ sym n in
      let cut : slice input cursor (cursor + len) ≡ encode c =
        slice_lem input cursor len
        ∙ ap (take len) e
        ∙ ap (λ k. take k (encode c ++ tail)) n
        ∙ take-append (encode c) tail in
      (
        encode c,
        record {
          spells =
              subst (λ xs. SpellsPiece xs (encode c)) (sym cut)
                (plain (encode-AllPlain c (large c tail (subst (λ b. 0x80 ≤ b) first high))));
          written =
              decode_wide cursor high
              ∙ ap (λ k. (slice input cursor (cursor + k), cursor + k)) span
              ∙ ap (λ b. (b, cursor + len)) cut;
          counted = sym n;
          utf8 = encode-IsUtf8 c scalar;
          flagged =
              ground
                (arith, string_flags-encode c, large c tail (subst (λ b. 0x80 ≤ b) first high));
          forward = omega (arith, n, encode_pos c);
          within = omega (arith, at.measured, ap length e, length-append (encode c) tail, n);
          plain = λ _. sym cut;
        },
      )

  validate_utf8-ok :
      (cursor len : ℕ)
      → validate_utf8 input cursor ≡ ok len
      → utf8_sequence_length input cursor ≡ ok len
  unfolding validate_utf8
  validate_utf8-ok cursor len h = elim (Result-cases (utf8_sequence_length input cursor)) [
    | inl (n, q) ↦ ground arith
    | inr (e, q) ↦ absurd (ground arith)
  ]

  scan_escape-Decodes :
      (cursor : ℕ) (piece : Piece)
      → cursor < length input
      → byte_at input cursor ≡ b'\\'
      → scan_escape input cursor ≡ ok piece
      → (bytes : Bytes) × Decodes input cursor piece bytes
  unfolding scan_escape
  scan_escape-Decodes cursor piece l slash h =
      elim (Bool-cases (byte_at input (cursor + 1) == b'u')) [
        | inl is_u ↦
            let (c, f) =
              scan_unicode-Unicode input cursor {piece = piece} slash (ground arith)
                (ground arith) in
            (encode c, Unicode-Decodes cursor c slash (ground arith) f)
        | inr other ↦ elim (Option-cases (short_escape_byte (byte_at input (cursor + 1)))) [
          | inl e ↦ absurd (ground arith)
          | inr (c, e) ↦ (
            c ∷ [],
            short-Decodes cursor c {piece = piece} slash (ground arith) e (ground arith)
                (ground arith),
          )
        ]
      ]

  -- Whatever the scan accepts, the decoding writes as the bytes that the scan has counted.
  pub scan_piece-Decodes :
      (cursor : ℕ) (piece : Piece)
      → cursor < length input
      → byte_at input cursor ≢ b'"'
      → 0x20 ≤ byte_at input cursor
      → scan_piece input cursor ≡ ok piece
      → (bytes : Bytes) × Decodes input cursor piece bytes
  unfolding scan_piece
  scan_piece-Decodes cursor piece l quote printing h =
      elim (Bool-cases (byte_at input cursor == b'\\')) [
        | inl slash ↦ scan_escape-Decodes cursor piece l (ground arith) (ground arith)
        | inr bare ↦ elim (Bool-cases (ltb (byte_at input cursor) 0x80)) [
          | inl small ↦ (
            byte_at input cursor ∷ [],
            subst (λ q. Decodes input cursor q (byte_at input cursor ∷ [])) (ground arith)
                (ascii-Decodes cursor l (ground arith) printing quote (ground arith)),
          )
          | inr high ↦ elim (Result-cases (validate_utf8 input cursor)) [
            | inr (e, q) ↦ absurd (ground arith)
            | inl (len, q) ↦
                subst (λ p. (bytes : Bytes) × Decodes input cursor p bytes) (ground arith)
                  (sequence-Decodes cursor len l (ground arith) (validate_utf8-ok cursor len q))
          ]
        ]
      ]
