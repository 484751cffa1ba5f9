-- ===== src/Parse/Scan.antt =====
-- The scan of a string in src/parse.cpp, and the decoding that follows it.
use slabjson.Prelude.{
  ℕ, zero, suc, ◌+◌, ◌-◌, ◌≤◌, ◌<◌, ◌≡◌, refl, sym, ap, subst, ◌∙◌, inl, inr, Bool, true, false, [],
  ◌++◌, ltb, ◌==◌, ◌||◌, if◌then◌else◌, length, length-append, arith, Bool-cases,
}
use slabjson.Result.{ok, Result-cases}
use slabjson.Utf8.{Bytes, byte_at}
use slabjson.Utf8.Encoding.{IsUtf8, encode_all}
use slabjson.Slab.{string_flags, copy_bytes}
use slabjson.Serialize.Memory.{copy_bytes-twice, copy_bytes-nil}
use slabjson.Parse.Strings.{
  Piece, StringScan, slice, scan_piece, scan_loop, decode_piece, decode_loop,
}
use slabjson.Json.Spells.{Spells, finished, behind}
use slabjson.Parse.Slices.{slice-append, slice-nil}
use slabjson.Parse.Helpers.{append-IsUtf8, string_flags-append}
use slabjson.Parse.Pieces.{Decodes, scan_piece-Decodes}

-- What a scan from `cursor` on has found: the bytes that the string stands for.
pub record Scanned (input : Bytes) (cursor : ℕ) (scan final : StringScan) (bytes : Bytes)
    : Type 0 where
  pub spells : Spells (slice input cursor (final.stop - 1)) bytes
  pub ended : byte_at input (final.stop - 1) ≡ b'"'
  pub counted : final.decoded_length ≡ scan.decoded_length + length bytes
  pub small : scan.decoded_length ≤ 65535 → final.decoded_length ≤ 65535
  pub utf8 : IsUtf8 bytes
  pub flagged : final.flags ≡ (if string_flags bytes == 0 then scan.flags else 1)
  pub forward : cursor < final.stop
  pub within : final.stop ≤ length input
  pub written :
      (rounds destination : ℕ) (memory : ℕ → ℕ)
      → final.stop ≤ cursor + rounds
      → decode_loop input rounds (final.stop - 1) cursor destination memory
        ≡ copy_bytes destination bytes memory
  pub plain :
      final.has_escape ≡ false
      → (bytes ≡ slice input cursor (final.stop - 1)) × (scan.has_escape ≡ false)

or_false : (a b : Bool) → (a || b) ≡ false → (a ≡ false) × (b ≡ false)
or_false true b h = cc
or_false false b h = (refl, h)

module _ (input : Bytes) where
  decode_end :
      (rounds stop destination : ℕ) (memory : ℕ → ℕ)
      → decode_loop input rounds stop stop destination memory ≡ memory
  unfolding decode_loop
  decode_end zero stop destination memory = refl
  decode_end (suc rounds) stop destination memory = ground arith

  decode_step :
      (rounds stop cursor next destination : ℕ) (bytes : Bytes) (memory : ℕ → ℕ)
      → cursor < stop
      → decode_piece input cursor ≡ (bytes, next)
      → decode_loop input (suc rounds) stop cursor destination memory
        ≡ decode_loop input rounds stop next
            (destination + length bytes)
            (copy_bytes destination bytes memory)
  unfolding decode_loop
  decode_step rounds stop cursor next destination bytes memory l e = ground arith

  -- At the quotation mark.
  ended-Scanned :
      (scan : StringScan)
      → scan.stop < length input
      → byte_at input scan.stop ≡ b'"'
      → Scanned input scan.stop scan (record scan { stop = scan.stop + 1 }) []
  unfolding decode_loop string_flags encode_all
  ended-Scanned scan l quote = record {
    spells = subst (λ xs. Spells xs []) (sym nothing) finished;
    ended = ap (byte_at input) (omega arith) ∙ quote;
    counted = omega arith;
    small = λ h. h;
    utf8 = ([], tt, refl);
    flagged = refl;
    forward = omega arith;
    within = omega arith;
    written = λ rounds destination memory h.
        ap (λ k. decode_loop input rounds k scan.stop destination memory) (omega arith)
        ∙ decode_end rounds scan.stop destination memory
        ∙ sym (copy_bytes-nil destination [] memory refl);
    plain = λ e. (sym nothing, e);
  }
    where
      nothing : slice input scan.stop (scan.stop + 1 - 1) ≡ []
      nothing = ap (slice input scan.stop) (omega arith) ∙ slice-nil input scan.stop

  -- A piece before the rest.
  piece-Scanned :
      (scan next final : StringScan) (piece : Piece) (bytes rest : Bytes)
      → Decodes input scan.stop piece bytes
      → next ≡ (record {
        stop = piece.stop;
        decoded_length = scan.decoded_length + piece.decoded;
        has_escape = scan.has_escape || piece.escape;
        flags = if piece.flagged then 1 else scan.flags;
      })
      → next.decoded_length ≤ 65535
      → Scanned input piece.stop next final rest
      → Scanned input scan.stop scan final (bytes ++ rest)
  piece-Scanned scan next final piece bytes rest d e small r = record {
    spells = subst (λ xs. Spells xs (bytes ++ rest)) whole (behind d.spells r.spells);
    ended = r.ended;
    counted =
        omega (arith, length-append bytes rest, r.counted, d.counted, ap (λ s. s.decoded_length) e);
    small = λ h. r.small small;
    utf8 = append-IsUtf8 bytes rest d.utf8 r.utf8;
    flagged =
        r.flagged ∙ ground (arith, string_flags-append bytes rest, d.flagged, ap (λ s. s.flags) e);
    forward = omega (arith, d.forward, r.forward);
    within = r.within;
    written = written;
    plain = λ f.
        let (q, k) = r.plain f in
        let (old, new) =
          or_false scan.has_escape piece.escape (sym (ap (λ s. s.has_escape) e) ∙ k) in
        (
          ap (λ t. t ++ rest) (d.plain new)
              ∙ ap (λ t. slice input scan.stop piece.stop ++ t) q
              ∙ whole,
          old,
        );
  }
    where
      whole :
          slice input scan.stop piece.stop ++ slice input piece.stop (final.stop - 1)
          ≡ slice input scan.stop (final.stop - 1)
      whole =
          slice-append input scan.stop piece.stop (final.stop - 1) (omega (arith, d.forward))
            (omega (arith, r.forward))

      written :
          (rounds destination : ℕ) (memory : ℕ → ℕ)
          → final.stop ≤ scan.stop + rounds
          → decode_loop input rounds (final.stop - 1) scan.stop destination memory
            ≡ copy_bytes destination (bytes ++ rest) memory
      written zero destination memory h = absurd (omega (arith, d.forward, r.forward))
      written (suc rounds) destination memory h =
          decode_step rounds (final.stop - 1) scan.stop piece.stop destination bytes memory
            (omega (arith, d.forward, r.forward)) d.written
          ∙ r.written rounds (destination + length bytes) (copy_bytes destination bytes memory)
              (omega (arith, d.forward))
          ∙ copy_bytes-twice bytes rest memory destination

  pub scan_loop-Scanned :
      (rounds start : ℕ) (scan final : StringScan)
      → scan_loop input rounds start scan ≡ ok final
      → (bytes : Bytes) × Scanned input scan.stop scan final bytes
  unfolding scan_loop
  scan_loop-Scanned zero start scan final h = absurd (cc)
  scan_loop-Scanned (suc rounds) start scan final h =
      elim (Bool-cases (ltb scan.stop (length input))) [
        | inr out ↦ absurd (ground arith)
        | inl inside ↦ elim (Bool-cases (byte_at input scan.stop == b'"')) [
          | inl quote ↦ (
            [],
            subst (λ f. Scanned input scan.stop scan f []) (ground arith)
                (ended-Scanned scan (ground arith) (ground arith)),
          )
          | inr no_quote ↦ elim (Bool-cases (ltb (byte_at input scan.stop) 0x20)) [
            | inl control ↦ absurd (ground arith)
            | inr printing ↦ elim (Result-cases (scan_piece input scan.stop)) [
              | inr (e, q) ↦ absurd (ground arith)
              | inl (piece, q) ↦
                  elim (Bool-cases (ltb 65535 (scan.decoded_length + piece.decoded))) [
                    | inl long ↦ absurd (ground arith)
                    | inr fits ↦
                        let next : StringScan = record {
                          stop = piece.stop;
                          decoded_length = scan.decoded_length + piece.decoded;
                          has_escape = scan.has_escape || piece.escape;
                          flags = if piece.flagged then 1 else scan.flags;
                        } in
                        let again : scan_loop input rounds start next ≡ ok final = ground arith in
                        let small : next.decoded_length ≤ 65535 = ground arith in
                        let (bytes, d) =
                          scan_piece-Decodes input scan.stop piece (ground arith) (ground arith)
                            (ground arith) q in
                        let (rest, r) = scan_loop-Scanned rounds start next final again in
                        (
                          bytes ++ rest,
                          piece-Scanned scan next final piece bytes rest d refl small r,
                        )
                  ]
            ]
          ]
        ]
      ]
