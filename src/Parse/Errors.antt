-- ===== src/Parse/Errors.antt =====
-- The errors that the scans of src/parse.cpp report: their offsets lie in the input.
use slabjson.Prelude.{
  ℕ, zero, suc, ◌+◌, ◌*◌, ◌≤◌, ◌<◌, ◌≡◌, ◌≢◌, ap, subst, inl, inr, ltb, ◌==◌, ◌||◌, if◌then◌else◌,
  length, drop, arith, Bool-cases, Option-cases,
}
use slabjson.Error.{Error, internal_error}
use slabjson.Result.{err, Result-cases}
use slabjson.Utf8.{Bytes, byte_at, utf8_sequence_length}
use slabjson.Utf8.Sequence.{utf8_sequence_length-err}
use slabjson.Parse.Strings.{
  StringScan, hex_value, short_escape_byte, hex4_loop, parse_hex4, validate_utf8,
  scan_low_surrogate, scan_unicode, scan_escape, scan_piece, scan_loop, scan_string,
}
use slabjson.Parse.Slices.{drop-At}
use slabjson.Parse.Pieces.{scan_piece-Decodes}

-- An error of the input, with an offset in it or at its end.
abbrev pub OfInput : Bytes → Error → Type 0
OfInput input e = (e.offset ≤ length input) × (e.code ≢ internal_error)

module _ (input : Bytes) where
  hex4_loop-OfInput :
      (offset rounds index value : ℕ) {e : Error}
      → offset + index + rounds ≤ length input
      → hex4_loop input offset rounds index value ≡ err e
      → OfInput input e
  unfolding hex4_loop
  hex4_loop-OfInput offset zero index value l h = absurd (cc)
  hex4_loop-OfInput offset (suc rounds) index value l h =
      elim (Option-cases (hex_value (byte_at input (offset + index)))) [
        | inl q ↦ ground arith
        | inr (d, q) ↦
            hex4_loop-OfInput offset rounds (index + 1) (value * 16 + d) (omega arith)
              (ground arith)
      ]

  parse_hex4-OfInput :
      (offset : ℕ) {e : Error}
      → offset ≤ length input
      → parse_hex4 input offset ≡ err e
      → OfInput input e
  unfolding parse_hex4
  parse_hex4-OfInput offset l h = elim (Bool-cases (ltb (length input) (offset + 4))) [
    | inl short ↦ ground arith
    | inr room ↦ hex4_loop-OfInput offset 4 0 0 (ground arith) (ground arith)
  ]

  validate_utf8-OfInput :
      (cursor : ℕ) {e : Error}
      → cursor < length input
      → validate_utf8 input cursor ≡ err e
      → OfInput input e
  unfolding validate_utf8
  validate_utf8-OfInput cursor l h = elim (Result-cases (utf8_sequence_length input cursor)) [
    | inl (n, q) ↦ absurd (ground arith)
    | inr (e, q) ↦
        let at = drop-At input cursor (omega arith) in
        let (low, high) =
          utf8_sequence_length-err (drop cursor input) at
            (λ z. absurd (omega (arith, at.measured, ap length z))) q in
        ground arith
  ]

  scan_unicode-OfInput :
      (cursor : ℕ) {e : Error}
      → cursor + 2 ≤ length input
      → scan_unicode input cursor ≡ err e
      → OfInput input e
  unfolding scan_unicode scan_low_surrogate
  scan_unicode-OfInput cursor l h = elim (Result-cases (parse_hex4 input (cursor + 2))) [
    | inr (e, q) ↦ subst (OfInput input) (ground arith) (parse_hex4-OfInput (cursor + 2) l q)
    | inl (c, q) ↦ elim (Result-cases (parse_hex4 input (cursor + 6 + 2))) [
      | inl (low, k) ↦ ground arith
      | inr (e, k) ↦ elim (Bool-cases (ltb (length input) (cursor + 6 + 6))) [
        | inl short ↦ ground arith
        | inr room ↦
            let low = parse_hex4-OfInput (cursor + 6 + 2) {e = e} (ground arith) k in ground arith
      ]
    ]
  ]

  scan_escape-OfInput :
      (cursor : ℕ) {e : Error}
      → cursor < length input
      → scan_escape input cursor ≡ err e
      → OfInput input e
  unfolding scan_escape
  scan_escape-OfInput cursor {e} l h = elim (Bool-cases (cursor + 1 == length input)) [
    | inl over ↦ ground arith
    | inr more ↦ elim (Bool-cases (byte_at input (cursor + 1) == b'u')) [
      | inl is_u ↦ scan_unicode-OfInput cursor (ground arith) (ground arith)
      | inr other ↦ elim (Option-cases (short_escape_byte (byte_at input (cursor + 1)))) [
        | inl q ↦ ground arith
        | inr (c, q) ↦ absurd (ground arith)
      ]
    ]
  ]

  scan_piece-OfInput :
      (cursor : ℕ) {e : Error}
      → cursor < length input
      → scan_piece input cursor ≡ err e
      → OfInput input e
  unfolding scan_piece
  scan_piece-OfInput cursor {e} l h = elim (Bool-cases (byte_at input cursor == b'\\')) [
    | inl slash ↦ scan_escape-OfInput cursor l (ground arith)
    | inr plain ↦ elim (Bool-cases (ltb (byte_at input cursor) 0x80)) [
      | inl small ↦ absurd (ground arith)
      | inr high ↦ elim (Result-cases (validate_utf8 input cursor)) [
        | inr (e, q) ↦ subst (OfInput input) (ground arith) (validate_utf8-OfInput cursor l q)
        | inl (len, q) ↦ absurd (ground arith)
      ]
    ]
  ]

  -- With a round for each byte left, the scan does not run out of them.
  scan_loop-OfInput :
      (rounds start : ℕ) (scan : StringScan) {e : Error}
      → start ≤ length input
      → length input < scan.stop + rounds
      → scan.stop ≤ length input
      → scan_loop input rounds start scan ≡ err e
      → OfInput input e
  unfolding scan_loop
  scan_loop-OfInput zero start scan s r l h = absurd (omega arith)
  scan_loop-OfInput (suc rounds) start scan {e} s r l h =
      elim (Bool-cases (ltb scan.stop (length input))) [
        | inr out ↦ ground arith
        | inl inside ↦ elim (Bool-cases (byte_at input scan.stop == b'"')) [
          | inl quote ↦ absurd (ground arith)
          | inr no_quote ↦ elim (Bool-cases (ltb (byte_at input scan.stop) 0x20)) [
            | inl control ↦ ground arith
            | inr printing ↦ elim (Result-cases (scan_piece input scan.stop)) [
              | inr (e, q) ↦
                  subst (OfInput input) (ground arith)
                    (scan_piece-OfInput scan.stop (ground arith) q)
              | inl (piece, q) ↦
                  elim (Bool-cases (ltb 65535 (scan.decoded_length + piece.decoded))) [
                    | inl long ↦ ground arith
                    | inr fits ↦
                        let next : StringScan = record {
                          stop = piece.stop;
                          decoded_length = scan.decoded_length + piece.decoded;
                          has_escape = scan.has_escape || piece.escape;
                          flags = if piece.flagged then 1 else scan.flags;
                        } in
                        let again : scan_loop input rounds start next ≡ err e = ground arith in
                        let (bytes, d) =
                          scan_piece-Decodes input scan.stop piece (ground arith) (ground arith)
                            (ground arith) q in
                        scan_loop-OfInput rounds start next s (omega (arith, d.forward)) d.within
                          again
                  ]
            ]
          ]
        ]
      ]

  pub scan_string-OfInput :
      (start : ℕ) {e : Error}
      → start < length input
      → scan_string input start ≡ err e
      → OfInput input e
  unfolding scan_string
  scan_string-OfInput start l h =
      scan_loop-OfInput (length input + 1) start _ (omega arith) (omega arith) (omega arith) h
