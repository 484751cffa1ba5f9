-- ===== src/Parse/Text.antt =====
-- `parse_string` of src/parse.cpp: a string is stored as the text that it spells, or nothing is.
use slabjson.Prelude.{
  ℕ, ◌+◌, ◌-◌, ◌≤◌, ◌<◌, ◌≡◌, refl, sym, ap, ◌∙◌, ◌⊎◌, inl, inr, true, false, [], ◌∷◌, ◌==◌,
  if◌then◌else◌, length, drop, arith, Bool-cases,
}
use slabjson.Error.{Error, error_at, string_capacity_exceeded}
use slabjson.Result.{Outcome, ok, err, Result-cases}
use slabjson.Utf8.{Bytes, byte_at}
use slabjson.Utf8.Encoding.{IsUtf8}
use slabjson.Slab.{StoredString, string_flags, copy_bytes}
use slabjson.Space.{Fits, StringRoom, string_at, copied, allocate_string-AllocatesString}
use slabjson.Document.Store.{stored_string}
use slabjson.Serialize.Memory.{copy_bytes-nil}
use slabjson.Json.Spells.{Spells}
use slabjson.Parse.Strings.{StringScan, take, slice, scan_string, decode_string}
use slabjson.Parse.Values.{Parser, parse_string}
use slabjson.Parse.Scan.{Scanned, scan_loop-Scanned}
use slabjson.Parse.Errors.{OfInput, scan_string-OfInput}

flags_eq : (bytes : Bytes) → string_flags bytes ≡ (if string_flags bytes == 0 then 0 else 1)
unfolding string_flags
flags_eq [] = refl
flags_eq (c ∷ cs) = ground (arith, flags_eq cs)

module _ (input : Bytes) where
  -- The memory behind a scan holds the bytes.
  abbrev stored_bytes : ℕ → StringScan → ℕ → (ℕ → ℕ) → ℕ → ℕ
  stored_bytes start scan offset bytes =
      if scan.has_escape
      then decode_string input start scan.stop offset bytes
      else if scan.stop - start - 2 == 0
      then bytes
      else copy_bytes offset (slice input (start + 1) (scan.stop - 1)) bytes

  stored_bytes_lem :
      (start offset : ℕ) (scan begun : StringScan) (text : Bytes) (memory : ℕ → ℕ)
      → Scanned input (start + 1) begun scan text
      → stored_bytes start scan offset memory ≡ copy_bytes offset text memory
  unfolding decode_string
  stored_bytes_lem start offset scan begun text memory s = elim (Bool-cases scan.has_escape) [
    | inl escape ↦ rw escape (s.written (length input) offset memory (omega (arith, s.within)))
    | inr plain ↦
        let (q, _) = s.plain plain in
        elim (Bool-cases (scan.stop - start - 2 == 0)) [
          | inl short ↦
              let none : scan.stop - 1 - (start + 1) ≡ 0 = ground arith in
              let empty = ap length (q ∙ ap (λ k. take k (drop (start + 1) input)) none) in
              ground (arith, copy_bytes-nil offset text memory empty)
          | inr long ↦ ground (arith, ap (λ t. copy_bytes offset t memory) q)
        ]
  ]

  -- The slab stores the text, in UTF-8, that the characters between two quotation marks spell; or the
  -- error is one of the input or of the room for strings, and nothing changes.
  abbrev pub ParsesString : Parser → Outcome Parser StoredString → Type 0
  ParsesString p r =
      ((text : Bytes) × (stop : ℕ) × Spells (slice input (p.position + 1) (stop - 1)) text
        × (byte_at input (stop - 1) ≡ b'"')
        × IsUtf8 text
        × StringRoom p.slab (length text)
        × (p.position + 1 < stop)
        × (stop ≤ length input)
        × (r ≡ (
          ok (stored_string p.slab text),
          record { slab = copied text p.slab; position = stop },
        )))
      ⊎ ((e : Error) × OfInput input e × (r ≡ (err e, p)))

  abbrev begun : ℕ → StringScan
  begun start = record { stop = start + 1; decoded_length = 0; has_escape = false; flags = 0 }

  scan_string-Scanned :
      (start : ℕ) (scan : StringScan)
      → scan_string input start ≡ ok scan
      → (text : Bytes) × Scanned input (start + 1) (begun start) scan text
  unfolding scan_string
  scan_string-Scanned start scan h =
      scan_loop-Scanned input (length input + 1) start (begun start) scan h

  stored :
      (p : Parser) (scan : StringScan) (text : Bytes)
      → scan.decoded_length ≡ length text
      → scan.flags ≡ string_flags text
      → Scanned input (p.position + 1) (begun p.position) scan text
      → ◌≡◌ {A = Outcome Parser StoredString}
          (
            ok (record { ref = string_at p.slab scan.decoded_length; flags = scan.flags }),
            record {
              slab = record p.slab {
                string_bytes_used = p.slab.string_bytes_used + scan.decoded_length;
                bytes =
                    stored_bytes p.position scan
                      (string_at p.slab scan.decoded_length).offset
                      p.slab.bytes;
              };
              position = scan.stop;
            },
          )
          (
            ok (stored_string p.slab text),
            record { slab = copied text p.slab; position = scan.stop },
          )
  stored p scan text count flags s = ground (
    arith,
    stored_bytes_lem p.position (string_at p.slab scan.decoded_length).offset scan
        (begun p.position) text p.slab.bytes s,
  )

  -- Within the bounds of a valid slab and at a position inside the input, `parse_string` either
  -- stores the text that the characters from the next position up to a quotation mark spell (RFC
  -- 8259, escapes and surrogate pairs included); the text is UTF-8, it is stored below the strings
  -- of the slab with its length, its flags and every byte in place, and the position moves behind
  -- the mark; or it changes nothing and fails with an error whose offset lies in the input or at
  -- its end. The loops never run out of rounds.
  pub parse_string-ParsesString :
      (p : Parser)
      → Fits p.slab
      → p.slab.valid ≡ true
      → p.position < length input
      → ParsesString p (parse_string input p)
  unfolding parse_string
  parse_string-ParsesString p f v l = elim (Result-cases (scan_string input p.position)) [
    | inr (e, q) ↦ inr (e, scan_string-OfInput input p.position l q, rw (q, parse_string))
    | inl (scan, q) ↦
        let (text, s) = scan_string-Scanned p.position scan q in
        let count : scan.decoded_length ≡ length text = omega (arith, s.counted) in
        elim (allocate_string-AllocatesString scan.decoded_length f) [
          | inl (_, room, e) ↦ inl (
            text,
            scan.stop,
            s.spells,
            s.ended,
            s.utf8,
            omega arith,
            omega (arith, s.forward),
            s.within,
            rw (q, parse_string)
                (rw e (stored p scan text count (s.flagged ∙ sym (flags_eq text)) s)),
          )
          | inr (inl (_, full, e)) ↦ inr (
            error_at string_capacity_exceeded p.position,
            (omega arith, λ k. cc),
            rw (q, parse_string) (rw e),
          )
          | inr (inr (i, e)) ↦ absurd (cc)
        ]
  ]
