-- ===== src/Utf8.antt =====
-- include/slabjson/detail/utf8.hpp: the validation of UTF-8. A text is the list of its bytes.
pub mod Encoding
pub mod Sequence
pub mod Validation
use slabjson.Prelude.{
  ℕ, zero, suc, ◌+◌, ◌-◌, ◌≡◌, refl, Bool, true, false, ◌&&◌, ◌||◌, Option, none, some, List, [],
  ◌∷◌, ltb, leb, ◌==◌, if◌then◌else◌, length,
}
use slabjson.Error.{error_at, invalid_utf8}
use slabjson.Result.{Result, ok, err}

abbrev pub Bytes : Type 0
Bytes = List ℕ

-- `value[i]`; the source reads it only below `value.size()`.
abbrev pub byte_at : Bytes → ℕ → ℕ
byte_at [] i = 0
byte_at (x ∷ xs) zero = x
byte_at (x ∷ xs) (suc i) = byte_at xs i

-- The length that the first byte announces.
abbrev lead_length : ℕ → Option ℕ
lead_length first =
    if leb 0xc2 first && leb first 0xdf
    then some 2
    else if leb 0xe0 first && leb first 0xef
    then some 3
    else if leb 0xf0 first && leb first 0xf4
    then some 4
    else none

-- The loop over the continuation bytes, with `rounds` of them left to check.
continuations : Bytes → ℕ → ℕ → ℕ → Result ℕ
continuations value offset index zero = ok index
continuations value offset index (suc rounds) =
    let rest = continuations value offset (index + 1) rounds in
    let continuation = byte_at value (offset + index) in
    if ltb continuation 0x80 || ltb 0xbf continuation
    then err (error_at invalid_utf8 (offset + index))
    else rest

-- Second bytes that a first byte excludes: overlong forms, surrogates, beyond 0x10ffff.
abbrev excluded : ℕ → ℕ → Bool
excluded first second =
    (first == 0xe0 && ltb second 0xa0)
    || ((first == 0xed && ltb 0x9f second)
        || ((first == 0xf0 && ltb second 0x90) || (first == 0xf4 && ltb 0x8f second)))

checked_sequence : Bytes → ℕ → ℕ → Result ℕ
checked_sequence value offset len =
    if ltb (length value - offset) len
    then err (error_at invalid_utf8 offset)
    else elim (continuations value offset 1 (len - 1)) [
      | err e ↦ err e
      | ok _ ↦
          if excluded (byte_at value offset) (byte_at value (offset + 1))
          then err (error_at invalid_utf8 offset)
          else ok len
    ]

unfoldable pub utf8_sequence_length : Bytes → ℕ → Result ℕ
unfolding checked_sequence continuations
utf8_sequence_length value offset =
    if leb (length value) offset
    then err (error_at invalid_utf8 offset)
    else if ltb (byte_at value offset) 0x80
    then ok 1
    else elim (lead_length (byte_at value offset)) [
      | none ↦ err (error_at invalid_utf8 offset)
      | some len ↦ checked_sequence value offset len
    ]

-- The loop of `invalid_utf8_offset`. Each round moves on by a byte at least, so `length value + 1`
-- rounds are enough; a loop that ran out of rounds would reject.
invalid_from : Bytes → ℕ → ℕ → Option ℕ
invalid_from value zero offset = some offset
invalid_from value (suc fuel) offset =
    if leb (length value) offset then none else elim (ltb (byte_at value offset) 0x80) [
      | true ↦ invalid_from value fuel (offset + 1)
      | false ↦ elim (utf8_sequence_length value offset) [
        | err e ↦ some e.offset
        | ok n ↦ invalid_from value fuel (offset + n)
      ]
    ]

unfoldable pub invalid_utf8_offset : Bytes → Option ℕ
unfolding invalid_from utf8_sequence_length
invalid_utf8_offset value = invalid_from value (length value + 1) 0
