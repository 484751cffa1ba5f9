-- ===== src/Utf8/Validation.antt =====
-- `invalid_utf8_offset` of include/slabjson/detail/utf8.hpp accepts UTF-8 and nothing else.
use slabjson.Prelude.{
  ℕ, zero, suc, ◌+◌, ◌≤◌, ◌<◌, ◌≡◌, ◌↔◌, refl, sym, ap, subst, ◌∙◌, inl, inr, none, some, List, [],
  ◌∷◌, ◌++◌, ltb, length, length-append, arith, Bool-cases,
}
use slabjson.Error.{Error}
use slabjson.Result.{ok, err, Result-cases}
use slabjson.Utf8.{Bytes, utf8_sequence_length, invalid_from, invalid_utf8_offset}
use slabjson.Utf8.Encoding.{IsScalar, AllScalar, IsUtf8, encode, encode_all, encode_pos}
use slabjson.Utf8.Sequence.{
  At, At-start, At-skip, byte_first, utf8_sequence_length-Decoded, utf8_sequence_length-encode,
  utf8_sequence_length-err,
}

module _ {value : Bytes} where
  -- The fast path for ASCII agrees with the general one.
  ascii_step :
      {offset : ℕ} (a : ℕ) (rest : Bytes)
      → At value offset (a ∷ rest)
      → a < 0x80
      → utf8_sequence_length value offset ≡ ok 1
  unfolding utf8_sequence_length
  ascii_step a rest at small = ground (arith, at.measured, byte_first at)

  -- So the loop reads one scalar value a round.
  invalid_from_step :
      (fuel : ℕ) {offset : ℕ} (a : ℕ) (rest : Bytes) {n : ℕ}
      → At value offset (a ∷ rest)
      → utf8_sequence_length value offset ≡ ok n
      → invalid_from value (suc fuel) offset ≡ invalid_from value fuel (offset + n)
  unfolding invalid_from
  invalid_from_step fuel a rest at h = elim (Bool-cases (ltb a 0x80)) [
    | inl small ↦ ground (arith, at.measured, byte_first at, ascii_step a rest at)
    | inr large ↦ ground (arith, at.measured, byte_first at)
  ]

  invalid_from_stop :
      (fuel : ℕ) {offset : ℕ} (a : ℕ) (rest : Bytes) {e : Error}
      → At value offset (a ∷ rest)
      → utf8_sequence_length value offset ≡ err e
      → invalid_from value (suc fuel) offset ≡ some e.offset
  unfolding invalid_from
  invalid_from_stop fuel a rest at h = elim (Bool-cases (ltb a 0x80)) [
    | inl small ↦ ground (arith, at.measured, byte_first at, ascii_step a rest at)
    | inr large ↦ ground (arith, at.measured, byte_first at)
  ]

  invalid_from_end :
      (fuel : ℕ) {offset : ℕ} → At value offset [] → invalid_from value (suc fuel) offset ≡ none
  unfolding invalid_from
  invalid_from_end fuel at = ground (arith, at.measured)

  sound :
      (fuel : ℕ) {offset : ℕ} (rest : Bytes)
      → At value offset rest
      → length rest < fuel
      → invalid_from value fuel offset ≡ none
      → IsUtf8 rest
  unfolding encode_all
  sound zero rest at l h = absurd (omega arith)
  sound (suc fuel) [] at l h = ([], tt, refl)
  sound (suc fuel) {offset} (a ∷ rest) at l h =
      elim (Result-cases (utf8_sequence_length value offset)) [
        | inl (n, e) ↦
            let (c, tail, sc, split, len) = utf8_sequence_length-Decoded (a ∷ rest) at e in
            let at' : At value (offset + n) tail =
              subst (λ k. At value (offset + k) tail) (sym len)
                (At-skip (encode c) tail (subst (At value offset) split at)) in
            let (cs, scs, whole) =
              sound fuel tail at'
                (omega (arith, encode_pos c, ap length split, length-append (encode c) tail))
                (sym (invalid_from_step fuel a rest at e) ∙ h) in
            (c ∷ cs, (sc, scs), split ∙ ap (◌++◌ (encode c)) whole)
        | inr (x, e) ↦ absurd (cc (invalid_from_stop fuel a rest at e))
      ]

  consume :
      (fuel : ℕ) {offset : ℕ} (c : ℕ) (tail all : Bytes)
      → IsScalar c
      → encode c ++ tail ≡ all
      → At value offset all
      → invalid_from value (suc fuel) offset ≡ invalid_from value fuel (offset + length (encode c))
  consume fuel c tail [] sc e at =
      absurd (omega (arith, encode_pos c, ap length e, length-append (encode c) tail))
  consume fuel {offset} c tail (a ∷ rest) sc e at =
      invalid_from_step fuel a rest at
        (utf8_sequence_length-encode c tail sc (subst (At value offset) (sym e) at))

  complete :
      (fuel : ℕ) {offset : ℕ} (cs : List ℕ)
      → AllScalar cs
      → At value offset (encode_all cs)
      → length (encode_all cs) < fuel
      → invalid_from value fuel offset ≡ none
  unfolding encode_all
  complete zero cs sc at l = absurd (omega arith)
  complete (suc fuel) [] sc at l = invalid_from_end fuel at
  complete (suc fuel) (c ∷ cs) (sc, scs) at l =
      consume fuel c (encode_all cs) (encode c ++ encode_all cs) sc refl at
      ∙ complete fuel cs scs (At-skip (encode c) (encode_all cs) at)
          (omega (arith, encode_pos c, length-append (encode c) (encode_all cs)))

  located :
      (fuel : ℕ) {offset : ℕ} (rest : Bytes) {k : ℕ}
      → At value offset rest
      → length rest < fuel
      → invalid_from value fuel offset ≡ some k
      → (offset ≤ k) × (k < length value)
  located zero rest at l h = absurd (omega arith)
  located (suc fuel) [] at l h = absurd (cc (invalid_from_end fuel at))
  located (suc fuel) {offset} (a ∷ rest) {k} at l h =
      elim (Result-cases (utf8_sequence_length value offset)) [
        | inl (n, e) ↦
            let (c, tail, sc, split, len) = utf8_sequence_length-Decoded (a ∷ rest) at e in
            let at' : At value (offset + n) tail =
              subst (λ k. At value (offset + k) tail) (sym len)
                (At-skip (encode c) tail (subst (At value offset) split at)) in
            let (low, high) =
              located fuel tail at'
                (omega (arith, encode_pos c, ap length split, length-append (encode c) tail))
                (sym (invalid_from_step fuel a rest at e) ∙ h) in
            (omega arith, high)
        | inr (x, e) ↦
            let found : x.offset ≡ k = cc (invalid_from_stop fuel a rest at e) in
            let (low, high) = utf8_sequence_length-err (a ∷ rest) at (λ q. cc) e in
            (omega arith, omega arith)
      ]

-- `invalid_utf8_offset` finds nothing exactly if the text is UTF-8: the encoding of a sequence of
-- Unicode scalar values.
pub invalid_utf8_offset-IsUtf8 : (value : Bytes) → (invalid_utf8_offset value ≡ none) ↔ IsUtf8 value
unfolding invalid_utf8_offset
invalid_utf8_offset-IsUtf8 value = (
  λ h. sound (length value + 1) value (At-start value) (omega arith) h,
  λ (cs, sc, e).
      complete (length value + 1) cs sc (subst (At value 0) e (At-start value))
        (omega (arith, ap length e)),
)

-- An offset that `invalid_utf8_offset` reports is that of a byte of the text.
pub invalid_utf8_offset-lt :
    (value : Bytes) {k : ℕ} → invalid_utf8_offset value ≡ some k → k < length value
unfolding invalid_utf8_offset
invalid_utf8_offset-lt value h =
    (located (length value + 1) value (At-start value) (omega arith) h).1
