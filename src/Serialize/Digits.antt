-- ===== src/Serialize/Digits.antt =====
-- The decimal text that `write_number` of src/serialize.cpp writes of an integer.
use slabjson.Prelude.{
  ℕ, zero, suc, ◌+◌, ◌/◌, ◌%◌, ◌≡◌, refl, sym, ap, ◌∙◌, inl, inr, [], ◌∷◌, ◌++◌, append-nil,
  append_assoc, ltb, Bool-cases, ℤ, pos, negsuc,
}
use slabjson.Utf8.{Bytes}
use slabjson.Serialize.Text.{digits, decimal, signed_decimal}
use slabjson.Json.{numeral_to, numeral, signed_numeral}

digits-numeral : (places n : ℕ) (acc : Bytes) → digits places n acc ≡ numeral_to places n ++ acc
digits-numeral zero n acc = refl
digits-numeral (suc places) n acc = elim (Bool-cases (ltb n 10)) [
  | inl last ↦ rw (last, digits, numeral_to) refl
  | inr more ↦
      rw (more, digits, numeral_to)
        (digits-numeral places (n / 10) ((b'0' + n % 10) ∷ acc)
          ∙ sym (append_assoc (numeral_to places (n / 10)) ((b'0' + n % 10) ∷ []) acc))
]

pub decimal-numeral : (n : ℕ) → decimal n ≡ numeral n
unfolding decimal
decimal-numeral n = digits-numeral 20 n [] ∙ append-nil (numeral n)

pub signed_decimal-numeral : (i : ℤ) → signed_decimal i ≡ signed_numeral i
unfolding signed_decimal
signed_decimal-numeral (pos n) = decimal-numeral n
signed_decimal-numeral (negsuc n) = ap (λ t. b'-' ∷ t) (decimal-numeral (n + 1))
