-- ===== src/Utf8/Sequence.antt =====
-- `utf8_sequence_length` of include/slabjson/detail/utf8.hpp reads one encoded scalar value.
use slabjson.Prelude.{
  ℕ, suc, ◌+◌, ◌-◌, ◌*◌, ◌≤◌, ◌<◌, ◌≡◌, ◌≢◌, refl, ap, subst, ◌∙◌, ◌⊎◌, inl, inr, none, some, [],
  ◌∷◌, ◌++◌, ltb, length, length-append, arith, Bool-cases,
}
use slabjson.Error.{Error}
use slabjson.Result.{ok, err}
use slabjson.Utf8.{
  Bytes, byte_at, lead_length, continuations, checked_sequence, utf8_sequence_length,
}
use slabjson.Utf8.Encoding.{IsScalar, encode, two_bytes, three_bytes, four_bytes}

-- `rest` is what `value` holds from `offset` on.
pub record At (value : Bytes) (offset : ℕ) (rest : Bytes) : Type 0 where
  pub measured : length value ≡ offset + length rest
  pub reads : (i : ℕ) → byte_at value (offset + i) ≡ byte_at rest i

pub At-start : (value : Bytes) → At value 0 value
At-start value = record { measured = omega arith; reads = λ i. ap (byte_at value) (omega arith) }

byte_at-append : (xs ys : Bytes) (i : ℕ) → byte_at (xs ++ ys) (length xs + i) ≡ byte_at ys i
byte_at-append [] ys i = let e : 0 + i ≡ i = omega arith in ap (byte_at ys) e
byte_at-append (x ∷ xs) ys i =
    let e : suc (length xs + i) ≡ length (x ∷ xs) + i = omega arith in
    subst (λ k. byte_at (x ∷ xs ++ ys) k ≡ byte_at ys i) e (byte_at-append xs ys i)

pub At-skip :
    {value : Bytes} {offset : ℕ} (xs ys : Bytes)
    → At value offset (xs ++ ys)
    → At value (offset + length xs) ys
At-skip {value} {offset} xs ys at = record {
  measured = omega (arith, at.measured, length-append xs ys);
  reads = λ i.
      subst (λ k. byte_at value k ≡ byte_at ys i) (omega arith)
        (at.reads (length xs + i) ∙ byte_at-append xs ys i);
}

-- The first bytes of the rest, as the function reads them.
module _ {value : Bytes} {offset : ℕ} {rest : Bytes} (at : At value offset rest) where
  pub byte_first : byte_at value offset ≡ byte_at rest 0
  byte_first = subst (λ k. byte_at value k ≡ byte_at rest 0) (omega arith) (at.reads 0)

-- `rest` begins with an encoded scalar value of `n` bytes.
abbrev pub Decoded : Bytes → ℕ → Type 0
Decoded rest n =
    (c : ℕ) × (tail : Bytes) × IsScalar c × (rest ≡ encode c ++ tail) × (n ≡ length (encode c))

-- What the continuation bytes must be.
abbrev IsContinuation : ℕ → Type 0
IsContinuation b = (0x80 ≤ b) × (b ≤ 0xbf)

-- The branch for each announced length, and the scalar value that its bytes stand for.
lead_cases :
    (a : ℕ)
    → (lead_length a ≡ none)
      ⊎ (((lead_length a ≡ some 2) × (0xc2 ≤ a) × (a ≤ 0xdf))
          ⊎ (((lead_length a ≡ some 3) × (0xe0 ≤ a) × (a ≤ 0xef))
              ⊎ ((lead_length a ≡ some 4) × (0xf0 ≤ a) × (a ≤ 0xf4))))
lead_cases a = ground arith

module _ {value : Bytes} {offset : ℕ} where
  two-Decoded :
      (a : ℕ) (rest : Bytes) {n : ℕ}
      → At value offset (a ∷ rest)
      → 0xc2 ≤ a
      → a ≤ 0xdf
      → checked_sequence value offset 2 ≡ ok n
      → (b : ℕ) × (tail : Bytes) × IsContinuation b × (rest ≡ b ∷ tail) × (n ≡ 2)
  unfolding checked_sequence continuations
  two-Decoded a [] at p q h = absurd (ground (arith, at.measured))
  two-Decoded a (b ∷ tail) at p q h = (
    b,
    tail,
    ground (arith, at.measured, byte_first at, at.reads 1),
    refl,
    ground (arith, at.measured),
  )

  three-Decoded :
      (a : ℕ) (rest : Bytes) {n : ℕ}
      → At value offset (a ∷ rest)
      → 0xe0 ≤ a
      → a ≤ 0xef
      → checked_sequence value offset 3 ≡ ok n
      → (b c : ℕ) × (tail : Bytes) × IsContinuation b
        × IsContinuation c
        × ((0xe0 < a) ⊎ (0xa0 ≤ b))
        × ((a ≢ 0xed) ⊎ (b ≤ 0x9f))
        × (rest ≡ b ∷ c ∷ tail)
        × (n ≡ 3)
  unfolding checked_sequence continuations
  three-Decoded a [] at p q h = absurd (ground (arith, at.measured))
  three-Decoded a (b ∷ []) at p q h = absurd (ground (arith, at.measured))
  three-Decoded a (b ∷ c ∷ tail) at p q h = (
    b,
    c,
    tail,
    ground (arith, at.measured, byte_first at, at.reads 1, at.reads 2),
    ground (arith, at.measured, byte_first at, at.reads 1, at.reads 2),
    ground (arith, at.measured, byte_first at, at.reads 1, at.reads 2),
    ground (arith, at.measured, byte_first at, at.reads 1, at.reads 2),
    refl,
    ground (arith, at.measured),
  )

  four-Decoded :
      (a : ℕ) (rest : Bytes) {n : ℕ}
      → At value offset (a ∷ rest)
      → 0xf0 ≤ a
      → a ≤ 0xf4
      → checked_sequence value offset 4 ≡ ok n
      → (b c d : ℕ) × (tail : Bytes) × IsContinuation b
        × IsContinuation c
        × IsContinuation d
        × ((0xf0 < a) ⊎ (0x90 ≤ b))
        × ((a ≢ 0xf4) ⊎ (b ≤ 0x8f))
        × (rest ≡ b ∷ c ∷ d ∷ tail)
        × (n ≡ 4)
  unfolding checked_sequence continuations
  four-Decoded a [] at p q h = absurd (ground (arith, at.measured))
  four-Decoded a (b ∷ []) at p q h = absurd (ground (arith, at.measured))
  four-Decoded a (b ∷ c ∷ []) at p q h = absurd (ground (arith, at.measured))
  four-Decoded a (b ∷ c ∷ d ∷ tail) at p q h = (
    b,
    c,
    d,
    tail,
    ground (arith, at.measured, byte_first at, at.reads 1, at.reads 2, at.reads 3),
    ground (arith, at.measured, byte_first at, at.reads 1, at.reads 2, at.reads 3),
    ground (arith, at.measured, byte_first at, at.reads 1, at.reads 2, at.reads 3),
    ground (arith, at.measured, byte_first at, at.reads 1, at.reads 2, at.reads 3),
    ground (arith, at.measured, byte_first at, at.reads 1, at.reads 2, at.reads 3),
    refl,
    ground (arith, at.measured),
  )

  checked_sequence-Decoded :
      (a : ℕ) (rest : Bytes) {n : ℕ} (len : ℕ)
      → At value offset (a ∷ rest)
      → lead_length a ≡ some len
      → checked_sequence value offset len ≡ ok n
      → Decoded (a ∷ rest) n
  unfolding encode
  checked_sequence-Decoded a rest {n} len at l h = elim (lead_cases a) [
    | inl e ↦ absurd (ground arith)
    | inr (inl (e, p, q)) ↦
        let (b, tail, (r, s), t, m) = two-Decoded a rest {n = n} at p q (ground arith) in
        (
          (a - 0xc0) * 64 + (b - 0x80),
          tail,
          omega arith,
          ap (◌∷◌ a) t ∙ two_bytes a b tail p q r s,
          ground arith,
        )
    | inr (inr (inl (e, p, q))) ↦
        let (b, c, tail, (r, s), (r', s'), low, high, t, m) =
          three-Decoded a rest {n = n} at p q (ground arith) in
        (
          (a - 0xe0) * 4096 + (b - 0x80) * 64 + (c - 0x80),
          tail,
          omega arith,
          ap (◌∷◌ a) t ∙ three_bytes a b c tail p q r s r' s' low,
          ground arith,
        )
    | inr (inr (inr (e, p, q))) ↦
        let (b, c, d, tail, (r, s), (r', s'), (r'', s''), low, high, t, m) =
          four-Decoded a rest {n = n} at p q (ground arith) in
        (
          (a - 0xf0) * 262144 + (b - 0x80) * 4096 + (c - 0x80) * 64 + (d - 0x80),
          tail,
          omega arith,
          ap (◌∷◌ a) t ∙ four_bytes a b c d tail p q r s r' s' r'' s'' low,
          ground arith,
        )
  ]

  -- A reported length is that of an encoded scalar value.
  pub utf8_sequence_length-Decoded :
      (rest : Bytes) {n : ℕ}
      → At value offset rest
      → utf8_sequence_length value offset ≡ ok n
      → Decoded rest n
  unfolding utf8_sequence_length encode
  utf8_sequence_length-Decoded [] at h = absurd (ground (arith, at.measured))
  utf8_sequence_length-Decoded (a ∷ rest) at h = elim (Bool-cases (ltb a 0x80)) [
    | inl small ↦ (a, rest, ground arith, ground arith, ground (arith, at.measured, byte_first at))
    | inr large ↦ elim (lead_cases a) [
      | inl e ↦ absurd (ground (arith, at.measured, byte_first at))
      | inr (inl (e, p, q)) ↦
          checked_sequence-Decoded a rest 2 at e (ground (arith, at.measured, byte_first at))
      | inr (inr (inl (e, p, q))) ↦
          checked_sequence-Decoded a rest 3 at e (ground (arith, at.measured, byte_first at))
      | inr (inr (inr (e, p, q))) ↦
          checked_sequence-Decoded a rest 4 at e (ground (arith, at.measured, byte_first at))
    ]
  ]

  -- Every encoded scalar value is accepted, whatever follows it.
  pub utf8_sequence_length-encode :
      (c : ℕ) (tail : Bytes)
      → IsScalar c
      → At value offset (encode c ++ tail)
      → utf8_sequence_length value offset ≡ ok (length (encode c))
  unfolding utf8_sequence_length encode checked_sequence continuations
  utf8_sequence_length-encode c tail sc at =
      ground (arith, at.measured, byte_first at, at.reads 1, at.reads 2, at.reads 3)

  -- A rejected sequence is rejected at a byte of the text.
  pub utf8_sequence_length-err :
      (rest : Bytes) {e : Error}
      → At value offset rest
      → rest ≢ []
      → utf8_sequence_length value offset ≡ err e
      → (offset ≤ e.offset) × (e.offset < length value)
  unfolding utf8_sequence_length checked_sequence continuations
  utf8_sequence_length-err [] at full h = absurd (full refl)
  utf8_sequence_length-err (a ∷ rest) at full h = ground (arith, at.measured)
