-- ===== src/Value/Integers.antt =====
-- `as_int64` and `as_uint64` of src/value.cpp.
use slabjson.Prelude.{
  inl, inr, ℕ, ◌^◌, ◌≤◌, ◌<◌, ◌≡◌, refl, ◌↔◌, ◌⊎◌, ltb, if◌then◌else◌, Option, some, none, ℤ, pos,
  negsuc, arith, Option-cases,
}
use slabjson.Slab.{
  Slab, Node, Value, ValueType, NumberKind, signed_integer, unsigned_integer, floating_point,
}
use slabjson.Value.{
  typed_node, as_int64, as_uint64, node_number_kind, non_negative, signed_of, unsigned_of,
}

-- A number of `std::int64_t`.
abbrev pub IsInt64 : ℤ → Type 0
IsInt64 (pos n) = n < 2 ^ 63
IsInt64 (negsuc n) = n < 2 ^ 63

-- How the two readings of a number go together.
abbrev pub ReadsAlike : Option ℤ → Option ℕ → Type 0
ReadsAlike i u =
    ((n : ℕ) → n < 2 ^ 63 → (i ≡ some (pos n)) ↔ (u ≡ some n))
    × ((n : ℕ) → u ≡ some n → 2 ^ 63 ≤ n → i ≡ none)
    × ((k : ℕ) → i ≡ some (negsuc k) → u ≡ none)
    × ((n : ℕ) → i ≡ some (pos n) → n < 2 ^ 63)

signed-ReadsAlike : (i : ℤ) → IsInt64 i → ReadsAlike (some i) (non_negative i)
signed-ReadsAlike (pos k) h = (
  λ n l. ground arith,
  λ n e l. absurd (ground arith),
  λ k e. absurd (ground arith),
  λ n e. ground arith,
)
signed-ReadsAlike (negsuc k) h =
    (λ n l. ground arith, λ n e l. absurd (ground arith), λ k e. refl, λ n e. absurd (ground arith))

unsigned-ReadsAlike : (u : ℕ) → ReadsAlike (if ltb u (2 ^ 63) then some (pos u) else none) (some u)
unsigned-ReadsAlike u =
    (λ n l. ground arith, λ n e l. ground arith, λ k e. absurd (ground arith), λ n e. ground arith)

none-ReadsAlike : ReadsAlike none none
none-ReadsAlike = (λ n l. ground arith, λ n e l. refl, λ k e. refl, λ n e. absurd (ground arith))

-- If a stored signed number is one of 64 bits, `as_int64` and `as_uint64` of any handle go
-- together: both return the same number below 2^63 or neither does; a number from 2^63 on is none
-- for `as_int64`; a negative one is none for `as_uint64`; and `as_int64` returns none from 2^63 on.
pub as_int64-as_uint64 :
    (s : Slab) (v : Value)
    → ((n : Node) → typed_node s v ValueType.number ≡ some n → IsInt64 (signed_of n.payload))
    → ReadsAlike (as_int64 s v) (as_uint64 s v)
unfolding as_int64 as_uint64
as_int64-as_uint64 s v h = elim (Option-cases (typed_node s v ValueType.number)) [
  | inl e ↦ rw (e, as_int64, as_uint64) none-ReadsAlike
  | inr (m, e) ↦ elim (kind_cases (node_number_kind m)) [
    | inl k ↦ rw (e, as_int64, as_uint64) (rw k (signed-ReadsAlike (signed_of m.payload) (h m e)))
    | inr (inl k) ↦ rw (e, as_int64, as_uint64) (rw k (unsigned-ReadsAlike (unsigned_of m.payload)))
    | inr (inr k) ↦ rw (e, as_int64, as_uint64) (rw k none-ReadsAlike)
  ]
]
  where
    kind_cases :
        (k : NumberKind) → (k ≡ signed_integer) ⊎ ((k ≡ unsigned_integer) ⊎ (k ≡ floating_point))
    kind_cases signed_integer = inl refl
    kind_cases unsigned_integer = inr (inl refl)
    kind_cases floating_point = inr (inr refl)
