-- ===== src/Serialize/Memory.antt =====
-- The memory of an output span under the writes of src/serialize.cpp.
use slabjson.Prelude.{
  ℕ, zero, suc, ◌+◌, ◌-◌, ◌%◌, ◌≤◌, ◌<◌, ◌^◌, ◌≡◌, refl, ap, ◌∙◌, fun_ext, [], ◌∷◌, ◌++◌, length,
  length-append, arith,
}
use slabjson.Utf8.{Bytes, byte_at}
use slabjson.Slab.{copy_bytes}
use slabjson.Serialize.Writers.{size_max, fill_bytes}
use slabjson.Serialize.Emits.{length-repeated}
use slabjson.Json.{repeated}

pub byte_at-append_left :
    (xs ys : Bytes) (i : ℕ) → i < length xs → byte_at (xs ++ ys) i ≡ byte_at xs i
byte_at-append_left [] ys i h = absurd (omega arith)
byte_at-append_left (x ∷ xs) ys zero h = refl
byte_at-append_left (x ∷ xs) ys (suc i) h = byte_at-append_left xs ys i (omega arith)

pub byte_at-append_right :
    (xs ys : Bytes) (i : ℕ) → byte_at (xs ++ ys) (length xs + i) ≡ byte_at ys i
byte_at-append_right [] ys i = ap (byte_at ys) (omega arith)
byte_at-append_right (x ∷ xs) ys i =
    ap (byte_at (x ∷ xs ++ ys)) (suc_add (length xs) i) ∙ byte_at-append_right xs ys i
  where
    suc_add : (a b : ℕ) → suc a + b ≡ suc (a + b)
    suc_add a b = omega arith

byte_at-repeated : (c n i : ℕ) → i < n → byte_at (repeated c n) i ≡ c
byte_at-repeated c zero i h = absurd (omega arith)
byte_at-repeated c (suc n) zero h = refl
byte_at-repeated c (suc n) (suc i) h = byte_at-repeated c n i (omega arith)

plus_minus : (p i : ℕ) → p ≤ i → p + (i - p) ≡ i
plus_minus p i h = omega arith

-- Bytes behind bytes.
pub copy_bytes-append :
    (xs ys : Bytes) (memory : ℕ → ℕ) (p : ℕ)
    → p ≡ length xs
    → copy_bytes p ys (copy_bytes 0 xs memory) ≡ copy_bytes 0 (xs ++ ys) memory
unfolding copy_bytes
copy_bytes-append xs ys memory p e = fun_ext λ i. ground (
  arith,
  length-append xs ys,
  byte_at-append_left xs ys i,
  byte_at-append_right xs ys (i - p),
  plus_minus p i,
)

pub fill_bytes-append :
    (xs : Bytes) (c n : ℕ) (memory : ℕ → ℕ) (p : ℕ)
    → p ≡ length xs
    → fill_bytes p c n (copy_bytes 0 xs memory) ≡ copy_bytes 0 (xs ++ repeated c n) memory
unfolding copy_bytes fill_bytes
fill_bytes-append xs c n memory p e = fun_ext λ i. ground (
  arith,
  length-append xs (repeated c n),
  length-repeated c n,
  byte_at-append_left xs (repeated c n) i,
  byte_at-append_right xs (repeated c n) (i - p),
  byte_at-repeated c n (i - p),
  plus_minus p i,
)

minus_minus : (p l i : ℕ) → p + l ≤ i → l + (i - (p + l)) ≡ i - p
minus_minus p l i h = omega arith

pub copy_bytes-twice :
    (xs ys : Bytes) (memory : ℕ → ℕ) (p : ℕ)
    → copy_bytes (p + length xs) ys (copy_bytes p xs memory) ≡ copy_bytes p (xs ++ ys) memory
unfolding copy_bytes
copy_bytes-twice xs ys memory p = fun_ext λ i. ground (
  arith,
  length-append xs ys,
  byte_at-append_left xs ys (i - p),
  byte_at-append_right xs ys (i - (p + length xs)),
  minus_minus p (length xs) i,
)

pub copy_bytes-nil :
    (p : ℕ) (ys : Bytes) (memory : ℕ → ℕ) → length ys ≡ 0 → copy_bytes p ys memory ≡ memory
unfolding copy_bytes
copy_bytes-nil p ys memory e = fun_ext λ i. ground arith

pub fill_bytes-zero : (p c : ℕ) (memory : ℕ → ℕ) → fill_bytes p c 0 memory ≡ memory
unfolding fill_bytes
fill_bytes-zero p c memory = fun_ext λ i. ground arith

-- The memory holds the bytes `xs`, and behind them what it held.
abbrev pub Holding : (ℕ → ℕ) → (ℕ → ℕ) → ℕ → ℕ → Bytes → Type 0
Holding memory output position limit xs =
    (position ≡ length xs) × (length xs ≤ limit) × (output ≡ copy_bytes 0 xs memory)

module _ (memory : ℕ → ℕ) (limit : ℕ) (small : limit ≤ size_max) where
  -- What an append leaves behind, if it fits.
  pub copied-Holding :
      (xs ys : Bytes) (output : ℕ → ℕ) (position : ℕ)
      → Holding memory output position limit xs
      → length xs + length ys ≤ limit
      → Holding memory
          (copy_bytes position ys output)
          ((position + length ys) % 2 ^ 64)
          limit
          (xs ++ ys)
  copied-Holding xs ys output position (e, h, o) room = (
    omega (arith, length-append xs ys),
    omega (arith, length-append xs ys),
    ap (copy_bytes position ys) o ∙ copy_bytes-append xs ys memory position e,
  )

  pub filled-Holding :
      (xs : Bytes) (c n : ℕ) (output : ℕ → ℕ) (position : ℕ)
      → Holding memory output position limit xs
      → length xs + n ≤ limit
      → Holding memory
          (fill_bytes position c n output)
          ((position + n) % 2 ^ 64)
          limit
          (xs ++ repeated c n)
  filled-Holding xs c n output position (e, h, o) room = (
    omega (arith, length-append xs (repeated c n), length-repeated c n),
    omega (arith, length-append xs (repeated c n), length-repeated c n),
    ap (fill_bytes position c n) o ∙ fill_bytes-append xs c n memory position e,
  )
