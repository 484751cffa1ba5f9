-- ===== src/Result.antt =====
-- include/slabjson/result.hpp: a value or an error; and operations that change a state `S` on the
-- way to a result. An error ends a `do` block and keeps the state that it was met in, as the early
-- `return r.error();` of the source does.
use slabjson.Prelude.{◌≡◌, refl, ◌⊎◌, inl, inr}
use slabjson.Error.{Error}

pub data Result {ℓ} (A : Type ℓ) : Type ℓ where
  ok : A → Result A
  err : Error → Result A

abbrev pub Outcome : Type 0 → Type 0 → Type 0
Outcome S A = Result A × S

abbrev pub Op : Type 0 → Type 0 → Type 0
Op S A = S → Outcome S A

module _ {S A : Type 0} where
  abbrev pub pure : A → Op S A
  pure a s = (ok a, s)

  abbrev pub fail : Error → Op S A
  fail e s = (err e, s)

  -- A computation that only reads the state.
  abbrev pub reading : (S → Result A) → Op S A
  reading f s = (f s, s)

  -- `if (!result) { return other; }`
  abbrev pub or_error : Error → Outcome S A → Outcome S A
  or_error other (ok a, s) = (ok a, s)
  or_error other (err e, s) = (err other, s)

module _ {S A B : Type 0} where
  abbrev pub and_then : Outcome S A → (A → Op S B) → Outcome S B
  and_then (ok a, s) k = k a s
  and_then (err e, s) k = (err e, s)

  infixl 5 ◌>>=◌ ◌>>◌
  abbrev pub ◌>>=◌ : Op S A → (A → Op S B) → Op S B
  m >>= k = λ s. and_then (m s) k

  abbrev pub ◌>>◌ : Op S A → Op S B → Op S B
  m >> n = m >>= λ _. n

-- `static_cast<bool>(result)`
abbrev pub IsSuccess {ℓ} : {A : Type ℓ} → Result A → Type 0
IsSuccess (ok a) = Unit {0}
IsSuccess (err e) = ⊥

pub Result-cases {ℓ} :
    {A : Type ℓ} (r : Result A) → ((a : A) × (r ≡ ok a)) ⊎ ((e : Error) × (r ≡ err e))
Result-cases (ok a) = inl (a, refl)
Result-cases (err e) = inr (e, refl)
