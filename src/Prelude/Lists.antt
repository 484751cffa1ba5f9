-- ===== src/Prelude/Lists.antt =====
-- Lists measured and indexed by native numbers, under the library's names, and lists of numbers as
-- sets.
use Prim.Native.Nat.{ℕ, zero, suc, ◌+◌, ◌-◌, ◌≤◌, ◌<◌}
use mathlib.Core.Path.{◌≡◌, refl, ap, subst}
use mathlib.Core.Logic.{◌≢◌, ◌⊎◌, inl, inr}
use mathlib.Core.List.{List, [], ◌∷◌, ◌++◌}
use mathlib.Core.Option.{Option, none, some}
use native.Mathlib.Omega.{arith}
use native.Mathlib.Decide.{ℕ_discrete}

module _ {ℓ} {A : Type ℓ} where
  abbrev pub length : List A → ℕ
  length [] = 0
  length (x ∷ xs) = suc (length xs)

  abbrev pub get_elem? : List A → ℕ → Option A
  get_elem? [] i = none
  get_elem? (x ∷ xs) zero = some x
  get_elem? (x ∷ xs) (suc i) = get_elem? xs i

  abbrev pub drop : ℕ → List A → List A
  drop zero xs = xs
  drop (suc n) [] = []
  drop (suc n) (x ∷ xs) = drop n xs

  pub length-append : (xs ys : List A) → length (xs ++ ys) ≡ length xs + length ys
  length-append [] ys = omega arith
  length-append (x ∷ xs) ys = omega (arith, length-append xs ys)

  pub length-drop : (n : ℕ) (xs : List A) → length (drop n xs) ≡ length xs - n
  length-drop zero xs = omega arith
  length-drop (suc n) [] = omega arith
  length-drop (suc n) (x ∷ xs) = omega (arith, length-drop n xs)

-- The last item, or a default.
abbrev pub last_or {ℓ} : {A : Type ℓ} → A → List A → A
last_or d [] = d
last_or d (x ∷ xs) = last_or x xs

pub last_or-append {ℓ} : {A : Type ℓ} (d : A) (xs : List A) (x : A) → last_or d (xs ++ (x ∷ [])) ≡ x
last_or-append d [] x = refl
last_or-append d (y ∷ xs) x = last_or-append y xs x

infix 40 ◌∈◌
abbrev pub ◌∈◌ : ℕ → List ℕ → Type 0
a ∈ [] = ⊥
a ∈ (x ∷ xs) = (a ≡ x) ⊎ (a ∈ xs)

abbrev pub All : (ℕ → Type 0) → List ℕ → Type 0
All P xs = (a : ℕ) → a ∈ xs → P a

-- No number stands twice.
abbrev pub Distinct : List ℕ → Type 0
Distinct [] = Unit {0}
Distinct (x ∷ xs) = ¬ (x ∈ xs) × Distinct xs

pub dec_mem : (a : ℕ) (xs : List ℕ) → (a ∈ xs) ⊎ (¬ (a ∈ xs))
dec_mem a [] = inr λ h. h
dec_mem a (x ∷ xs) = elim (ℕ_discrete a x) [
  | yes e ↦ inl (inl e)
  | no d ↦ elim (dec_mem a xs) [
    | inl m ↦ inl (inr m)
    | inr k ↦ inr (λ m. elim m [ inl e ↦ d e | inr m' ↦ k m' ])
  ]
]

pub mem-append_left : (a : ℕ) (xs ys : List ℕ) → a ∈ xs → a ∈ (xs ++ ys)
mem-append_left a [] ys h = absurd h
mem-append_left a (x ∷ xs) ys (inl e) = inl e
mem-append_left a (x ∷ xs) ys (inr m) = inr (mem-append_left a xs ys m)

pub mem-append_right : (a : ℕ) (xs ys : List ℕ) → a ∈ ys → a ∈ (xs ++ ys)
mem-append_right a [] ys h = h
mem-append_right a (x ∷ xs) ys m = inr (mem-append_right a xs ys m)

pub mem-append : (a : ℕ) (xs ys : List ℕ) → a ∈ (xs ++ ys) → (a ∈ xs) ⊎ (a ∈ ys)
mem-append a [] ys m = inr m
mem-append a (x ∷ xs) ys (inl e) = inl (inl e)
mem-append a (x ∷ xs) ys (inr m) = elim (mem-append a xs ys m) [
  | inl l ↦ inl (inr l)
  | inr r ↦ inr r
]

-- The list less the first `a`.
pub erase : ℕ → List ℕ → List ℕ
erase a [] = []
erase a (x ∷ xs) = elim (ℕ_discrete a x) [ yes _ ↦ xs | no _ ↦ x ∷ erase a xs ]

pub length-erase : (a : ℕ) (xs : List ℕ) → a ∈ xs → suc (length (erase a xs)) ≡ length xs
unfolding erase
length-erase a [] m = absurd m
length-erase a (x ∷ xs) (inl e) = ground arith
length-erase a (x ∷ xs) (inr m) = ground (arith, length-erase a xs m)

pub mem-erase : (a b : ℕ) (xs : List ℕ) → b ∈ erase a xs → b ∈ xs
unfolding erase
mem-erase a b [] m = m
mem-erase a b (x ∷ xs) m = ground (arith, mem-erase a b xs)

pub mem-erase_ne : (a b : ℕ) (xs : List ℕ) → b ∈ xs → b ≢ a → b ∈ erase a xs
unfolding erase
mem-erase_ne a b [] m d = m
mem-erase_ne a b (x ∷ xs) (inl e) d = ground arith
mem-erase_ne a b (x ∷ xs) (inr m) d = ground (arith, mem-erase_ne a b xs m d)

pub erase-Distinct : (a : ℕ) (xs : List ℕ) → Distinct xs → Distinct (erase a xs)
unfolding erase
erase-Distinct a [] d = d
erase-Distinct a (x ∷ xs) (out, d) = ground (arith, mem-erase a x xs, erase-Distinct a xs d)

pub not-mem-erase : (a : ℕ) (xs : List ℕ) → Distinct xs → ¬ (a ∈ erase a xs)
unfolding erase
not-mem-erase a [] d = λ m. m
not-mem-erase a (x ∷ xs) (out, d) = ground (arith, not-mem-erase a xs d)

-- A list of distinct numbers below `n` has at most `n` items.
pub length-le_of_Distinct :
    (n : ℕ) (xs : List ℕ) → Distinct xs → All (λ a. a < n) xs → length xs ≤ n
length-le_of_Distinct zero [] d h = omega arith
length-le_of_Distinct zero (x ∷ xs) d h = absurd (omega (arith, h x (inl refl)))
length-le_of_Distinct (suc n) xs d h = elim (dec_mem n xs) [
  | inl m ↦ omega (
    arith,
    length-erase n xs m,
    length-le_of_Distinct n (erase n xs) (erase-Distinct n xs d) (λ a k.
        below a (mem-erase n a xs k) (λ e. not-mem-erase n xs d (subst (λ b. b ∈ erase n xs) e k))),
  )
  | inr out ↦
      omega (
        arith,
        length-le_of_Distinct n xs d (λ a k. below a k (λ e. out (subst (λ b. b ∈ xs) e k))),
      )
]
  where
    below : (a : ℕ) → a ∈ xs → a ≢ n → a < n
    below a m ne = omega (arith, h a m)

-- A list of distinct numbers around a cut.
module _ (a : ℕ) where
  pub Distinct-apart : (xs ys : List ℕ) → Distinct (xs ++ ys) → a ∈ xs → ¬ (a ∈ ys)
  Distinct-apart [] ys d m = absurd m
  Distinct-apart (x ∷ xs) ys (out, d) (inl e) =
      λ k. out (mem-append_right x xs ys (subst (λ b. b ∈ ys) e k))
  Distinct-apart (x ∷ xs) ys (out, d) (inr m) = Distinct-apart xs ys d m

  pub Distinct-right : (xs ys : List ℕ) → Distinct (xs ++ ys) → Distinct ys
  Distinct-right [] ys d = d
  Distinct-right (x ∷ xs) ys (out, d) = Distinct-right xs ys d

  pub erase-append : (xs ys : List ℕ) → ¬ (a ∈ xs) → erase a (xs ++ (a ∷ ys)) ≡ xs ++ ys
  unfolding erase
  erase-append [] ys out = ground arith
  erase-append (x ∷ xs) ys out = ground (arith, erase-append xs ys (λ m. out (inr m)))

-- A list is empty or ends with its last item.
pub last_or_cases :
    (d : ℕ) (xs : List ℕ) → (xs ≡ []) ⊎ ((front : List ℕ) × (xs ≡ front ++ (last_or d xs ∷ [])))
last_or_cases d [] = inl refl
last_or_cases d (x ∷ []) = inr ([], refl)
last_or_cases d (x ∷ y ∷ xs) = elim (last_or_cases x (y ∷ xs)) [
  | inl e ↦ absurd (cc)
  | inr (front, e) ↦ inr (x ∷ front, ap (λ zs. x ∷ zs) e)
]

-- The last item of a list stands in its second part, if that is not empty.
pub last_or-skip : (d b : ℕ) (xs ys : List ℕ) → last_or d (xs ++ (b ∷ ys)) ≡ last_or b ys
last_or-skip d b [] ys = refl
last_or-skip d b (x ∷ xs) ys = last_or-skip x b xs ys
