-- ===== src/Prelude/Walk.antt =====
-- A finite walk through links: from `n` along `next`, over numbers below `bound`, until `stop`.
use Prim.Native.Nat.{ℕ, ◌≤◌, ◌<◌}
use mathlib.Core.Path.{◌≡◌, refl, sym, ap, subst, ◌∙◌}
use mathlib.Core.Logic.{◌≢◌, inl, inr}
use mathlib.Core.List.{List, [], ◌∷◌, ◌++◌}
use native.Mathlib.Decide.{ℕ_discrete}
use native.Mathlib.Omega.{arith}
use slabjson.Prelude.Lists.{length, last_or, ◌∈◌, All, Distinct, length-le_of_Distinct}

pub data Walk (stop : ℕ) (bound : ℕ) (next : ℕ → ℕ) : ℕ → List ℕ → Type 0 where
  end_walk : {n : ℕ} → n ≡ stop → Walk stop bound next n []
  visit :
      {n : ℕ} {xs : List ℕ}
      → n ≢ stop
      → n < bound
      → Walk stop bound next (next n) xs
      → Walk stop bound next n (n ∷ xs)

pub last_or-mem : (d x : ℕ) (xs : List ℕ) → last_or d (x ∷ xs) ∈ (x ∷ xs)
last_or-mem d x [] = inl refl
last_or-mem d x (y ∷ xs) = inr (last_or-mem x y xs)

module _ {stop : ℕ} {bound : ℕ} {next : ℕ → ℕ} where
  pub Walk-unique :
      {n m : ℕ} {xs ys : List ℕ}
      → Walk stop bound next n xs
      → Walk stop bound next m ys
      → n ≡ m
      → xs ≡ ys
  Walk-unique (end_walk e) (end_walk k) q = refl
  Walk-unique (end_walk e) (visit d b w) q = absurd (d (sym q ∙ e))
  Walk-unique (visit d b w) (end_walk k) q = absurd (d (q ∙ k))
  Walk-unique (visit d b w) (visit c a v) q = cc (Walk-unique w v (ap next q))

  pub Walk-below : {n : ℕ} {xs : List ℕ} → Walk stop bound next n xs → All (λ a. a < bound) xs
  Walk-below (end_walk e) a m = absurd m
  Walk-below (visit d b w) a (inl e) = omega arith
  Walk-below (visit d b w) a (inr m) = Walk-below w a m

  pub Walk-ne_stop : {n : ℕ} {xs : List ℕ} → Walk stop bound next n xs → All (λ a. a ≢ stop) xs
  Walk-ne_stop (end_walk e) a m = absurd m
  Walk-ne_stop (visit d b w) a (inl e) = λ k. d (sym e ∙ k)
  Walk-ne_stop (visit d b w) a (inr m) = Walk-ne_stop w a m

  -- A walk from a number below the bound visits it.
  pub first_mem : {n : ℕ} {xs : List ℕ} → Walk stop bound next n xs → n ≢ stop → n ∈ xs
  first_mem (end_walk e) d = absurd (d e)
  first_mem (visit d b w) k = inl refl

  -- Each number on a walk starts the rest of that walk.
  Walk-suffix :
      {n : ℕ} {xs : List ℕ}
      → Walk stop bound next n xs
      → (a : ℕ) → a ∈ xs
      → (ys : List ℕ) × Walk stop bound next a (a ∷ ys) × (length (a ∷ ys) ≤ length xs)
  Walk-suffix (end_walk e) a m = absurd m
  Walk-suffix (visit {xs} d b w) a (inl e) =
      (xs, subst (λ k. Walk stop bound next k (k ∷ xs)) (sym e) (visit d b w), omega arith)
  Walk-suffix (visit d b w) a (inr m) = let (ys, v, l) = Walk-suffix w a m in (ys, v, omega arith)

  pub Walk-Distinct : {n : ℕ} {xs : List ℕ} → Walk stop bound next n xs → Distinct xs
  Walk-Distinct (end_walk e) = tt
  Walk-Distinct (visit {n} {xs} d b w) = (again, Walk-Distinct w)
    where
      again : ¬ (n ∈ xs)
      again m =
          let (ys, v, l) = Walk-suffix w n m in
          absurd (omega (arith, ap length (Walk-unique (visit d b w) v refl)))

  -- So a walk has at most `bound` steps.
  pub Walk-length : {n : ℕ} {xs : List ℕ} → Walk stop bound next n xs → length xs ≤ bound
  Walk-length w = length-le_of_Distinct _ _ (Walk-Distinct w) (Walk-below w)

-- Only the links of the visited numbers matter, and the bound may grow.
pub Walk-agree :
    {stop bound bound' : ℕ} {next next' : ℕ → ℕ} {n : ℕ} {xs : List ℕ}
    → Walk stop bound next n xs
    → All (λ a. a < bound') xs
    → All (λ a. next' a ≡ next a) xs
    → Walk stop bound' next' n xs
Walk-agree (end_walk e) below same = end_walk e
Walk-agree {stop} {bound'} {next'} (visit {n} {xs} d b w) below same =
    visit d (below n (inl refl)) (
      subst (λ k. Walk stop bound' next' k xs) (sym (same n (inl refl)))
        (Walk-agree w (λ a m. below a (inr m)) (λ a m. same a (inr m))))

-- A walk whose last link is moved from `stop` to `c` goes on with `c`.
pub Walk-append :
    {stop bound : ℕ} {next next' : ℕ → ℕ} {n : ℕ} {xs : List ℕ} (d c : ℕ) (ys : List ℕ)
    → Walk stop bound next n xs
    → xs ≢ []
    → Walk stop bound next' c ys
    → next' (last_or d xs) ≡ c
    → ((a : ℕ) → a ∈ xs → a ≢ last_or d xs → next' a ≡ next a)
    → Walk stop bound next' n (xs ++ ys)
Walk-append d c ys (end_walk e) full v moved same = absurd (full refl)
Walk-append {stop} {bound} {next'} d c ys (visit {n} dn b (end_walk e)) full v moved same =
    visit dn b (subst (λ k. Walk stop bound next' k ys) (sym moved) v)
Walk-append {stop} {bound} {next} {next'} d c ys (visit {n} dn b (visit {xs} dm b' w)) full v moved
      same =
    visit dn b (
      subst (λ k. Walk stop bound next' k (next n ∷ xs ++ ys)) (sym kept)
        (Walk-append n c ys (visit dm b' w) (λ e. cc) v moved (λ a m. same a (inr m))))
  where
    kept : next' n ≡ next n
    kept = same n (inl refl) λ e.
        (Walk-Distinct (visit dn b (visit dm b' w))).0
          (subst (λ k. k ∈ (next n ∷ xs)) (sym e) (last_or-mem n (next n) xs))

-- A walk that skips `x`, behind `p`.
pub Walk-bypass :
    {stop bound : ℕ} {next next' : ℕ → ℕ} (front back : List ℕ) (p x : ℕ) {n : ℕ} {zs : List ℕ}
    → Walk stop bound next n zs
    → zs ≡ front ++ (p ∷ x ∷ back)
    → next' p ≡ next x
    → All (λ a. next' a ≡ next a) front
    → All (λ a. next' a ≡ next a) back
    → Walk stop bound next' n (front ++ (p ∷ back))
Walk-bypass [] back p x (end_walk e) q moved left right = cc
Walk-bypass [] back p x (visit dn b (end_walk e)) q moved left right = cc
Walk-bypass {stop} {bound} {next} {next'} [] back p x (visit {n} dn b (visit {xs} dm b' w)) q moved
      left right =
    subst (λ k. Walk stop bound next' n (k ∷ back)) (cc)
      (visit dn b (
        subst (λ k. Walk stop bound next' k back) (cc)
          (Walk-agree (subst (λ zs. Walk stop bound next (next (next n)) zs) (cc) w)
            (λ a m. Walk-below w a (subst (λ zs. a ∈ zs) (cc) m)) right)))
Walk-bypass (a ∷ front) back p x (end_walk e) q moved left right = cc
Walk-bypass {stop} {bound} {next} {next'} (a ∷ front) back p x (visit {n} dn b w) q moved left
      right =
    subst (λ k. Walk stop bound next' n (k ∷ front ++ (p ∷ back))) (cc)
      (visit dn b (
        subst (λ k. Walk stop bound next' k (front ++ (p ∷ back))) (cc (left n (inl (cc))))
          (Walk-bypass front back p x w (cc) moved (λ k m. left k (inr m)) right)))

-- If only the link of `c` changes and `c` still leads to the end, so does every other number.
pub Walk-reroute :
    {stop bound : ℕ} {next next' : ℕ → ℕ} (c : ℕ) (ys : List ℕ)
    → Walk stop bound next' c ys
    → ((a : ℕ) → a ≢ c → next' a ≡ next a)
    → {n : ℕ} {xs : List ℕ} → Walk stop bound next n xs
    → (zs : List ℕ) × Walk stop bound next' n zs
Walk-reroute c ys v same (end_walk e) = ([], end_walk e)
Walk-reroute {stop} {bound} {next'} c ys v same (visit {n} d b w) = elim (ℕ_discrete n c) [
  | yes e ↦ (ys, subst (λ k. Walk stop bound next' k ys) (sym e) v)
  | no ne ↦
      let (zs, u) = Walk-reroute c ys v same w in
      (n ∷ zs, visit d b (subst (λ k. Walk stop bound next' k zs) (sym (same n ne)) u))
]
