-- ===== src/Object/Find.antt =====
-- `Object::find` of src/object.cpp, against the list of the object's members.
use slabjson.Prelude.{
  ℕ, zero, suc, ◌+◌, ◌<◌, ◌≡◌, ◌≢◌, ◌↔◌, refl, ◌++◌, sym, ap, ◌∙◌, ◌⊎◌, inl, inr, true, false,
  Option, some, none, List, [], ◌∷◌, length, ◌∈◌, arith, Bool-cases,
}
use slabjson.Prelude.Walk.{Walk-length, end_walk, visit}
use slabjson.Utf8.{Bytes}
use slabjson.Slab.{Slab, ValueType, Handle, Value, make_value, view_string}
use slabjson.Container.Status.{IsLive}
use slabjson.Container.Read.{typed_node_live}
use slabjson.Forest.{Chain, Kids, next_of}
use slabjson.Forest.Basic.{node_for_live}
use slabjson.Document.{IsDocument}
use slabjson.Object.{bytes_eq, find_loop, find}

pub bytes_eq_iff : (xs ys : Bytes) → (bytes_eq xs ys ≡ true) ↔ (xs ≡ ys)
unfolding bytes_eq
bytes_eq_iff [] [] = ground arith
bytes_eq_iff [] (y ∷ ys) = ground arith
bytes_eq_iff (x ∷ xs) [] = ground arith
bytes_eq_iff (x ∷ xs) (y ∷ ys) = ground (arith, bytes_eq_iff xs ys)

abbrev pub key_of : Slab → ℕ → Bytes
key_of s i = view_string s (s.nodes i).key

-- The first of the members that has the key, with those before it that have not.
pub data FirstWith (s : Slab) (key : Bytes) : List ℕ → ℕ → Type 0 where
  here : {x : ℕ} {xs : List ℕ} → key_of s x ≡ key → FirstWith s key (x ∷ xs) x
  there :
      {x y : ℕ} {xs : List ℕ} → key_of s x ≢ key → FirstWith s key xs y → FirstWith s key (x ∷ xs) y

abbrev pub NoneWith : Slab → Bytes → List ℕ → Type 0
NoneWith s key xs = (c : ℕ) → c ∈ xs → key_of s c ≢ key

abbrev pub Finds : Slab → Bytes → List ℕ → Option Value → Type 0
Finds s key xs r =
    ((c : ℕ) × FirstWith s key xs c × (r ≡ some (make_value s c)))
    ⊎ (NoneWith s key xs × (r ≡ none))

pub bytes_eq_cases :
    (xs ys : Bytes) → ((xs ≡ ys) × (bytes_eq xs ys ≡ true)) ⊎ ((xs ≢ ys) × (bytes_eq xs ys ≡ false))
bytes_eq_cases xs ys = elim (Bool-cases (bytes_eq xs ys)) [
  | inl t ↦ inl ((bytes_eq_iff xs ys).0 t, t)
  | inr f ↦ inr (λ e. ground (arith, (bytes_eq_iff xs ys).1 e), f)
]

find_loop-Finds :
    (s : Slab) (generation : ℕ) (key : Bytes) (fuel child : ℕ) (xs : List ℕ)
    → s.valid ≡ true
    → generation ≡ s.generation
    → Chain s child xs
    → length xs < fuel
    → Finds s key xs (find_loop s generation key fuel child)
unfolding find_loop
find_loop-Finds s generation key zero child xs v e w l = absurd (omega arith)
find_loop-Finds s generation key (suc fuel) child xs v e (end_walk d) l =
    inr (λ c m. absurd m, ground arith)
find_loop-Finds s generation key (suc fuel) child xs v e (visit {xs = ys} d b w) l =
    elim (bytes_eq_cases (key_of s child) key) [
      | inl (q, t) ↦ inl (child, here q, ground (arith, node_for_live s child generation v e b))
      | inr (ne, f) ↦
          let step : find_loop s generation key (suc fuel) child
              ≡ find_loop s generation key fuel (next_of s child) =
            ground (arith, node_for_live s child generation v e b) in
          elim (find_loop-Finds s generation key fuel (next_of s child) ys v e w (omega arith)) [
            | inl (c, first, r) ↦ inl (c, there ne first, step ∙ r)
            | inr (out, r) ↦ inr (
              λ c m. elim m [ inl q ↦ λ k. ne (ap (key_of s) (sym q) ∙ k) | inr m' ↦ out c m' ],
              step ∙ r,
            )
          ]
    ]

-- In a document, `find` in a live object returns a handle to the first of its members that has the
-- key, and nothing if none has.
pub find-Finds :
    {s : Slab} {kids : Kids}
    → IsDocument s kids
    → (o : Handle) → IsLive s o ValueType.object
    → (key : Bytes) → Finds s key (kids o.id) (find s o key)
unfolding find
find-Finds {s} {kids} d o live key =
    let w : Chain s (s.nodes o.id).first_child (kids o.id) = d.forest.chained o.id live.1.2 in
    rw (typed_node_live s o ValueType.object live, find)
      (find_loop-Finds s o.generation key (s.node_count + 1) (s.nodes o.id).first_child (kids o.id)
        live.1.0 live.1.1 w (omega (arith, Walk-length w)))

module _ (s s' : Slab) (key : Bytes) where
  -- Only the keys of the members matter, and a first member stays first when more follow.
  pub FirstWith-append :
      {xs : List ℕ} {c : ℕ} (ys : List ℕ)
      → ((i : ℕ) → i ∈ xs → key_of s' i ≡ key_of s i)
      → FirstWith s key xs c
      → FirstWith s' key (xs ++ ys) c
  FirstWith-append ys same (here {x} e) = here (same x (inl refl) ∙ e)
  FirstWith-append ys same (there {x} ne f) =
      there (λ e. ne (sym (same x (inl refl)) ∙ e)) (FirstWith-append ys (λ i m. same i (inr m)) f)

  pub FirstWith-new :
      (xs : List ℕ) (c : ℕ)
      → ((i : ℕ) → i ∈ xs → key_of s' i ≡ key_of s i)
      → NoneWith s key xs
      → key_of s' c ≡ key
      → FirstWith s' key (xs ++ (c ∷ [])) c
  FirstWith-new [] c same out e = here e
  FirstWith-new (x ∷ xs) c same out e =
      there (λ k. out x (inl refl) (sym (same x (inl refl)) ∙ k))
        (FirstWith-new xs c (λ i m. same i (inr m)) (λ i m. out i (inr m)) e)

pub FirstWith-unique :
    {s : Slab} {key : Bytes} {xs : List ℕ} {a b : ℕ}
    → FirstWith s key xs a
    → FirstWith s key xs b
    → a ≡ b
FirstWith-unique (here e) (here k) = refl
FirstWith-unique (here e) (there ne f) = absurd (ne e)
FirstWith-unique (there ne f) (here e) = absurd (ne e)
FirstWith-unique (there ne f) (there d g) = FirstWith-unique f g

pub FirstWith-mem :
    {s : Slab} {key : Bytes} {xs : List ℕ} {a : ℕ}
    → FirstWith s key xs a
    → (a ∈ xs) × (key_of s a ≡ key)
FirstWith-mem (here e) = (inl refl, e)
FirstWith-mem (there ne f) = let (m, e) = FirstWith-mem f in (inr m, e)

pub Finds-first :
    {s : Slab} {key : Bytes} {xs : List ℕ} {r : Option Value} {c : ℕ}
    → Finds s key xs r
    → FirstWith s key xs c
    → r ≡ some (make_value s c)
Finds-first {s} (inl (b, f, e)) g = e ∙ ap (λ k. some (make_value s k)) (FirstWith-unique f g)
Finds-first (inr (out, e)) g = let (m, k) = FirstWith-mem g in absurd (out _ m k)

pub Finds-none :
    {s : Slab} {key : Bytes} {xs : List ℕ} {r : Option Value}
    → Finds s key xs r
    → NoneWith s key xs
    → r ≡ none
Finds-none (inl (b, f, e)) out = let (m, k) = FirstWith-mem f in absurd (out _ m k)
Finds-none (inr (out, e)) _ = e
