-- ===== src/Forest/Links.antt =====
-- The links that `append_child_unchecked` of src/slab.cpp writes, and the walks along them.
use slabjson.Prelude.{
  ℕ, ◌<◌, ◌≡◌, ◌≢◌, refl, sym, ap, subst, ◌∙◌, ◌⊎◌, inl, inr, List, [], ◌∷◌, ◌++◌, last_or, ◌==◌,
  if◌then◌else◌, ◌∈◌, arith,
}
use slabjson.Prelude.Walk.{
  Walk, Walk-agree, Walk-append, Walk-below, Walk-ne_stop, Walk-reroute, last_or-mem, end_walk,
  visit,
}
use slabjson.Slab.{Slab, invalid_node_id, modify, append_child_unchecked}
use slabjson.Space.{Fits}
use slabjson.Forest.{next_of, parent_of, Chain, Ancestry, Kids, IsForest}
use slabjson.Forest.Basic.{kid-lt, id_ne_invalid}

-- What does not concern the links stays, in every node.
module _ (s : Slab) (p c : ℕ) where
  pub append_type : (i : ℕ) → ((append_child_unchecked p c s).nodes i).type ≡ (s.nodes i).type
  unfolding append_child_unchecked modify
  append_type i = ground arith

  pub append_key : (i : ℕ) → ((append_child_unchecked p c s).nodes i).key ≡ (s.nodes i).key
  unfolding append_child_unchecked modify
  append_key i = ground arith

  pub append_payload :
      (i : ℕ) → ((append_child_unchecked p c s).nodes i).payload ≡ (s.nodes i).payload
  unfolding append_child_unchecked modify
  append_payload i = ground arith

  pub append_aux : (i : ℕ) → ((append_child_unchecked p c s).nodes i).aux ≡ (s.nodes i).aux
  unfolding append_child_unchecked modify
  append_aux i = ground arith

  pub append_value_flags :
      (i : ℕ) → ((append_child_unchecked p c s).nodes i).value_flags ≡ (s.nodes i).value_flags
  unfolding append_child_unchecked modify
  append_value_flags i = ground arith

  pub append_key_flags :
      (i : ℕ) → ((append_child_unchecked p c s).nodes i).key_flags ≡ (s.nodes i).key_flags
  unfolding append_child_unchecked modify
  append_key_flags i = ground arith

  pub append_count : (append_child_unchecked p c s).node_count ≡ s.node_count
  unfolding append_child_unchecked modify
  append_count = ground arith

-- A root `c` that is to become a child of another node `p`.
pub record Linking (s : Slab) (kids : Kids) (p c : ℕ) : Type 0 where
  pub fits : Fits s
  pub forest : IsForest s kids
  pub parent_lt : p < s.node_count
  pub child_lt : c < s.node_count
  pub distinct : c ≢ p
  pub child_root : parent_of s c ≡ invalid_node_id

module _ {s : Slab} {kids : Kids} {p c : ℕ} (link : Linking s kids p c) where
  open link use {
    fits as f, forest as g, parent_lt as hp, child_lt as hc, distinct as ne, child_root as root,
  }

  abbrev pub linked : Slab
  linked = append_child_unchecked p c s

  abbrev pub last : ℕ
  last = (s.nodes p).last_child

  pub parent_linked : (i : ℕ) → parent_of linked i ≡ (if i == c then p else parent_of s i)
  unfolding append_child_unchecked modify
  parent_linked i = ground arith

  pub last_linked :
      (i : ℕ) → (linked.nodes i).last_child ≡ (if i == p then c else (s.nodes i).last_child)
  unfolding append_child_unchecked modify
  last_linked i = ground arith

  pub first_linked :
      (i : ℕ)
      → (linked.nodes i).first_child ≡ (
          if i == p
          then (if last == invalid_node_id then c else (s.nodes p).first_child)
          else (s.nodes i).first_child)
  unfolding append_child_unchecked modify
  first_linked i = ground arith

  pub next_linked :
      (i : ℕ)
      → last ≢ c
      → last ≢ invalid_node_id
      → next_of linked i
        ≡ (if i == c then invalid_node_id else if i == last then c else next_of s i)
  unfolding append_child_unchecked modify
  next_linked i d e = ground arith

  pub next_linked_first :
      (i : ℕ)
      → last ≡ invalid_node_id
      → next_of linked i ≡ (if i == c then invalid_node_id else next_of s i)
  unfolding append_child_unchecked modify
  next_linked_first i e = ground arith

  -- A root is in no list of children.
  pub root_out : (q : ℕ) → q < s.node_count → ¬ (c ∈ kids q)
  root_out q hq m = absurd (id_ne_invalid q f hq (sym (g.owned q c hq m) ∙ root))

  -- The last child, if there is one.
  pub last_cases :
      ((kids p ≡ []) × (last ≡ invalid_node_id))
      ⊎ ((kids p ≢ []) × (last ∈ kids p) × (last ≡ last_or invalid_node_id (kids p)))
  last_cases = go (kids p) refl
    where
      go :
          (xs : List ℕ)
          → kids p ≡ xs
          → ((kids p ≡ []) × (last ≡ invalid_node_id))
            ⊎ ((kids p ≢ []) × (last ∈ kids p) × (last ≡ last_or invalid_node_id (kids p)))
      go [] e = inl (e, g.ended p hp ∙ ap (last_or invalid_node_id) e)
      go (x ∷ xs) e = inr (
        λ k. cc,
        subst (λ l. l ∈ kids p) (sym (g.ended p hp))
            (subst (λ ys. last_or invalid_node_id ys ∈ ys) (sym e)
              (last_or-mem invalid_node_id x xs)),
        g.ended p hp,
      )

  pub last_ne : last ∈ kids p → (last ≢ c) × (last ≢ invalid_node_id)
  last_ne m =
      (λ e. root_out p hp (subst (λ k. k ∈ kids p) e m), Walk-ne_stop (g.chained p hp) last m)

  pub Chain-new : next_of linked c ≡ invalid_node_id → Chain linked c (c ∷ [])
  Chain-new e =
      visit (id_ne_invalid c f hc) (subst (λ k. c < k) (sym (append_count s p c)) hc) (end_walk e)

  -- The bound of a walk is the number of nodes, which stays.
  pub at_linked :
      {next : ℕ → ℕ} {n : ℕ} {xs : List ℕ}
      → Walk invalid_node_id s.node_count next n xs
      → Walk invalid_node_id linked.node_count next n xs
  at_linked {next} {n} {xs} w =
      subst (λ k. Walk invalid_node_id k next n xs) (sym (append_count s p c)) w

  pub in_bound : (a : ℕ) → a < s.node_count → a < linked.node_count
  in_bound a h = omega (arith, append_count s p c)

  pub chained_parent : Chain linked (linked.nodes p).first_child (kids p ++ (c ∷ []))
  chained_parent = elim last_cases [
    | inl (empty, e) ↦
        let first : (linked.nodes p).first_child ≡ c = ground (arith, first_linked p) in
        subst (λ k. Chain linked k (kids p ++ (c ∷ []))) (sym first)
          (subst (λ xs. Chain linked c (xs ++ (c ∷ []))) (sym empty)
            (Chain-new (ground (arith, next_linked_first c e))))
    | inr (full, m, e) ↦
        let (d, i) = last_ne m in
        let first : (linked.nodes p).first_child ≡ (s.nodes p).first_child =
          ground (arith, first_linked p) in
        subst (λ k. Chain linked k (kids p ++ (c ∷ []))) (sym first)
          (Walk-append invalid_node_id c (c ∷ []) (at_linked (g.chained p hp)) full
            (Chain-new (ground (arith, next_linked c d i)))
            (subst (λ k. next_of linked k ≡ c) e (ground (arith, next_linked last d i)))
            (λ a k ne'. ground (
              arith,
              next_linked a d i,
              λ (q : a ≡ c). root_out p hp (subst (λ b. b ∈ kids p) q k),
            )))
  ]

  -- The other lists of children keep their links.
  pub next_kept : (q a : ℕ) → q < s.node_count → q ≢ p → a ∈ kids q → next_of linked a ≡ next_of s a
  next_kept q a hq d m = elim last_cases [
    | inl (empty, e) ↦ ground (arith, next_linked_first a e, not_child)
    | inr (full, l, e) ↦
        let (d', i) = last_ne l in ground (arith, next_linked a d' i, not_child, not_last l)
  ]
    where
      not_child : a ≢ c
      not_child e = root_out q hq (subst (λ b. b ∈ kids q) e m)

      not_last : last ∈ kids p → a ≢ last
      not_last l e = d (sym (g.owned q a hq m) ∙ ap (parent_of s) e ∙ g.owned p last hp l)

  pub chained_other :
      (q : ℕ) → q < s.node_count → q ≢ p → Chain linked (linked.nodes q).first_child (kids q)
  chained_other q hq d =
      let first : (linked.nodes q).first_child ≡ (s.nodes q).first_child =
        ground (arith, first_linked q) in
      subst (λ k. Chain linked k (kids q)) (sym first)
        (Walk-agree (g.chained q hq) (λ a m. in_bound a (kid-lt g q a hq m))
          (λ a m. next_kept q a hq d m))

  -- Every node still leads up to a root, unless the child was above its new parent.
  pub rooted_linked :
      (xs : List ℕ)
      → Ancestry s p xs
      → ¬ (c ∈ xs)
      → (n : ℕ) → n < s.node_count
      → (ys : List ℕ) × Ancestry linked n ys
  rooted_linked xs w out n h =
      Walk-reroute c (c ∷ xs)
        (visit (id_ne_invalid c f hc) (in_bound c hc) (
          subst (λ k. Ancestry linked k xs) (ground (arith, parent_linked c))
            (Walk-agree w (λ a m. in_bound a (Walk-below w a m))
              (λ a m. ground (arith, parent_linked a, not_child a m)))))
        (λ a d. ground (arith, parent_linked a)) (at_linked (g.rooted n h).1)
    where
      not_child : (a : ℕ) → a ∈ xs → a ≢ c
      not_child a m e = out (subst (λ b. b ∈ xs) e m)
