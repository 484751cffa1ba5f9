-- ===== src/Forest/Unlink.antt =====
-- The writes of `Object::remove` (src/object.cpp) that take a child out of its parent's list.
pub mod Fields
pub use Fields.*
use slabjson.Prelude.{
  ℕ, ◌<◌, ◌≡◌, ◌≢◌, refl, sym, ap, subst, ◌∙◌, ◌⊎◌, inl, inr, List, [], ◌∷◌, ◌++◌, last_or,
  last_or-append, ◌∈◌, Distinct, Distinct-apart, Distinct-right, erase, erase-append, last_or_cases,
  last_or-skip, append_assoc, append-nil, mem-append_left, mem-append_right, arith, ◌==◌,
  if◌then◌else◌,
}
use slabjson.Prelude.Walk.{
  Walk, Walk-agree, Walk-below, Walk-bypass, Walk-Distinct, Walk-ne_stop, end_walk, visit,
  last_or-mem,
}
use slabjson.Slab.{Slab, invalid_node_id, modify, no_string}
use slabjson.Space.{Fits}
use slabjson.Object.{unlink}
use slabjson.Forest.{next_of, parent_of, Chain, Kids, IsForest}
use slabjson.Forest.Basic.{kid-lt}

-- The children lists without `c` among those of `p`.
abbrev pub without_child : Kids → ℕ → ℕ → Kids
without_child kids p c i = if i == p then erase c (kids p) else kids i

-- The child `c` of `p` stands between `front` and `back`.
pub record Unlinking (s : Slab) (kids : Kids) (p c : ℕ) (front back : List ℕ) : Type 0 where
  pub fits : Fits s
  pub forest : IsForest s kids
  pub parent_lt : p < s.node_count
  pub split : kids p ≡ front ++ (c ∷ back)

module _ {s : Slab} {kids : Kids} {p c : ℕ} {front back : List ℕ}
    (u : Unlinking s kids p c front back) where
  open u use {fits as f, forest as g, parent_lt as hp, split as split}

  abbrev previous : ℕ
  previous = last_or invalid_node_id front

  abbrev unlinked : Slab
  unlinked = unlink p previous c s

  pub mine : (a : ℕ) → a ∈ (front ++ (c ∷ back)) → a ∈ kids p
  mine a m = subst (λ xs. a ∈ xs) (sym split) m

  pub child_mem : c ∈ kids p
  child_mem = mine c (mem-append_right c front (c ∷ back) (inl refl))

  pub child_lt : c < s.node_count
  child_lt = kid-lt g p c hp child_mem

  cut : Distinct (front ++ (c ∷ back))
  cut = subst Distinct split (Walk-Distinct (g.chained p hp))

  pub not_front : ¬ (c ∈ front)
  not_front m = Distinct-apart c front (c ∷ back) cut m (inl refl)

  pub not_back : ¬ (c ∈ back)
  not_back m = (Distinct-right c front (c ∷ back) cut).0 m

  pub erased : erase c (kids p) ≡ front ++ back
  erased = ap (erase c) split ∙ erase-append c front back not_front

  -- A child of another node is neither `c` nor the one before it.
  pub apart : (q a : ℕ) → q < s.node_count → q ≢ p → a ∈ kids q → ¬ (a ∈ kids p)
  apart q a hq d m k = d (sym (g.owned q a hq m) ∙ g.owned p a hp k)

  pub at_bound :
      {next : ℕ → ℕ} {n : ℕ} {xs : List ℕ}
      → Walk invalid_node_id s.node_count next n xs
      → Walk invalid_node_id unlinked.node_count next n xs
  at_bound {next} {n} {xs} w =
      subst (λ k. Walk invalid_node_id k next n xs) (sym (unlink_count s p previous c)) w

  back_kept :
      previous ≡ invalid_node_id ⊎ (previous ∈ front)
      → (a : ℕ) → a ∈ back
      → next_of unlinked a ≡ next_of s a
  back_kept where_is a m =
      unlink_next s p previous c a
      ∙ (elim where_is [ inl e ↦ ground (arith, ne) | inr l ↦ ground (arith, ne, behind l) ])
    where
      ne : a ≢ c
      ne e = not_back (subst (λ b. b ∈ back) e m)

      behind : previous ∈ front → a ≢ previous
      behind l e = Distinct-apart previous front (c ∷ back) cut l (inr (subst (λ b. b ∈ back) e m))

  previous_cases :
      ((front ≡ []) × (previous ≡ invalid_node_id))
      ⊎ ((rest : List ℕ) × (front ≡ rest ++ (previous ∷ []))
          × (previous ∈ front)
          × (previous ≢ invalid_node_id))
  previous_cases = elim (last_or_cases invalid_node_id front) [
    | inl e ↦ inl (e, ap (last_or invalid_node_id) e)
    | inr (rest, e) ↦
        let m : previous ∈ front =
          subst (λ xs. previous ∈ xs) (sym e)
            (mem-append_right previous rest (previous ∷ []) (inl refl)) in
        inr (
          rest,
          e,
          m,
          Walk-ne_stop (g.chained p hp) previous
              (mine previous (mem-append_left previous front (c ∷ back) m)),
        )
  ]

  rest-Walk :
      {next : ℕ → ℕ} {n : ℕ} {xs : List ℕ} (x : ℕ) (ys : List ℕ)
      → Walk invalid_node_id s.node_count next n xs
      → xs ≡ x ∷ ys
      → Walk invalid_node_id s.node_count next (next x) ys
  rest-Walk x ys (end_walk e) q = absurd (cc)
  rest-Walk {next} x ys (visit {n} {xs} d b w) q =
      subst (λ k. Walk invalid_node_id s.node_count next (next k) ys) (cc)
        (subst (Walk invalid_node_id s.node_count next (next n)) (cc) w)

  moved : previous ∈ front → previous ≢ invalid_node_id → next_of unlinked previous ≡ next_of s c
  moved l ne = unlink_next s p previous c previous ∙ ground (arith, ne, other)
    where
      other : previous ≢ c
      other e = not_front (subst (λ b. b ∈ front) e l)

  left_kept :
      (rest : List ℕ)
      → front ≡ rest ++ (previous ∷ [])
      → previous ≢ invalid_node_id
      → (a : ℕ) → a ∈ rest
      → next_of unlinked a ≡ next_of s a
  left_kept rest e ne a m = unlink_next s p previous c a ∙ ground (arith, ne, not_child, before)
    where
      in_front : a ∈ front
      in_front = subst (λ xs. a ∈ xs) (sym e) (mem-append_left a rest (previous ∷ []) m)

      not_child : a ≢ c
      not_child k = not_front (subst (λ b. b ∈ front) k in_front)

      before : a ≢ previous
      before k =
          Distinct-apart a rest (previous ∷ c ∷ back)
            (subst Distinct
              (ap (λ xs. xs ++ (c ∷ back)) e ∙ append_assoc rest (previous ∷ []) (c ∷ back)) cut)
            m (inl k)

  pub chained_parent : Chain unlinked (unlinked.nodes p).first_child (front ++ back)
  chained_parent = elim previous_cases [
    | inl (empty, e) ↦
        let first : (unlinked.nodes p).first_child ≡ next_of s c =
          unlink_first s p previous c p ∙ ground arith in
        let w = rest-Walk c back (g.chained p hp) (split ∙ ap (λ xs. xs ++ (c ∷ back)) empty) in
        subst (λ xs. Chain unlinked (unlinked.nodes p).first_child (xs ++ back)) (sym empty)
          (subst (λ k. Chain unlinked k back) (sym first)
            (Walk-agree (at_bound w) (Walk-below (at_bound w)) (back_kept (inl e))))
    | inr (rest, e, l, ne) ↦
        let first : (unlinked.nodes p).first_child ≡ (s.nodes p).first_child =
          unlink_first s p previous c p ∙ ground arith in
        let order : kids p ≡ rest ++ (previous ∷ c ∷ back) =
          split ∙ ap (λ xs. xs ++ (c ∷ back)) e ∙ append_assoc rest (previous ∷ []) (c ∷ back) in
        let joined : front ++ back ≡ rest ++ (previous ∷ back) =
          ap (λ xs. xs ++ back) e ∙ append_assoc rest (previous ∷ []) back in
        subst (Chain unlinked (unlinked.nodes p).first_child) (sym joined) (
          subst (λ k. Chain unlinked k (rest ++ (previous ∷ back))) (sym first)
            (Walk-bypass rest back previous c (at_bound (g.chained p hp)) order (moved l ne)
              (left_kept rest e ne) (back_kept (inr l))))
  ]

  pub chained_other :
      (q : ℕ) → q < s.node_count → q ≢ p → Chain unlinked (unlinked.nodes q).first_child (kids q)
  chained_other q hq d =
      subst (λ k. Chain unlinked k (kids q)) (sym first)
        (Walk-agree (at_bound (g.chained q hq)) (Walk-below (at_bound (g.chained q hq))) kept)
    where
      first : (unlinked.nodes q).first_child ≡ (s.nodes q).first_child
      first = unlink_first s p previous c q ∙ ground arith

      kept : (a : ℕ) → a ∈ kids q → next_of unlinked a ≡ next_of s a
      kept a m = unlink_next s p previous c a ∙ (elim previous_cases [
        | inl (_, e) ↦ ground (arith, not_child)
        | inr (_, _, l, _) ↦ ground (arith, not_child, not_previous l)
      ])
        where
          not_child : a ≢ c
          not_child e = apart q a hq d m (subst (λ b. b ∈ kids p) (sym e) child_mem)

          not_previous : previous ∈ front → a ≢ previous
          not_previous l e = apart q a hq d m (
              subst (λ b. b ∈ kids p) (sym e)
                (mine previous (mem-append_left previous front (c ∷ back) l)))

  pub last_unlinked : (unlinked.nodes p).last_child ≡ last_or invalid_node_id (front ++ back)
  last_unlinked = go back refl
    where
      go :
          (ys : List ℕ)
          → back ≡ ys
          → (unlinked.nodes p).last_child ≡ last_or invalid_node_id (front ++ back)
      go [] e =
          unlink_last s p previous c p
          ∙ ground (arith, ended_here)
          ∙ ap (last_or invalid_node_id) (sym (append-nil front) ∙ ap (λ ys. front ++ ys) (sym e))
        where
          ended_here : (s.nodes p).last_child ≡ c
          ended_here =
              g.ended p hp
              ∙ ap (last_or invalid_node_id) (split ∙ ap (λ ys. front ++ (c ∷ ys)) e)
              ∙ last_or-append invalid_node_id front c
      go (y ∷ ys) e =
          unlink_last s p previous c p
          ∙ ground (arith, not_last)
          ∙ ended_here
          ∙ sym (
              ap (λ zs. last_or invalid_node_id (front ++ zs)) e
              ∙ last_or-skip invalid_node_id y front ys)
        where
          ended_here : (s.nodes p).last_child ≡ last_or y ys
          ended_here =
              g.ended p hp
              ∙ ap (last_or invalid_node_id) (split ∙ ap (λ zs. front ++ (c ∷ zs)) e)
              ∙ last_or-skip invalid_node_id c front (y ∷ ys)

          not_last : (s.nodes p).last_child ≢ c
          not_last k = not_back (
              subst (λ zs. c ∈ zs) (sym e)
                (subst (λ b. b ∈ (y ∷ ys)) (sym ended_here ∙ k) (last_or-mem c y ys)))
