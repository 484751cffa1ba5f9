-- ===== src/Forest/Attach.antt =====
-- `append_child_unchecked` of src/slab.cpp puts the child at the end of the parent's children.
use slabjson.Prelude.{
  ℕ, ◌<◌, ◌≡◌, ◌≢◌, sym, subst, ◌∙◌, inl, inr, List, [], ◌∷◌, ◌++◌, last_or, last_or-append, ◌∈◌,
  mem-append, mem-append_left, mem-append_right, ℕ_discrete, arith,
}
use slabjson.Slab.{Slab, invalid_node_id, append_child_unchecked}
use slabjson.Forest.{parent_of, Chain, Ancestry, Kids, IsContainer, IsForest, with_child}
use slabjson.Forest.Links.{
  Linking, parent_linked, last_linked, root_out, in_bound, chained_parent, chained_other,
  rooted_linked, append_count, append_type,
}

module _ {s : Slab} {kids : Kids} {p c : ℕ} (link : Linking s kids p c) where
  open link use {
    fits as f, forest as g, parent_lt as hp, child_lt as hc, distinct as ne, child_root as root,
  }

  abbrev linked : Slab
  linked = append_child_unchecked p c s

  with_child_self : with_child kids p c p ≡ kids p ++ (c ∷ [])
  with_child_self = ground arith

  with_child_ne : (q : ℕ) → q ≢ p → with_child kids p c q ≡ kids q
  with_child_ne q d = ground arith

  -- A statement about the new lists, for the parent and for every other node.
  by_parent :
      (T : List ℕ → Type 0) (q : ℕ)
      → (q ≡ p → T (kids p ++ (c ∷ [])))
      → (q ≢ p → T (kids q))
      → T (with_child kids p c q)
  by_parent T q at other = elim (ℕ_discrete q p) [
    | yes e ↦ subst (λ k. T (with_child kids p c k)) (sym e) (subst T (sym with_child_self) (at e))
    | no d ↦ subst T (sym (with_child_ne q d)) (other d)
  ]

  owned_linked : (q b : ℕ) → q < s.node_count → b ∈ with_child kids p c q → parent_of linked b ≡ q
  owned_linked q b hq =
      by_parent (λ xs. b ∈ xs → parent_of linked b ≡ q) q
        (λ e m. elim (mem-append b (kids p) (c ∷ []) m) [
          | inl old ↦ ground (arith, parent_linked link b, g.owned p b hp old)
          | inr new ↦ ground (arith, parent_linked link b)
        ])
        (λ d m. ground (arith, parent_linked link b, g.owned q b hq m, not_child m))
    where
      not_child : b ∈ kids q → b ≢ c
      not_child m e = root_out link q hq (subst (λ k. k ∈ kids q) e m)

  listed_linked :
      (b : ℕ)
      → b < s.node_count
      → parent_of linked b ≢ invalid_node_id
      → (parent_of linked b < s.node_count) × (b ∈ with_child kids p c (parent_of linked b))
  listed_linked b hb d = elim (ℕ_discrete b c) [
    | yes e ↦
        let up : parent_of linked b ≡ p = ground (arith, parent_linked link b) in
        (
          omega arith,
          subst (λ q. b ∈ with_child kids p c q) (sym up)
              (subst (λ xs. b ∈ xs) (sym with_child_self)
                (mem-append_right b (kids p) (c ∷ []) (inl e))),
        )
    | no other ↦
        let up : parent_of linked b ≡ parent_of s b = ground (arith, parent_linked link b) in
        let (under, m) = g.listed b hb (λ k. d (up ∙ k)) in
        (
          omega arith,
          subst (λ q. b ∈ with_child kids p c q) (sym up)
              (by_parent (λ xs. b ∈ xs) (parent_of s b)
                (λ e. mem-append_left b (kids p) (c ∷ []) (subst (λ q. b ∈ kids q) e m)) (λ _. m)),
        )
  ]

  -- The child goes to the end of its parent's children, and the nodes stay a forest.
  pub append_child_unchecked-IsForest :
      IsContainer (s.nodes p).type
      → ((xs : List ℕ) → Ancestry s p xs → ¬ (c ∈ xs))
      → IsForest linked (with_child kids p c)
  append_child_unchecked-IsForest con acyclic = record {
    beyond = λ q h.
        with_child_ne q (omega (arith, append_count s p c))
        ∙ g.beyond q (omega (arith, append_count s p c));
    chained = λ q h.
        by_parent (Chain linked (linked.nodes q).first_child) q
          (λ e.
            subst (λ k. Chain linked (linked.nodes k).first_child (kids p ++ (c ∷ []))) (sym e)
              (chained_parent link))
          (λ d. chained_other link q (out h) d);
    ended = λ q h.
        by_parent (λ xs. (linked.nodes q).last_child ≡ last_or invalid_node_id xs) q
          (λ e. ground (arith, last_linked link q, last_or-append invalid_node_id (kids p) c))
          (λ d. ground (arith, last_linked link q, g.ended q (out h)));
    owned = λ q b h m. owned_linked q b (out h) m;
    listed = λ b h d. let (under, m) = listed_linked b (out h) d in (in_bound link _ under, m);
    rooted = λ b h. let (xs, w) = g.rooted p hp in rooted_linked link xs w (acyclic xs w) b (out h);
    containing = λ q b h.
        by_parent (λ xs. b ∈ xs → IsContainer (linked.nodes q).type) q
          (λ e m.
            subst IsContainer (sym (append_type s p c q))
              (subst (λ k. IsContainer (s.nodes k).type) (sym e) con))
          (λ d m. subst IsContainer (sym (append_type s p c q)) (g.containing q b (out h) m));
  }
    where
      out : {a : ℕ} → a < linked.node_count → a < s.node_count
      out h = omega (arith, append_count s p c)
