-- ===== src/Forest/Detach.antt =====
-- After the writes of `Object::remove` (src/object.cpp) the nodes are a forest without the child.
use slabjson.Prelude.{
  ℕ, ◌<◌, ◌≡◌, ◌≢◌, sym, ap, subst, ◌∙◌, inl, inr, List, [], ◌∷◌, ◌++◌, last_or, ◌∈◌, mem-append,
  mem-append_left, mem-append_right, ℕ_discrete, arith,
}
use slabjson.Prelude.Walk.{Walk-reroute, end_walk, visit}
use slabjson.Slab.{Slab, invalid_node_id}
use slabjson.Object.{unlink}
use slabjson.Forest.{parent_of, Chain, Ancestry, Kids, IsContainer, IsForest}
use slabjson.Forest.Basic.{id_ne_invalid}
use slabjson.Forest.Unlink.{
  without_child, Unlinking, mine, child_mem, child_lt, not_front, not_back, erased, apart, at_bound,
  chained_parent, chained_other, last_unlinked, unlink_count, unlink_content, unlink_parent,
  unlink_last,
}

module _ {s : Slab} {kids : Kids} {p c : ℕ} {front back : List ℕ}
    (u : Unlinking s kids p c front back) where
  open u use {fits as f, forest as g, parent_lt as hp, split as split}

  abbrev previous : ℕ
  previous = last_or invalid_node_id front

  abbrev unlinked : Slab
  unlinked = unlink p previous c s

  pub without_self : without_child kids p c p ≡ front ++ back
  without_self = (ground arith) ∙ erased u

  by_parent :
      (T : List ℕ → Type 0) (q : ℕ)
      → (q ≡ p → T (front ++ back))
      → (q ≢ p → T (kids q))
      → T (without_child kids p c q)
  by_parent T q at other = elim (ℕ_discrete q p) [
    | yes e ↦ subst (λ k. T (without_child kids p c k)) (sym e) (subst T (sym without_self) (at e))
    | no d ↦ subst T (ground arith) (other d)
  ]

  pub kept_mem : (b : ℕ) → b ∈ (front ++ back) → (b ∈ kids p) × (b ≢ c)
  kept_mem b m = elim (mem-append b front back m) [
    | inl l ↦ (
      mine u b (mem-append_left b front (c ∷ back) l),
      λ e. not_front u (subst (λ k. k ∈ front) e l),
    )
    | inr r ↦ (
      mine u b (mem-append_right b front (c ∷ back) (inr r)),
      λ e. not_back u (subst (λ k. k ∈ back) e r),
    )
  ]

  mem_kept : (b : ℕ) → b ∈ kids p → b ≢ c → b ∈ (front ++ back)
  mem_kept b m ne = elim (mem-append b front (c ∷ back) (subst (λ xs. b ∈ xs) split m)) [
    | inl l ↦ mem-append_left b front back l
    | inr (inl e) ↦ absurd (ne e)
    | inr (inr r) ↦ mem-append_right b front back r
  ]

  listed_unlinked :
      (b : ℕ)
      → b < s.node_count
      → parent_of unlinked b ≢ invalid_node_id
      → (parent_of unlinked b < unlinked.node_count)
        × (b ∈ without_child kids p c (parent_of unlinked b))
  listed_unlinked b hb d =
      let up : parent_of unlinked b ≡ parent_of s b =
        unlink_parent s p previous c b ∙ ground (arith, not_child) in
      let (under, m) = g.listed b hb (λ k. d (up ∙ k)) in
      (
        omega (arith, unlink_count s p previous c),
        subst (λ q. b ∈ without_child kids p c q) (sym up)
            (by_parent (λ xs. b ∈ xs) (parent_of s b)
              (λ e. mem_kept b (subst (λ q. b ∈ kids q) e m) not_child) (λ _. m)),
      )
    where
      not_child : b ≢ c
      not_child e = d (unlink_parent s p previous c b ∙ ground arith)

  -- The child is a root, and its parent's other children keep their order.
  pub unlink-IsForest : IsForest unlinked (without_child kids p c)
  unlink-IsForest = record {
    beyond = λ q h.
        by_parent (λ xs. xs ≡ []) q (λ e. absurd (omega (arith, unlink_count s p previous c)))
          (λ d. g.beyond q (omega (arith, unlink_count s p previous c)));
    chained = λ q h.
        by_parent (Chain unlinked (unlinked.nodes q).first_child) q
          (λ e.
            subst (λ k. Chain unlinked (unlinked.nodes k).first_child (front ++ back)) (sym e)
              (chained_parent u))
          (λ d. chained_other u q (out h) d);
    ended = λ q h.
        by_parent (λ xs. (unlinked.nodes q).last_child ≡ last_or invalid_node_id xs) q
          (λ e. ap (λ k. (unlinked.nodes k).last_child) e ∙ last_unlinked u)
          (λ d. (unlink_last s p previous c q ∙ ground arith) ∙ g.ended q (out h));
    owned = λ q b h.
        by_parent (λ xs. b ∈ xs → parent_of unlinked b ≡ q) q
          (λ e m.
            let (k, ne) = kept_mem b m in
            (unlink_parent s p previous c b ∙ ground (arith, ne)) ∙ g.owned p b hp k ∙ sym e)
          (λ d m.
            (unlink_parent s p previous c b ∙ ground (arith, other_child q b (out h) d m))
            ∙ g.owned q b (out h) m);
    listed = λ b h d. listed_unlinked b (out h) d;
    rooted = λ b h.
        let (xs, w) = g.rooted b (out h) in
        Walk-reroute c (c ∷ []) alone (λ a ne. unlink_parent s p previous c a ∙ ground (arith, ne))
          (at_bound u w);
    containing = λ q b h.
        by_parent (λ xs. b ∈ xs → IsContainer (unlinked.nodes q).type) q
          (λ e m. subst IsContainer (sym ((unlink_content s p previous c q).0)) (
            subst (λ k. IsContainer (s.nodes k).type) (sym e)
              (g.containing p b hp (kept_mem b m).0)))
          (λ d m.
            subst IsContainer (sym ((unlink_content s p previous c q).0))
              (g.containing q b (out h) m));
  }
    where
      out : {a : ℕ} → a < unlinked.node_count → a < s.node_count
      out h = omega (arith, unlink_count s p previous c)

      other_child : (q b : ℕ) → q < s.node_count → q ≢ p → b ∈ kids q → b ≢ c
      other_child q b hq d m e = apart u q b hq d m (subst (λ k. k ∈ kids p) (sym e) (child_mem u))

      alone : Ancestry unlinked c (c ∷ [])
      alone =
          visit (id_ne_invalid c f (child_lt u))
            (omega (arith, unlink_count s p previous c, child_lt u))
            (end_walk (unlink_parent s p previous c c ∙ ground arith))
