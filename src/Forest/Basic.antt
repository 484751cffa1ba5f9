-- ===== src/Forest/Basic.antt =====
-- A forest under changes that leave its live nodes alone, and under a new node without links.
use slabjson.Prelude.{
  ℕ, ◌≤◌, ◌<◌, ◌≡◌, ◌≢◌, refl, sym, ap, subst, ◌∙◌, true, List, [], ◌∷◌, ◌∈◌, All, dec_lt, last_or,
  arith, some,
}
use slabjson.Prelude.Walk.{Walk-agree, Walk-below, end_walk, visit}
use slabjson.Slab.{Slab, Node, invalid_node_id, node_for}
use slabjson.Space.{Fits, Grown}
use slabjson.Forest.{parent_of, Chain, Ancestry, Kids, IsContainer, IsForest, Bare}

pub node_for_live :
    (s : Slab) (id generation : ℕ)
    → s.valid ≡ true
    → generation ≡ s.generation
    → id < s.node_count
    → node_for s id generation ≡ some (s.nodes id)
unfolding node_for
node_for_live s id generation v e h = ground arith

-- A node's number is never the invalid one.
pub id_ne_invalid : {s : Slab} (id : ℕ) → Fits s → id < s.node_count → id ≢ invalid_node_id
id_ne_invalid id f h = omega (arith, f.small, f.room)

abbrev pub no_kids : Kids
no_kids i = []

pub empty-IsForest : (s : Slab) → s.node_count ≡ 0 → IsForest s no_kids
empty-IsForest s e = record {
  beyond = λ p h. refl;
  chained = λ p h. absurd (omega arith);
  ended = λ p h. absurd (omega arith);
  owned = λ p c h m. absurd m;
  listed = λ c h d. absurd (omega arith);
  rooted = λ c h. absurd (omega arith);
  containing = λ p c h m. absurd m;
}

module _ {s : Slab} {kids : Kids} (g : IsForest s kids) where
  pub kid-lt : (p c : ℕ) → p < s.node_count → c ∈ kids p → c < s.node_count
  kid-lt p c h m = Walk-below (g.chained p h) c m

  -- New nodes without links are roots without children; nothing else changes.
  pub IsForest-extend :
      (s' : Slab)
      → s.node_count ≤ s'.node_count
      → s'.node_count ≤ 65535
      → ((i : ℕ) → i < s.node_count → s'.nodes i ≡ s.nodes i)
      → ((i : ℕ) → s.node_count ≤ i → i < s'.node_count → Bare (s'.nodes i))
      → IsForest s' kids
  IsForest-extend s' more small same bare = record {
    beyond = λ p h. g.beyond p (omega arith);
    chained = λ p h. by_age p (λ l. chained_old p l) (λ l. chained_new p l (bare p l h));
    ended = λ p h.
        by_age p (λ l. ap (λ n. n.last_child) (same p l) ∙ g.ended p l)
          (λ l. (bare p l h).2 ∙ ap (last_or invalid_node_id) (sym (g.beyond p l)));
    owned = λ p c h m.
        by_age p (λ l. ap (λ n. n.parent) (same c (kid-lt p c l m)) ∙ g.owned p c l m)
          (λ l. absurd (subst (λ xs. c ∈ xs) (g.beyond p l) m));
    listed = λ c h d. by_age c (λ l. listed_old c l d) (λ l. absurd (d (bare c l h).0));
    rooted = λ c h. by_age c (rooted_old c) (λ l. rooted_new c h (bare c l h));
    containing = λ p c h m.
        by_age p (λ l. subst (λ n. IsContainer n.type) (sym (same p l)) (g.containing p c l m))
          (λ l. absurd (subst (λ xs. c ∈ xs) (g.beyond p l) m));
  }
    where
      by_age : {T : Type 0} (p : ℕ) → (p < s.node_count → T) → (s.node_count ≤ p → T) → T
      by_age p old new = elim (dec_lt p s.node_count) [ yes l ↦ old l | no l ↦ new (omega arith) ]

      below : (xs : List ℕ) → All (λ a. a < s.node_count) xs → All (λ a. a < s'.node_count) xs
      below xs b a m = omega (arith, b a m)

      chained_old : (p : ℕ) → p < s.node_count → Chain s' (s'.nodes p).first_child (kids p)
      chained_old p l =
          subst (λ n. Chain s' n.first_child (kids p)) (sym (same p l))
            (Walk-agree (g.chained p l) (below _ (Walk-below (g.chained p l)))
              (λ a m. ap (λ n. n.next_sibling) (same a (kid-lt p a l m))))

      chained_new :
          (p : ℕ)
          → s.node_count ≤ p
          → Bare (s'.nodes p)
          → Chain s' (s'.nodes p).first_child (kids p)
      chained_new p l b =
          subst (Chain s' (s'.nodes p).first_child) (sym (g.beyond p l)) (end_walk b.1)

      listed_old :
          (c : ℕ)
          → c < s.node_count
          → parent_of s' c ≢ invalid_node_id
          → (parent_of s' c < s'.node_count) × (c ∈ kids (parent_of s' c))
      listed_old c l d =
          let e : parent_of s' c ≡ parent_of s c = ap (λ n. n.parent) (same c l) in
          let (under, m) = g.listed c l (λ k. d (e ∙ k)) in
          (omega arith, subst (λ p. c ∈ kids p) (sym e) m)

      rooted_old : (c : ℕ) → c < s.node_count → (xs : List ℕ) × Ancestry s' c xs
      rooted_old c l =
          let (xs, w) = g.rooted c l in
          (
            xs,
            Walk-agree w (below xs (Walk-below w))
                (λ a m. ap (λ n. n.parent) (same a (Walk-below w a m))),
          )

      rooted_new :
          (c : ℕ) → c < s'.node_count → Bare (s'.nodes c) → (xs : List ℕ) × Ancestry s' c xs
      rooted_new c h b = (c ∷ [], visit (omega arith) h (end_walk b.0))

  pub IsForest-Grown : {s' : Slab} {n : Node} → Grown s s' n → Bare n → IsForest s' kids
  IsForest-Grown {s'} gr b =
      IsForest-extend s' gr.extends.count_le (omega (arith, gr.fits.small, gr.fits.room))
        gr.extends.nodes_kept
        (λ i l h.
          let e : s.node_count ≡ i = omega (arith, gr.counted) in
          subst (λ k. Bare (s'.nodes k)) e (subst Bare (sym gr.node) b))
