-- ===== src/Serialize/Rounds.antt =====
-- How many rounds the loops of `Serializer::write` (src/serialize.cpp) take: two for each node of the
-- value, which are not more nodes than the slab has.
use slabjson.Prelude.{
  ℕ, suc, ◌+◌, ◌*◌, ◌≤◌, ◌<◌, ◌≡◌, ◌≢◌, refl, sym, ap, subst, inl, inr, Bool, List, [], ◌∷◌, ◌++◌,
  append_assoc, ◌∈◌, mem-append, Distinct, length, length-append, length-le_of_Distinct, arith,
}
use slabjson.Prelude.Walk.{Walk-unique, Walk-Distinct, end_walk, visit}
use slabjson.Slab.{Slab, invalid_node_id}
use slabjson.Space.{Fits}
use slabjson.Forest.{Ancestry, Chain, next_of}
use slabjson.Forest.Basic.{id_ne_invalid}
use slabjson.Serialize.Run.{after, after_entries}
use slabjson.Json.{Json, Entries, leaf, container, no_entries, entry}
use slabjson.Json.Denotes.{Denotes, DenotesEntries}

-- The nodes that a value takes.
mutual
  pub size : Json → ℕ
  size (leaf v) = 1
  size (container b es) = suc (size_entries b es)

  pub size_entries : (is_object : Bool) → Entries is_object → ℕ
  size_entries b no_entries = 0
  size_entries b (entry l j es) = size j + size_entries b es

mutual
  unfolding after after_entries size size_entries

  pub after-eq : (j : Json) (fuel : ℕ) → suc (after j fuel) ≡ 2 * size j + fuel
  after-eq (leaf v) fuel = omega arith
  after-eq (container b no_entries) fuel = omega arith
  after-eq (container b (entry l j es)) fuel =
      omega (arith, after-eq j (after_entries b es fuel), after_entries-eq b es fuel)

  after_entries-eq :
      (b : Bool) (es : Entries b) (fuel : ℕ)
      → after_entries b es fuel ≡ suc (2 * size_entries b es + fuel)
  after_entries-eq b no_entries fuel = omega arith
  after_entries-eq b (entry l j es) fuel =
      omega (arith, after-eq j (after_entries b es fuel), after_entries-eq b es fuel)

Distinct-append :
    (xs ys : List ℕ)
    → Distinct xs
    → Distinct ys
    → ((a : ℕ) → a ∈ xs → ¬ (a ∈ ys))
    → Distinct (xs ++ ys)
Distinct-append [] ys d e apart = e
Distinct-append (x ∷ xs) ys (out, d) e apart = (
  λ m. elim (mem-append x xs ys m) [ inl l ↦ out l | inr r ↦ apart x (inl refl) r ],
  Distinct-append xs ys d e (λ a m. apart a (inr m)),
)

-- Where two lists end alike, the numbers before the common end are equal.
same_end : (xs ys : List ℕ) (a b : ℕ) (rest : List ℕ) → xs ++ (a ∷ rest) ≡ ys ++ (b ∷ rest) → a ≡ b
same_end [] [] a b rest e = cc
same_end [] (y ∷ ys) a b rest e = absurd (omega (arith, ap length e, length-append ys (b ∷ rest)))
same_end (x ∷ xs) [] a b rest e = absurd (omega (arith, ap length e, length-append xs (a ∷ rest)))
same_end (x ∷ xs) (y ∷ ys) a b rest e = same_end xs ys a b rest (cc)

module _ {s : Slab} (fits : Fits s) where
  -- The nodes of the value at a node, whose ancestors from itself up are `above`.
  Nodes : ℕ → List ℕ → Type 0
  Nodes n above =
      (ids : List ℕ) × (length ids ≡ n)
      × Distinct ids
      × ((x : ℕ) → x ∈ ids → (front : List ℕ) × Ancestry s x (front ++ above))

  -- Those of the entries from the child `c` on.
  EntryNodes : ℕ → ℕ → List ℕ → Type 0
  EntryNodes n c above =
      (ids : List ℕ) × (chain : List ℕ) × Chain s c chain
      × (length ids ≡ n)
      × Distinct ids
      × ((x : ℕ)
          → x ∈ ids
          → (front : List ℕ) × (k : ℕ) × (k ∈ chain) × Ancestry s x (front ++ (k ∷ above)))

  leaf-Nodes : (id : ℕ) {above : List ℕ} → Ancestry s id above → Nodes 1 above
  unfolding Nodes
  leaf-Nodes id {above} w = (id ∷ [], refl, (λ m. m, tt), under)
    where
      under : (x : ℕ) → x ∈ (id ∷ []) → (front : List ℕ) × Ancestry s x (front ++ above)
      under x (inl e) = ([], subst (λ y. Ancestry s y above) (sym e) w)
      under x (inr m) = absurd m

  nil-EntryNodes : (c : ℕ) (above : List ℕ) → c ≡ invalid_node_id → EntryNodes 0 c above
  unfolding EntryNodes
  nil-EntryNodes c above e = ([], [], end_walk e, refl, tt, λ x m. absurd m)

  -- The ancestors of a container are not those of a node below it.
  apart : (front above : List ℕ) (k : ℕ) → above ≡ front ++ (k ∷ above) → ⊥
  apart front above k e = omega (arith, ap length e, length-append front (k ∷ above))

  container-Nodes :
      (id c n : ℕ) {above : List ℕ}
      → Ancestry s id above
      → EntryNodes n c above
      → Nodes (suc n) above
  unfolding Nodes EntryNodes
  container-Nodes id c n {above} w (ids, chain, walk, count, distinct, under) =
      (id ∷ ids, ap suc count, (fresh, distinct), all_under)
    where
      fresh : ¬ (id ∈ ids)
      fresh m = let (front, k, _, v) = under id m in apart front above k (Walk-unique w v refl)

      all_under : (x : ℕ) → x ∈ (id ∷ ids) → (front : List ℕ) × Ancestry s x (front ++ above)
      all_under x (inl e) = ([], subst (λ y. Ancestry s y above) (sym e) w)
      all_under x (inr m) =
          let (front, k, _, v) = under x m in
          (front ++ (k ∷ []), subst (Ancestry s x) (sym (append_assoc front (k ∷ []) above)) v)

  entry-EntryNodes :
      (c n n' : ℕ) (above : List ℕ)
      → c < s.node_count
      → Nodes n (c ∷ above)
      → EntryNodes n' (next_of s c) above
      → EntryNodes (n + n') c above
  unfolding Nodes EntryNodes
  entry-EntryNodes c n n' above h (first, count, distinct, under)
        (others, chain, walk, count', distinct', under') =
      (
        first ++ others,
        c ∷ chain,
        here,
        omega (arith, length-append first others, count, count'),
        Distinct-append first others distinct distinct' disjoint,
        all_under,
      )
    where
      here : Chain s c (c ∷ chain)
      here = visit (id_ne_invalid c fits h) h walk

      disjoint : (x : ℕ) → x ∈ first → ¬ (x ∈ others)
      disjoint x m m' =
          let (front, v) = under x m in
          let (front', k, q, v') = under' x m' in
          (Walk-Distinct here).0 (
            subst (λ y. y ∈ chain) (sym (same_end front front' c k above (Walk-unique v v' refl)))
              q)

      all_under :
          (x : ℕ)
          → x ∈ (first ++ others)
          → (front : List ℕ) × (k : ℕ) × (k ∈ (c ∷ chain)) × Ancestry s x (front ++ (k ∷ above))
      all_under x m = elim (mem-append x first others m) [
        | inl l ↦ let (front, v) = under x l in (front, c, inl refl, v)
        | inr r ↦ let (front, k, q, v) = under' x r in (front, k, inr q, v)
      ]

  mutual
    unfolding Denotes DenotesEntries size size_entries

    Denotes-Nodes :
        (j : Json) (id : ℕ) {above : List ℕ}
        → Ancestry s id above
        → Denotes s id j
        → Nodes (size j) above
    Denotes-Nodes (leaf v) id w d = leaf-Nodes id w
    Denotes-Nodes (container b es) id w (typed, ds) =
        container-Nodes id (s.nodes id).first_child (size_entries b es) w
          (DenotesEntries-EntryNodes b es id (s.nodes id).first_child w ds)

    DenotesEntries-EntryNodes :
        (b : Bool) (es : Entries b) (p c : ℕ) {above : List ℕ}
        → Ancestry s p above
        → DenotesEntries s b p c es
        → EntryNodes (size_entries b es) c above
    DenotesEntries-EntryNodes b no_entries p c {above} w none_left =
        nil-EntryNodes c above none_left
    DenotesEntries-EntryNodes b (entry l j es) p c {above} w (h, child, labelled, d, ds) =
        entry-EntryNodes c (size j) (size_entries b es) above h
          (Denotes-Nodes j c
            (visit (id_ne_invalid c fits h) h (subst (λ q. Ancestry s q above) (sym child) w)) d)
          (DenotesEntries-EntryNodes b es p (next_of s c) w ds)

  first_below : {x : ℕ} {xs : List ℕ} → Ancestry s x xs → 0 < length xs → x < s.node_count
  first_below (end_walk e) l = absurd (omega arith)
  first_below (visit d b w) l = b

  walk_pos : {x : ℕ} {xs : List ℕ} → Ancestry s x xs → x ≢ invalid_node_id → 0 < length xs
  walk_pos (end_walk e) d = absurd (d e)
  walk_pos (visit d b w) k = omega arith

  -- So a value has at most as many nodes as the slab.
  pub size-le :
      (j : Json) (id : ℕ) {above : List ℕ}
      → id < s.node_count
      → Ancestry s id above
      → Denotes s id j
      → size j ≤ s.node_count
  unfolding Nodes
  size-le j id {above} h w d =
      let (ids, count, distinct, under) = Denotes-Nodes j id w d in
      omega
        (arith, count, length-le_of_Distinct s.node_count ids distinct (λ x m. below x (under x m)))
    where
      below : (x : ℕ) → (front : List ℕ) × Ancestry s x (front ++ above) → x < s.node_count
      below x (front, v) =
          first_below v
            (omega (arith, length-append front above, walk_pos w (id_ne_invalid id fits h)))
