-- ===== src/Json/Total.antt =====
-- Each node of a document (include/slabjson/slab.hpp) stands for one value.
use slabjson.Prelude.{
  ℕ, zero, suc, ◌+◌, ◌<◌, ◌≡◌, ◌≢◌, refl, sym, ap, subst, ◌∙◌, Bool, true, false, List, ◌∷◌, inl,
  inr, ◌∈◌, length, arith,
}
use slabjson.Prelude.Walk.{Walk-length, end_walk, visit}
use slabjson.Slab.{
  Slab, Node, ValueType, NumberKind, signed_integer, unsigned_integer, floating_point, Payload,
  view_string,
}
use slabjson.Value.{bool_of, signed_of, unsigned_of, double_of, string_of}
use slabjson.Forest.{Kids, Ancestry, Chain, parent_of, next_of}
use slabjson.Forest.Basic.{id_ne_invalid}
use slabjson.Document.{IsDocument, PayloadFits, NumberFits}
use slabjson.Document.Scalar.{Scalar, text, boolean, signed, unsigned, floating, nothing}
use slabjson.Document.Reads.{Holds}
use slabjson.Json.{Json, Entries, Label, leaf, container, no_entries, entry}
use slabjson.Json.Denotes.{container_type, Labels, Denotes, DenotesEntries}

abbrev number_at : NumberKind → Payload → Scalar
number_at signed_integer p = signed (signed_of p)
number_at unsigned_integer p = unsigned (unsigned_of p)
number_at floating_point p = floating (double_of p)

-- The scalar in a node.
abbrev scalar_at : Slab → ValueType → NumberKind → Payload → Scalar
scalar_at s ValueType.bool k p = boolean (bool_of p)
scalar_at s ValueType.number k p = number_at k p
scalar_at s ValueType.string k p = text (view_string s (string_of p))
scalar_at s _ k p = nothing

Holds-scalar_at :
    (v : Scalar) (s : Slab) (n : Node) → Holds v s n → v ≡ scalar_at s n.type n.aux n.payload
Holds-scalar_at (text t) s n h = ground arith
Holds-scalar_at (boolean b) s n h = ground arith
Holds-scalar_at (signed i) s n h = ground arith
Holds-scalar_at (unsigned u) s n h = ground arith
Holds-scalar_at (floating d) s n h = ground arith
Holds-scalar_at nothing s n h = ground arith

not_container :
    (v : Scalar) (s : Slab) (n : Node) (b : Bool) → Holds v s n → n.type ≢ container_type b
not_container (text t) s n b h = ground arith
not_container (boolean c) s n b h = ground arith
not_container (signed i) s n b h = ground arith
not_container (unsigned u) s n b h = ground arith
not_container (floating d) s n b h = ground arith
not_container nothing s n b h = ground arith

abbrev label_at : (is_object : Bool) → Slab → Node → Label is_object
label_at true s n = view_string s n.key
label_at false s n = tt

label_at-Labels : (b : Bool) (s : Slab) (n : Node) → Labels b (label_at b s n) s n
label_at-Labels true s n = refl
label_at-Labels false s n = tt

module _ {s : Slab} {kids : Kids} (doc : IsDocument s kids) where
  -- A list of children denotes entries, if each of the children denotes a value.
  down_the_line :
      (b : Bool) (p : ℕ) {c : ℕ} {chain : List ℕ}
      → ((k : ℕ) → k < s.node_count → parent_of s k ≡ p → (j : Json) × Denotes s k j)
      → Chain s c chain
      → ((k : ℕ) → k ∈ chain → parent_of s k ≡ p)
      → (es : Entries b) × DenotesEntries s b p c es
  unfolding DenotesEntries
  down_the_line b p value (end_walk e) owned = (no_entries, e)
  down_the_line b p value (visit {n} d h w) owned =
      let (j, dj) = value n h (owned n (inl refl)) in
      let (es, des) = down_the_line b p value w (λ k m. owned k (inr m)) in
      (
        entry (label_at b s (s.nodes n)) j es,
        (h, owned n (inl refl), label_at-Labels b s (s.nodes n), dj, des),
      )

  number_value :
      (k : NumberKind) (n : Node)
      → n.type ≡ ValueType.number
      → n.aux ≡ k
      → NumberFits k n.payload
      → (v : Scalar) × Holds v s n
  number_value signed_integer n e a (i, p) = (signed i, (e, a, p))
  number_value unsigned_integer n e a (u, p) = (unsigned u, (e, a, p))
  number_value floating_point n e a (d, p, f) = (floating d, (e, a, p))

  -- The value at a node, from those at its children.
  value_at :
      (t : ValueType) (id : ℕ)
      → id < s.node_count
      → (s.nodes id).type ≡ t
      → PayloadFits s t (s.nodes id).aux (s.nodes id).payload (s.nodes id).value_flags
      → ((k : ℕ) → k < s.node_count → parent_of s k ≡ id → (j : Json) × Denotes s k j)
      → (j : Json) × Denotes s id j
  unfolding Denotes
  value_at ValueType.invalid id h e f value = absurd f
  value_at ValueType.null id h e f value = (leaf nothing, e)
  value_at ValueType.bool id h e (b, p) value = (leaf (boolean b), (e, p))
  value_at ValueType.number id h e f value =
      let (v, holds) = number_value (s.nodes id).aux (s.nodes id) e refl f in (leaf v, holds)
  value_at ValueType.string id h e (r, p, stored) value =
      (leaf (text (view_string s r)), (e, r, p, refl))
  value_at ValueType.array id h e f value =
      let (es, d) =
        down_the_line false id value (doc.forest.chained id h) (λ k m. doc.forest.owned id k h m) in
      (container false es, (e, d))
  value_at ValueType.object id h e f value =
      let (es, d) =
        down_the_line true id value (doc.forest.chained id h) (λ k m. doc.forest.owned id k h m) in
      (container true es, (e, d))

  -- By descent: each step down makes the list of ancestors longer.
  descend :
      (steps id : ℕ) (above : List ℕ)
      → id < s.node_count
      → Ancestry s id above
      → s.node_count < length above + steps
      → (j : Json) × Denotes s id j
  descend zero id above h w l = absurd (omega (arith, Walk-length w))
  descend (suc steps) id above h w l =
      value_at (s.nodes id).type id h refl (doc.nodes id h).payload λ k hk child.
        descend steps k (k ∷ above) hk
          (visit (id_ne_invalid k doc.fits hk) hk (subst (λ q. Ancestry s q above) (sym child) w))
          (omega arith)

  Denotes-total : (id : ℕ) → id < s.node_count → (j : Json) × Denotes s id j
  Denotes-total id h =
      let (above, w) = doc.forest.rooted id h in
      descend (suc s.node_count) id above h w (omega arith)

Labels-unique :
    (b : Bool) (l l' : Label b) (s : Slab) (n : Node) → Labels b l s n → Labels b l' s n → l ≡ l'
Labels-unique true l l' s n e k = sym e ∙ k
Labels-unique false l l' s n e k = refl

module _ {s : Slab} {kids : Kids} (doc : IsDocument s kids) where
  mutual
    unfolding Denotes DenotesEntries

    Denotes-unique : (j j' : Json) (id : ℕ) → Denotes s id j → Denotes s id j' → j ≡ j'
    Denotes-unique (leaf v) (leaf v') id d d' =
        ap leaf (Holds-scalar_at v s _ d ∙ sym (Holds-scalar_at v' s _ d'))
    Denotes-unique (leaf v) (container b es) id d (e, _) = absurd (not_container v s _ b d e)
    Denotes-unique (container b es) (leaf v) id (e, _) d = absurd (not_container v s _ b d e)
    Denotes-unique (container true es) (container true es') id (e, d) (e', d') =
        ap (container true) (same_rest true es es' id _ d d')
    Denotes-unique (container false es) (container false es') id (e, d) (e', d') =
        ap (container false) (same_rest false es es' id _ d d')
    Denotes-unique (container true es) (container false es') id (e, d) (e', d') = cc
    Denotes-unique (container false es) (container true es') id (e, d) (e', d') = cc

    same_rest :
        (b : Bool) (es es' : Entries b) (p c : ℕ)
        → DenotesEntries s b p c es
        → DenotesEntries s b p c es'
        → es ≡ es'
    same_rest b no_entries no_entries p c d d' = refl
    same_rest b no_entries (entry l j es) p c d d' = absurd (id_ne_invalid c doc.fits d'.0 d)
    same_rest b (entry l j es) no_entries p c d d' = absurd (id_ne_invalid c doc.fits d.0 d')
    same_rest b (entry l j es) (entry l' j' es') p c (h, e, k, d, ds) (h', e', k', d', ds') = cc (
      Labels-unique b l l' s (s.nodes c) k k',
      Denotes-unique j j' c d d',
      same_rest b es es' p (next_of s c) ds ds',
    )

  -- Each node of a document stands for exactly one JSON value.
  pub Denotes-one :
      (id : ℕ)
      → id < s.node_count
      → (j : Json) × Denotes s id j × ((j' : Json) → Denotes s id j' → j' ≡ j)
  Denotes-one id h =
      let (j, d) = Denotes-total doc id h in (j, d, λ j' d'. Denotes-unique j' j id d' d)
