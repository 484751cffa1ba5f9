-- ===== src/Parse/Open.antt =====
-- The document while a container of src/parse.cpp is open: its node is there, and children are added.
use slabjson.Prelude.{
  ℕ, ◌<◌, ◌≡◌, ◌≢◌, refl, sym, ap, subst, ◌∙◌, inl, inr, true, List, [], ◌∷◌, ◌++◌, ◌∈◌, mem-append,
  last_or, length, arith,
}
use slabjson.Prelude.Walk.{end_walk, visit, last_or-mem}
use slabjson.Utf8.{Bytes}
use slabjson.Slab.{
  Slab, ValueType, StoredString, new_node, invalid_node_id, modify, append_child_unchecked,
}
use slabjson.Space.{
  Extends, Extends-trans, NodeRoom, StringRoom, with_node, with_node-Grown, copied, copied-Extends,
}
use slabjson.Forest.{Kids, Ancestry, IsContainer, parent_of, with_child}
use slabjson.Document.{IsDocument, KeyFits, NodeFits}
use slabjson.Document.Preserve.{IsDocument-Grown}
use slabjson.Document.Change.{
  append-SameStore, IsDocument-append, IsDocument-set_key, set_key_links, modify-SameStore,
}
use slabjson.Forest.Links.{append_type}
use slabjson.Parse.Values.{set_key}
use slabjson.Parse.Texts.{modify-Extends, copied-IsDocument}

-- The container is the node behind those of `s`; its children are behind it.
pub record Open (kids : Kids) (s t : Slab) : Type 0 where
  pub extends : Extends s t
  pub kids_now : Kids
  pub document : IsDocument t kids_now
  pub kept : (i : ℕ) → i < s.node_count → kids_now i ≡ kids i
  pub younger : (c : ℕ) → c ∈ kids_now s.node_count → s.node_count < c
  pub grown : s.node_count < t.node_count
  pub root : parent_of t s.node_count ≡ invalid_node_id
  pub containing : IsContainer (t.nodes s.node_count).type

-- A next root of the document, ready to be added.
pub record Ready (kids : Kids) (t u : Slab) : Type 0 where
  pub extends : Extends t u
  pub kids_then : Kids
  pub document : IsDocument u kids_then
  pub kept : (i : ℕ) → i < t.node_count → kids_then i ≡ kids i
  pub grown : t.node_count < u.node_count
  pub root : parent_of u t.node_count ≡ invalid_node_id

pub begun-Open :
    {kids : Kids} {s : Slab} (type : ValueType)
    → IsContainer type
    → IsDocument s kids
    → s.valid ≡ true
    → NodeRoom s
    → NodeFits (with_node (record new_node { type = type }) s) (record new_node { type = type })
    → Open kids s (with_node (record new_node { type = type }) s)
begun-Open {kids} {s} type container d v room fit =
    let g = with_node-Grown (record new_node { type = type }) d.fits v room in
    record {
      extends = g.extends;
      kids_now = kids;
      document = IsDocument-Grown d g (refl, refl, refl, refl) fit;
      kept = λ i h. refl;
      younger = λ c m. absurd (subst (λ xs. c ∈ xs) (d.forest.beyond s.node_count (omega arith)) m);
      grown = omega (arith, g.counted);
      root = ap (λ n. n.parent) g.node;
      containing = subst (λ n. IsContainer n.type) (sym g.node) container;
    }

-- The text of a key is stored.
pub copied-Open :
    {kids : Kids} {s t : Slab} (value : Bytes)
    → Open kids s t
    → StringRoom t (length value)
    → Open kids s (copied value t)
copied-Open {kids} {s} value o room = record {
  extends = Extends-trans o.extends (copied-Extends value o.document.fits room);
  kids_now = o.kids_now;
  document = copied-IsDocument value o.document room;
  kept = o.kept;
  younger = o.younger;
  grown = o.grown;
  root = o.root;
  containing = o.containing;
}

pub keyed-Ready :
    {kids : Kids} {t u : Slab} (key : StoredString)
    → (r : Ready kids t u) → KeyFits u key.ref key.flags
    → Ready kids t (modify t.node_count (set_key key) u)
keyed-Ready {kids} {t} {u} key r k = record {
  extends = modify-Extends t.node_count (set_key key) r.extends (omega arith);
  kids_then = r.kids_then;
  document = IsDocument-set_key t.node_count key.ref key.flags r.document k;
  kept = r.kept;
  grown = omega (arith, r.grown, (modify-SameStore u t.node_count (set_key key)).count_same);
  root = (set_key_links u t.node_count key.ref key.flags t.node_count).1 ∙ r.root;
}

root_above :
    (t : Slab) (a : ℕ) {xs : List ℕ}
    → Ancestry t a xs
    → parent_of t a ≡ invalid_node_id
    → (c : ℕ) → c ∈ xs
    → c ≡ a
root_above t a (end_walk e) r c m = absurd m
root_above t a (visit d b w) r c (inl e) = e
root_above t a (visit d b (end_walk e)) r c (inr m) = absurd m
root_above t a (visit d b (visit k f w)) r c (inr m) = absurd (k r)

last_or-gt :
    (low : ℕ) (xs : List ℕ) (d : ℕ) → low < d → ((c : ℕ) → c ∈ xs → low < c) → low < last_or d xs
last_or-gt low [] d l h = l
last_or-gt low (x ∷ xs) d l h = h _ (last_or-mem d x xs)

append_other :
    (u : Slab) (a c i : ℕ)
    → i ≢ a
    → i ≢ c
    → i ≢ (u.nodes a).last_child
    → (append_child_unchecked a c u).nodes i ≡ u.nodes i
unfolding append_child_unchecked modify
append_other u a c i x y z = ground arith

append_root :
    (u : Slab) (a c : ℕ) → a ≢ c → parent_of (append_child_unchecked a c u) a ≡ parent_of u a
unfolding append_child_unchecked modify
append_root u a c d = ground arith

module _ {kids : Kids} {s t u : Slab} (o : Open kids s t) (r : Ready o.kids_now t u) where
  abbrev added : Slab
  added = append_child_unchecked s.node_count t.node_count u

  same_kids : r.kids_then s.node_count ≡ o.kids_now s.node_count
  same_kids = r.kept s.node_count o.grown

  last_younger : s.node_count < (u.nodes s.node_count).last_child
  last_younger =
      let f = r.document.fits in
      subst (λ k. s.node_count < k)
        (sym (r.document.forest.ended s.node_count (omega (arith, o.grown, r.grown))))
        (last_or-gt s.node_count (r.kids_then s.node_count) invalid_node_id
          (omega (arith, o.grown, r.grown, f.small, f.room))
          (λ c m. o.younger c (subst (λ xs. c ∈ xs) same_kids m)))

  added-Extends : Extends s added
  added-Extends =
      let e = Extends-trans o.extends r.extends in
      let k = append-SameStore u s.node_count t.node_count in
      record {
        self_kept = k.self_same ∙ e.self_kept;
        start_kept = k.start_same ∙ e.start_kept;
        capacity_kept = k.capacity_same ∙ e.capacity_kept;
        generation_kept = k.generation_same ∙ e.generation_kept;
        valid_kept = k.valid_same ∙ e.valid_kept;
        count_le = omega (arith, k.count_same, e.count_le);
        used_le = omega (arith, k.used_same, e.used_le);
        nodes_kept = λ i h.
            append_other u s.node_count t.node_count i (omega arith) (omega (arith, o.grown))
              (omega (arith, last_younger))
            ∙ e.nodes_kept i h;
        bytes_kept = λ i h. ap (λ b. b i) k.bytes_same ∙ e.bytes_kept i h;
      }

  -- The container takes the root as its last child, and stays open.
  pub added-Open : Open kids s added
  added-Open =
      let count = (append-SameStore u s.node_count t.node_count).count_same in
      let node = r.extends.nodes_kept s.node_count o.grown in
      let root = ap (λ n. n.parent) node ∙ o.root in
      let container = subst (λ n. IsContainer n.type) (sym node) o.containing in
      record {
        extends = added-Extends;
        kids_now = with_child r.kids_then s.node_count t.node_count;
        document =
            IsDocument-append s.node_count t.node_count r.document (omega (arith, o.grown, r.grown))
              r.grown r.root container
              (λ xs w m.
                absurd (omega (arith, o.grown, root_above u s.node_count w root t.node_count m)));
        kept = λ i h. ground (arith, r.kept i (omega (arith, o.grown)), o.kept i h);
        younger = λ c m.
            elim (mem-append c (r.kids_then s.node_count) (t.node_count ∷ [])
              (subst (λ xs. c ∈ xs) new_kids m)) [
                | inl old ↦ o.younger c (subst (λ xs. c ∈ xs) same_kids old)
                | inr (inl e) ↦ omega (arith, e, o.grown)
                | inr (inr e) ↦ absurd e
              ];
        grown = omega (arith, o.grown, r.grown, count);
        root = append_root u s.node_count t.node_count (omega (arith, o.grown)) ∙ root;
        containing =
            subst IsContainer (sym (append_type u s.node_count t.node_count s.node_count))
              container;
      }
    where
      new_kids :
          with_child r.kids_then s.node_count t.node_count s.node_count
          ≡ r.kids_then s.node_count ++ (t.node_count ∷ [])
      new_kids = ground arith
