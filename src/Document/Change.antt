-- ===== src/Document/Change.antt =====
-- The invariant under writes to nodes: a new key, and an attachment.
use slabjson.Prelude.{
  ℕ, ◌<◌, ◌≡◌, ◌≢◌, sym, subst, ◌∙◌, List, inl, inr, ◌==◌, if◌then◌else◌, ◌∈◌, arith, ℕ_discrete,
  ap,
}
use slabjson.Prelude.Walk.{Walk, Walk-agree, Walk-below, first_mem}
use slabjson.Utf8.Encoding.{IsUtf8}
use slabjson.Slab.{
  string_flags, Slab, Node, ValueType, NumberKind, Payload, invalid_node_id, StringRef, view_string,
  modify, append_child_unchecked,
}
use slabjson.Space.{Fits}
use slabjson.Forest.{Kids, IsForest, IsContainer, Ancestry, next_of, parent_of, with_child}
use slabjson.Forest.Basic.{kid-lt, id_ne_invalid}
use slabjson.Forest.Links.{
  Linking, append_type, append_key, append_payload, append_value_flags, append_key_flags,
  append_aux,
}
use slabjson.Forest.Attach.{append_child_unchecked-IsForest}
use slabjson.Document.{Text, KeyFits, PayloadFits, NodeFits, IsDocument}

-- Two slabs that differ in their nodes at most.
pub record SameStore (s s' : Slab) : Type 0 where
  pub self_same : s'.self ≡ s.self
  pub start_same : s'.start ≡ s.start
  pub capacity_same : s'.capacity ≡ s.capacity
  pub bytes_same : s'.bytes ≡ s.bytes
  pub used_same : s'.string_bytes_used ≡ s.string_bytes_used
  pub count_same : s'.node_count ≡ s.node_count
  pub generation_same : s'.generation ≡ s.generation
  pub error_same : s'.error ≡ s.error
  pub valid_same : s'.valid ≡ s.valid

pub modify-SameStore : (s : Slab) (i : ℕ) (f : Node → Node) → SameStore s (modify i f s)
unfolding modify
modify-SameStore s i f = ground arith

pub append-SameStore : (s : Slab) (p c : ℕ) → SameStore s (append_child_unchecked p c s)
unfolding append_child_unchecked modify
append-SameStore s p c = ground arith

module _ {s s' : Slab} (e : SameStore s s') where
  pub Fits-SameStore : Fits s → Fits s'
  Fits-SameStore f = ground arith

  pub view_string-SameStore : (r : StringRef) → view_string s' r ≡ view_string s r
  unfolding view_string
  view_string-SameStore r = ground (arith, e.capacity_same, e.bytes_same)

  pub Text-SameStore : {r : StringRef} {flags : ℕ} → Text s r flags → Text s' r flags
  Text-SameStore {r} t = record {
    stored = ground (arith, t.stored.above, t.stored.within);
    utf8 = subst IsUtf8 (sym (view_string-SameStore r)) t.utf8;
    flagged = t.flagged ∙ ap string_flags (sym (view_string-SameStore r));
  }

  pub PayloadFits-SameStore :
      (type : ValueType) (k : NumberKind) (p : Payload) (flags : ℕ)
      → PayloadFits s type k p flags
      → PayloadFits s' type k p flags
  PayloadFits-SameStore ValueType.string k p fl (r, q, t) = (r, q, Text-SameStore t)
  PayloadFits-SameStore ValueType.invalid k p fl h = h
  PayloadFits-SameStore ValueType.null k p fl h = h
  PayloadFits-SameStore ValueType.bool k p fl h = h
  PayloadFits-SameStore ValueType.number k p fl h = h
  PayloadFits-SameStore ValueType.array k p fl h = h
  PayloadFits-SameStore ValueType.object k p fl h = h

  pub payload_kept :
      (n m : Node)
      → m.type ≡ n.type
      → m.aux ≡ n.aux
      → m.payload ≡ n.payload
      → m.value_flags ≡ n.value_flags
      → NodeFits s n
      → PayloadFits s' m.type m.aux m.payload m.value_flags
  payload_kept n m t a p f h =
      subst (λ x. PayloadFits s' m.type m.aux m.payload x) (sym f)
        (subst (λ x. PayloadFits s' m.type m.aux x n.value_flags) (sym p)
          (subst (λ x. PayloadFits s' m.type x n.payload n.value_flags) (sym a)
            (subst (λ x. PayloadFits s' x n.aux n.payload n.value_flags) (sym t)
              (PayloadFits-SameStore n.type n.aux n.payload n.value_flags h.payload))))

  pub key_kept : {k k' : StringRef} {f f' : ℕ} → k' ≡ k → f' ≡ f → KeyFits s k f → KeyFits s' k' f'
  key_kept e g (inl (q, z)) = inl (e ∙ q, g ∙ z)
  key_kept {k} {f'} e g (inr t) =
      inr (subst (λ x. Text s' x f') (sym e) (subst (Text s' k) (sym g) (Text-SameStore t)))

-- A slab whose nodes have the same links and types holds the same forest.
pub IsForest-relabel :
    {s s' : Slab} {kids : Kids}
    → IsForest s kids
    → s'.node_count ≡ s.node_count
    → ((i : ℕ)
        → ((s'.nodes i).type ≡ (s.nodes i).type)
          × (parent_of s' i ≡ parent_of s i)
          × ((s'.nodes i).first_child ≡ (s.nodes i).first_child)
          × ((s'.nodes i).last_child ≡ (s.nodes i).last_child)
          × (next_of s' i ≡ next_of s i))
    → IsForest s' kids
IsForest-relabel {s} {s'} {kids} g c same = record {
  beyond = λ p h. g.beyond p (omega arith);
  chained = λ p h.
      subst (λ k. Walk invalid_node_id s'.node_count (next_of s') k (kids p)) (sym (same p).2)
        (Walk-agree (g.chained p (out p h)) (λ a m. into a (kid-lt g p a (out p h) m))
          (λ a m. (same a).4));
  ended = λ p h. (same p).3 ∙ g.ended p (out p h);
  owned = λ p b h m. (same b).1 ∙ g.owned p b (out p h) m;
  listed = λ b h d.
      let (under, m) = g.listed b (out b h) (λ k. d ((same b).1 ∙ k)) in
      (
        subst (λ k. k < s'.node_count) (sym (same b).1) (into _ under),
        subst (λ k. b ∈ kids k) (sym (same b).1) m,
      );
  rooted = λ b h.
      let (xs, w) = g.rooted b (out b h) in
      (xs, Walk-agree w (λ a m. into a (Walk-below w a m)) (λ a m. (same a).1));
  containing = λ p b h m. subst IsContainer (sym (same p).0) (g.containing p b (out p h) m);
}
  where
    out : (a : ℕ) → a < s'.node_count → a < s.node_count
    out a h = omega arith

    into : (a : ℕ) → a < s.node_count → a < s'.node_count
    into a h = omega arith

-- A node's key and its flags.
abbrev pub set_key : StringRef → ℕ → Node → Node
set_key r flags n = record n { key = r; key_flags = flags }

module _ (s : Slab) (c : ℕ) (r : StringRef) (flags : ℕ) where
  pub set_key_links :
      (i : ℕ)
      → (((modify c (set_key r flags) s).nodes i).type ≡ (s.nodes i).type)
        × (parent_of (modify c (set_key r flags) s) i ≡ parent_of s i)
        × (((modify c (set_key r flags) s).nodes i).first_child ≡ (s.nodes i).first_child)
        × (((modify c (set_key r flags) s).nodes i).last_child ≡ (s.nodes i).last_child)
        × (next_of (modify c (set_key r flags) s) i ≡ next_of s i)
  unfolding modify
  set_key_links i = ground arith

  pub set_key_content :
      (i : ℕ)
      → (((modify c (set_key r flags) s).nodes i).aux ≡ (s.nodes i).aux)
        × (((modify c (set_key r flags) s).nodes i).payload ≡ (s.nodes i).payload)
        × (((modify c (set_key r flags) s).nodes i).value_flags ≡ (s.nodes i).value_flags)
        × (((modify c (set_key r flags) s).nodes i).key_flags
            ≡ (if i == c then flags else (s.nodes i).key_flags))
        × (((modify c (set_key r flags) s).nodes i).key ≡ (if i == c then r else (s.nodes i).key))
  unfolding modify
  set_key_content i = ground arith

pub IsDocument-set_key :
    {s : Slab} {kids : Kids} (c : ℕ) (r : StringRef) (flags : ℕ)
    → IsDocument s kids
    → KeyFits s r flags
    → IsDocument (modify c (set_key r flags) s) kids
IsDocument-set_key {s} c r flags d k = record {
  fits = Fits-SameStore (modify-SameStore s c _) d.fits;
  forest =
      IsForest-relabel d.forest (modify-SameStore s c _).count_same (set_key_links s c r flags);
  nodes = λ i h.
      let l : i < s.node_count = omega (arith, store.count_same) in
      let (aux, payload, vflags, kflags, key) = set_key_content s c r flags i in
      record {
        payload =
            payload_kept store (s.nodes i) ((modify c (set_key r flags) s).nodes i)
              (set_key_links s c r flags i).0 aux payload vflags (d.nodes i l);
        key = elim (ℕ_discrete i c) [
          | yes e ↦ key_kept store (key ∙ ground arith) (kflags ∙ ground arith) k
          | no ne ↦ key_kept store (key ∙ ground arith) (kflags ∙ ground arith) (d.nodes i l).key
        ];
      };
}
  where
    store : SameStore s (modify c (set_key r flags) s)
    store = modify-SameStore s c (set_key r flags)

-- An attachment keeps the invariant.
pub IsDocument-append :
    {s : Slab} {kids : Kids} (p c : ℕ)
    → IsDocument s kids
    → p < s.node_count
    → c < s.node_count
    → parent_of s c ≡ invalid_node_id
    → IsContainer (s.nodes p).type
    → ((xs : List ℕ) → Ancestry s p xs → ¬ (c ∈ xs))
    → IsDocument (append_child_unchecked p c s) (with_child kids p c)
IsDocument-append {s} {kids} p c d hp hc root con acyclic = record {
  fits = Fits-SameStore store d.fits;
  forest = append_child_unchecked-IsForest link con acyclic;
  nodes = λ i h.
      let l : i < s.node_count = omega (arith, store.count_same) in
      record {
        payload =
            payload_kept store (s.nodes i) ((append_child_unchecked p c s).nodes i)
              (append_type s p c i) (append_aux s p c i) (append_payload s p c i)
              (append_value_flags s p c i) (d.nodes i l);
        key = key_kept store (append_key s p c i) (append_key_flags s p c i) (d.nodes i l).key;
      };
}
  where
    store : SameStore s (append_child_unchecked p c s)
    store = append-SameStore s p c

    other : c ≢ p
    other e =
        let (xs, w) = d.forest.rooted p hp in
        acyclic xs w (subst (λ k. k ∈ xs) (sym e) (first_mem w (id_ne_invalid p d.fits hp)))

    link : Linking s kids p c
    link = record {
      fits = d.fits;
      forest = d.forest;
      parent_lt = hp;
      child_lt = hc;
      distinct = other;
      child_root = root;
    }
