-- ===== src/Object/Remove.antt =====
-- `Object::remove` of src/object.cpp.
use slabjson.Prelude.{
  ℕ, zero, suc, ◌+◌, ◌<◌, ◌≡◌, ◌≢◌, refl, sym, ap, subst, ◌∙◌, ◌⊎◌, inl, inr, true, some, none,
  List, [], ◌∷◌, ◌++◌, length, last_or, last_or-append, append_assoc, arith, ℕ_discrete, Bool-cases,
}
use slabjson.Prelude.Walk.{Walk-length, end_walk, visit}
use slabjson.Error.{Error, error_at, not_found, invalid_handle, type_mismatch}
use slabjson.Result.{Outcome, ok, err}
use slabjson.Utf8.{Bytes}
use slabjson.Slab.{Slab, ValueType, Handle, invalid_node_id, modify, no_string, null_slab, type_eq}
use slabjson.Value.{handle_node}
use slabjson.Container.Status.{IsLive}
use slabjson.Forest.{Chain, Kids, next_of, parent_of}
use slabjson.Forest.Basic.{node_for_live}
use slabjson.Forest.Ancestors.{LiveAt, node_for_cases, type_eq_iff}
use slabjson.Forest.Unlink.{Unlinking, without_child, unlink_content, unlink_parent}
use slabjson.Forest.Detach.{unlink-IsForest}
use slabjson.Document.{IsDocument}
use slabjson.Document.Change.{SameStore, Fits-SameStore, payload_kept, key_kept}
use slabjson.Object.{unlink, remove_loop, remove}
use slabjson.Object.Find.{key_of, FirstWith, here, there, NoneWith, bytes_eq_cases}

pub unlink-SameStore : (s : Slab) (p previous c : ℕ) → SameStore s (unlink p previous c s)
unfolding unlink modify
unlink-SameStore s p previous c = ground arith

pub unlink-IsDocument :
    {s : Slab} {kids : Kids} {p c : ℕ} {front back : List ℕ}
    → IsDocument s kids
    → Unlinking s kids p c front back
    → IsDocument (unlink p (last_or invalid_node_id front) c s) (without_child kids p c)
unlink-IsDocument {s} {kids} {p} {c} {front} d u = record {
  fits = Fits-SameStore store d.fits;
  forest = unlink-IsForest u;
  nodes = λ i h.
      let l : i < s.node_count = omega (arith, store.count_same) in
      let (type, aux, payload, vflags, kflags, key) =
        unlink_content s p (last_or invalid_node_id front) c i in
      record {
        payload = payload_kept store (s.nodes i) (t.nodes i) type aux payload vflags (d.nodes i l);
        key = elim (ℕ_discrete i c) [
          | yes e ↦ inl (key ∙ ground arith, kflags ∙ ground arith)
          | no ne ↦ key_kept store (key ∙ ground arith) (kflags ∙ ground arith) (d.nodes i l).key
        ];
      };
}
  where
    t : Slab
    t = unlink p (last_or invalid_node_id front) c s

    store : SameStore s t
    store = unlink-SameStore s p (last_or invalid_node_id front) c

-- The loop removes the first member with the key, whatever it has passed before.
abbrev LoopRemoves : Slab → Kids → ℕ → Bytes → List ℕ → Outcome Slab (Unit {0}) → Type 0
LoopRemoves s kids p key xs r =
    ((c : ℕ) × (front : List ℕ) × (back : List ℕ) × FirstWith s key xs c
      × (kids p ≡ front ++ (c ∷ back))
      × (r ≡ (ok tt, unlink p (last_or invalid_node_id front) c s)))
    ⊎ (NoneWith s key xs × (r ≡ (err (error_at not_found 0), s)))

remove_loop-LoopRemoves :
    (s : Slab) (kids : Kids) (p generation : ℕ) (key : Bytes) (fuel child : ℕ) (front xs : List ℕ)
    → s.valid ≡ true
    → generation ≡ s.generation
    → Chain s child xs
    → kids p ≡ front ++ xs
    → length xs < fuel
    → LoopRemoves s kids p key xs
        (remove_loop p generation key fuel (last_or invalid_node_id front) child s)
unfolding remove_loop
remove_loop-LoopRemoves s kids p generation key zero child front xs v e w q l = absurd (omega arith)
remove_loop-LoopRemoves s kids p generation key (suc fuel) child front xs v e (end_walk d) q l =
    inr (λ c m. absurd m, ground arith)
remove_loop-LoopRemoves s kids p generation key (suc fuel) child front xs v e
      (visit {xs = ys} d b w) q l =
    elim (bytes_eq_cases (key_of s child) key) [
      | inl (k, t) ↦
          inl (child, front, ys, here k, q, ground (arith, node_for_live s child generation v e b))
      | inr (ne, f) ↦
          let step : remove_loop p generation key (suc fuel) (last_or invalid_node_id front) child s
              ≡ remove_loop p generation key fuel child (next_of s child) s =
            ground (arith, node_for_live s child generation v e b) in
          elim (subst
            (λ k.
              LoopRemoves s kids p key ys (remove_loop p generation key fuel k (next_of s child) s))
            (last_or-append invalid_node_id front child)
            (remove_loop-LoopRemoves s kids p generation key fuel (next_of s child)
              (front ++ (child ∷ [])) ys v e w (q ∙ sym (append_assoc front (child ∷ []) ys))
              (omega arith))) [
                | inl (c, fr, bk, first, cut, r) ↦ inl (c, fr, bk, there ne first, cut, step ∙ r)
                | inr (out, r) ↦ inr (
                  λ c m. elim m [ inl i ↦ λ k. ne (ap (key_of s) (sym i) ∙ k) | inr m' ↦ out c m' ],
                  step ∙ r,
                )
              ]
    ]

-- Why a removal fails.
pub data RemoveError (s : Slab) (kids : Kids) (o : Handle) (key : Bytes) : Error → Type 0 where
  dead_object :
      (o.slab ≡ null_slab) ⊎ (¬ (LiveAt s o.id o.generation))
      → RemoveError s kids o key (error_at invalid_handle 0)
  not_object :
      LiveAt s o.id o.generation
      → (s.nodes o.id).type ≢ ValueType.object
      → RemoveError s kids o key (error_at type_mismatch 0)
  no_member : NoneWith s key (kids o.id) → RemoveError s kids o key (error_at not_found 0)

-- A node's value is as it was.
abbrev pub SameValue : Slab → Slab → ℕ → Type 0
SameValue s t i =
    ((t.nodes i).type ≡ (s.nodes i).type)
    × ((t.nodes i).aux ≡ (s.nodes i).aux)
    × ((t.nodes i).payload ≡ (s.nodes i).payload)
    × ((t.nodes i).value_flags ≡ (s.nodes i).value_flags)

-- A node's key is as it was.
abbrev pub SameKey : Slab → Slab → ℕ → Type 0
SameKey s t i =
    ((t.nodes i).key ≡ (s.nodes i).key) × ((t.nodes i).key_flags ≡ (s.nodes i).key_flags)

-- `remove` takes the first member with the key out of the object, which keeps the order of the
-- others, and makes it a root without a key; the slab is the same but for its nodes, all nodes keep
-- their values and all others their keys; or it fails for the reason that its error names, and
-- changes nothing.
abbrev pub Removes : Slab → Kids → Handle → Bytes → Outcome Slab (Unit {0}) → Type 0
Removes s kids o key r =
    ((c : ℕ) × IsLive s o ValueType.object
      × FirstWith s key (kids o.id) c
      × (r.0 ≡ ok tt)
      × IsDocument r.1 (without_child kids o.id c)
      × (parent_of r.1 c ≡ invalid_node_id)
      × ((r.1.nodes c).key ≡ no_string)
      × SameStore s r.1
      × ((i : ℕ) → SameValue s r.1 i)
      × ((i : ℕ) → i ≢ c → SameKey s r.1 i))
    ⊎ ((e : Error) × RemoveError s kids o key e × (r ≡ (err e, s)))

unlinked_value : (s : Slab) (p previous c i : ℕ) → SameValue s (unlink p previous c s) i
unlinked_value s p previous c i =
    let (type, aux, payload, flags, _, _) = unlink_content s p previous c i in
    (type, aux, payload, flags)

unlinked_key : (s : Slab) (p previous c i : ℕ) → i ≢ c → SameKey s (unlink p previous c s) i
unlinked_key s p previous c i other =
    let (_, _, _, _, flags, key) = unlink_content s p previous c i in
    (key ∙ ground arith, flags ∙ ground arith)

handle_node_cases :
    (s : Slab) (c : Handle)
    → ((c.slab ≢ null_slab) × LiveAt s c.id c.generation × (handle_node s c ≡ some (s.nodes c.id)))
      ⊎ (((c.slab ≡ null_slab) ⊎ (¬ (LiveAt s c.id c.generation))) × (handle_node s c ≡ none))
unfolding handle_node
handle_node_cases s c = ground (arith, node_for_cases s c.id c.generation)

-- The member that goes, with those before and behind it, and the state without it.
abbrev pub Unlinks : Slab → Kids → Handle → Bytes → Outcome Slab (Unit {0}) → Type 0
Unlinks s kids o key r =
    (c : ℕ) × (front : List ℕ) × (back : List ℕ) × IsLive s o ValueType.object
    × FirstWith s key (kids o.id) c
    × Unlinking s kids o.id c front back
    × (r ≡ (ok tt, unlink o.id (last_or invalid_node_id front) c s))

pub remove-Unlinks :
    {s : Slab} {kids : Kids}
    → IsDocument s kids
    → (o : Handle) (key : Bytes)
    → Unlinks s kids o key (remove o key s)
      ⊎ ((e : Error) × RemoveError s kids o key e × (remove o key s ≡ (err e, s)))
unfolding remove
remove-Unlinks {s} {kids} d o key = elim (handle_node_cases s o) [
  | inr (dead, e) ↦ inr (error_at invalid_handle 0, dead_object dead, rw (e, remove) refl)
  | inl (nz, live, e) ↦ elim (Bool-cases (type_eq (s.nodes o.id).type ValueType.object)) [
    | inr f ↦ inr (
      error_at type_mismatch 0,
      not_object live (λ k. ground (arith, type_eq_iff (s.nodes o.id).type ValueType.object)),
      rw (e, f, remove) refl,
    )
    | inl t ↦
        let typed = (type_eq_iff (s.nodes o.id).type ValueType.object).0 t in
        let w : Chain s (s.nodes o.id).first_child (kids o.id) = d.forest.chained o.id live.2 in
        elim (remove_loop-LoopRemoves s kids o.id o.generation key (s.node_count + 1)
          (s.nodes o.id).first_child [] (kids o.id) live.0 live.1 w refl
          (omega (arith, Walk-length w))) [
            | inr (out, r) ↦ inr (error_at not_found 0, no_member out, rw (e, t, remove) r)
            | inl (c, front, back, first, cut, r) ↦
                let u : Unlinking s kids o.id c front back = record {
                  fits = d.fits;
                  forest = d.forest;
                  parent_lt = live.2;
                  split = cut;
                } in
                inl (c, front, back, (nz, live, typed), first, u, rw (e, t, remove) r)
          ]
  ]
]

-- In a document, `remove` takes the first member with the key out of a live object: the other
-- members keep their order, the member is a root without a key, every node keeps its value, every
-- other node keeps its key, and the stored texts, the counts and the recorded error are the same.
-- Otherwise `remove` changes nothing and its error names the reason: a dead handle, no object, or
-- no member with the key.
pub remove-Removes :
    {s : Slab} {kids : Kids}
    → IsDocument s kids
    → (o : Handle) (key : Bytes) → Removes s kids o key (remove o key s)
remove-Removes {s} {kids} d o key = elim (remove-Unlinks d o key) [
  | inr failed ↦ inr failed
  | inl (c, front, back, live, first, u, r) ↦
      let previous = last_or invalid_node_id front in
      inl (
        c,
        live,
        first,
        ap (λ r. r.0) r,
        subst (λ t. IsDocument t (without_child kids o.id c)) (sym (ap (λ r. r.1) r))
            (unlink-IsDocument d u),
        ap (λ r. parent_of r.1 c) r ∙ unlink_parent s o.id previous c c ∙ ground arith,
        ap (λ r. (r.1.nodes c).key) r ∙ (unlink_content s o.id previous c c).5 ∙ ground arith,
        subst (SameStore s) (sym (ap (λ r. r.1) r)) (unlink-SameStore s o.id previous c),
        λ i.
            subst (λ t. SameValue s t i) (sym (ap (λ r. r.1) r))
              (unlinked_value s o.id previous c i),
        λ i other.
            subst (λ t. SameKey s t i) (sym (ap (λ r. r.1) r))
              (unlinked_key s o.id previous c i other),
      )
]
