-- ===== src/Object/Lookup.antt =====
-- What `find` returns after `Object::add` (src/object.cpp).
use slabjson.Prelude.{
  ℕ, ◌<◌, ◌≡◌, ◌≢◌, sym, ap, subst, ◌∙◌, inl, inr, Option, some, none, [], ◌∷◌, ◌++◌, length, ◌∈◌,
  mem-append, ◌==◌, if◌then◌else◌, arith,
}
use slabjson.Result.{ok}
use slabjson.Utf8.{Bytes}
use slabjson.Slab.{Slab, ValueType, Handle, make_value, view_string, no_string, string_flags}
use slabjson.Space.{
  StringRoom, string_at, copied, Extends, view_string-Extends, copied-Extends, view_string-copied,
}
use slabjson.Container.Status.{IsLive}
use slabjson.Forest.{Kids, with_child, parent_of}
use slabjson.Forest.Ancestors.{Attachable}
use slabjson.Forest.Basic.{kid-lt, id_ne_invalid}
use slabjson.Document.{IsDocument}
use slabjson.Document.Change.{SameStore, view_string-SameStore}
use slabjson.Document.Keeps.{attached-SameStore, attached_key, attached_type}
use slabjson.Object.{bytes_eq, find, add}
use slabjson.Object.Add.{with_member, add_member-Adds, add_member-IsDocument}
use slabjson.Object.Find.{
  key_of, NoneWith, Finds, find-Finds, bytes_eq_cases, FirstWith-append, FirstWith-new, Finds-first,
  Finds-none,
}

pub view_empty : (t : Slab) → view_string t no_string ≡ []
unfolding view_string
view_empty t = ground arith

module _ {s : Slab} {kids : Kids} (d : IsDocument s kids) (o child : Handle) (key : Bytes)
    (room : StringRoom s (length key)) where
  grown : Extends s (copied key s)
  grown = copied-Extends key d.fits room

  pub store : SameStore (copied key s) (with_member o key child s)
  store =
      attached-SameStore o.id child.id (string_at s (length key)) (string_flags key) (copied key s)

  -- The key of a node in the new state.
  key_ref :
      (i : ℕ)
      → ((with_member o key child s).nodes i).key
        ≡ (if i == child.id then string_at s (length key) else (s.nodes i).key)
  key_ref = attached_key o.id child.id (string_at s (length key)) (string_flags key) (copied key s)

  new_key : key_of (with_member o key child s) child.id ≡ key
  new_key =
      ap (view_string (with_member o key child s)) (key_ref child.id ∙ ground arith)
      ∙ view_string-SameStore store (string_at s (length key))
      ∙ view_string-copied key d.fits room

  old_key :
      (i : ℕ) → i < s.node_count → i ≢ child.id → key_of (with_member o key child s) i ≡ key_of s i
  old_key i h ne =
      ap (view_string (with_member o key child s)) same
      ∙ view_string-SameStore store (s.nodes i).key
      ∙ (elim (d.nodes i h).key [
        | inl (e, _) ↦
            ap (view_string (copied key s)) e
            ∙ view_empty (copied key s)
            ∙ sym (view_empty s)
            ∙ ap (view_string s) (sym e)
        | inr t ↦ view_string-Extends (s.nodes i).key grown t.stored
      ])
    where
      same : ((with_member o key child s).nodes i).key ≡ (s.nodes i).key
      same = key_ref i ∙ ground arith

pub make_value-same :
    (s t : Slab) (c : ℕ)
    → t.self ≡ s.self
    → t.generation ≡ s.generation
    → make_value t c ≡ make_value s c
unfolding make_value
make_value-same s t c e k = cc

make_value-handle :
    (t : Slab) (v : Handle) → v.slab ≡ t.self → v.generation ≡ t.generation → make_value t v.id ≡ v
unfolding make_value
make_value-handle t v e k = cc

-- The first if there is one, the second if there is none.
abbrev pub or_else : {A : Type 0} → Option A → Option A → Option A
or_else (some a) b = some a
or_else none b = b

-- In a document, after a successful `add` of a value under a key, a lookup of any key returns what
-- it returned before, or, if it returned nothing and the key is the new one, the added value.
pub find-add :
    {s : Slab} {kids : Kids}
    → IsDocument s kids
    → (o child : Handle) (key : Bytes) → (add o key child s).0 ≡ ok tt
    → (k : Bytes)
    → find (add o key child s).1 o k
      ≡ or_else (find s o k) (if bytes_eq key k then some child else none)
find-add {s} {kids} d o child key done k = elim (add_member-Adds d o key child) [
  | inr (e, why, q) ↦ absurd (cc)
  | inl (good, live, at, utf8, room, q) ↦
      subst (λ t. find t o k ≡ or_else (find s o k) (if bytes_eq key k then some child else none))
        (sym (ap (λ r. r.1) q))
        (found live at room (elim (add_member-IsDocument d o key child) [
          | inl (_, _, _, _, doc) ↦
              subst (λ t. IsDocument t (with_child kids o.id child.id)) (ap (λ r. r.1) q) doc
          | inr (e, why, q', _, _) ↦ absurd (cc)
        ]))
]
  where
    t : Slab
    t = with_member o key child s

    found :
        IsLive s o ValueType.object
        → Attachable s o.id o.generation child ValueType.object
        → StringRoom s (length key)
        → IsDocument t (with_child kids o.id child.id)
        → find t o k ≡ or_else (find s o k) (if bytes_eq key k then some child else none)
    found live at room doc = elim (find-Finds d o live k) [
      | inl (c, first, e) ↦
          Finds-first after (FirstWith-append s t k (child.id ∷ []) same first)
          ∙ ap some (make_value-same s t c st.self_same st.generation_same)
          ∙ ap (λ r. or_else r (if bytes_eq key k then some child else none)) (sym e)
      | inr (out, e) ↦ elim (bytes_eq_cases key k) [
        | inl (q, b) ↦
            Finds-first after
              (FirstWith-new s t k (kids o.id) child.id same out (new_key d o child key room ∙ q))
            ∙ ap some (
                make_value-handle t child (at.same_slab.1 ∙ sym st.self_same)
                  (at.child_live.1 ∙ sym st.generation_same))
            ∙ ground arith
        | inr (ne, b) ↦ Finds-none after (absent out ne) ∙ ground arith
      ]
    ]
      where
        st : SameStore (copied key s) t
        st = store d o child key room

        others : (i : ℕ) → i ∈ kids o.id → i ≢ child.id
        others i m e =
            id_ne_invalid o.id d.fits live.1.2
              (sym (d.forest.owned o.id i live.1.2 m) ∙ ap (parent_of s) e ∙ at.child_root)

        same : (i : ℕ) → i ∈ kids o.id → key_of t i ≡ key_of s i
        same i m = old_key d o child key room i (kid-lt d.forest o.id i live.1.2 m) (others i m)

        live' : IsLive t o ValueType.object
        live' = (
          live.0,
          (
            st.valid_same ∙ live.1.0,
            live.1.1 ∙ sym st.generation_same,
            omega (arith, st.count_same, live.1.2),
          ),
          attached_type o.id child.id (string_at s (length key)) (string_flags key) (copied key s)
                o.id
              ∙ live.2,
        )

        absent : NoneWith s k (kids o.id) → key ≢ k → NoneWith t k (kids o.id ++ (child.id ∷ []))
        absent out ne i m e = elim (mem-append i (kids o.id) (child.id ∷ []) m) [
          | inl old ↦ out i old (sym (same i old) ∙ e)
          | inr (inl q) ↦ ne (sym (new_key d o child key room) ∙ ap (key_of t) (sym q) ∙ e)
          | inr (inr none') ↦ none'
        ]

        after : Finds t k (kids o.id ++ (child.id ∷ [])) (find t o k)
        after = subst (λ xs. Finds t k xs (find t o k)) (ground arith) (find-Finds doc o live' k)
