-- ===== src/Object/Add.antt =====
-- `Object::add` of src/object.cpp.
use slabjson.Prelude.{◌≡◌, ◌⊎◌, inl, inr, true, none, length, arith}
use slabjson.Error.{Error, is_ok}
use slabjson.Result.{Outcome, ok, err}
use slabjson.Utf8.{Bytes, invalid_utf8_offset}
use slabjson.Slab.{Slab, ValueType, Handle, string_flags}
use slabjson.Space.{StringRoom, string_at, copied}
use slabjson.Container.{recorded}
use slabjson.Container.Status.{
  IsLive, BadStatus, failed_state, container_status_cases, recorded-err,
}
use slabjson.Container.Build.{Unchanged, failed_state-Unchanged, Unchanged-IsDocument}
use slabjson.Container.Attach.{attached, attached-IsDocument}
use slabjson.Forest.{Kids, with_child}
use slabjson.Forest.Ancestors.{Attachable, Refusal, validate_attachment-Verdict}
use slabjson.Document.{IsDocument}
use slabjson.Document.Make.{Text-copied}
use slabjson.Document.Store.{KeyError, store_string_with_flags-Stores, copied-IsDocument}
use slabjson.Object.{add, attach_member}

-- Why `add` refuses a member.
pub data AddError (s : Slab) (o child : Handle) (key : Bytes) (e : Error) : Type 0 where
  bad_status : BadStatus s o ValueType.object e → AddError s o child key e
  refused : Refusal s o.id o.generation child ValueType.object e → AddError s o child key e
  bad_key : KeyError s key e → AddError s o child key e

-- The slab with the member: its key is stored, and it is the last child of the object.
abbrev pub with_member : Handle → Bytes → Handle → Slab → Slab
with_member o key child s =
    attached o.id child.id (string_at s (length key)) (string_flags key) (copied key s)

abbrev pub Adds : Slab → Handle → Bytes → Handle → Outcome Slab (Unit {0}) → Type 0
Adds s o key child r =
    ((is_ok s.error.code ≡ true)
      × IsLive s o ValueType.object
      × Attachable s o.id o.generation child ValueType.object
      × (invalid_utf8_offset key ≡ none)
      × StringRoom s (length key)
      × (r ≡ (ok tt, with_member o key child s)))
    ⊎ ((e : Error) × AddError s o child key e × (r ≡ (err e, failed_state o e s)))

abbrev pub Ends : Slab → Kids → Handle → Bytes → Handle → Outcome Slab (Unit {0}) → Type 0
Ends s kids o key child r =
    ((is_ok s.error.code ≡ true)
      × Attachable s o.id o.generation child ValueType.object
      × (invalid_utf8_offset key ≡ none)
      × (r.0 ≡ ok tt)
      × IsDocument r.1 (with_child kids o.id child.id))
    ⊎ ((e : Error) × AddError s o child key e
        × (r ≡ (err e, failed_state o e s))
        × Unchanged s r.1
        × IsDocument r.1 kids)

module _ {s : Slab} {kids : Kids} (d : IsDocument s kids) (o : Handle) (key : Bytes)
    (child : Handle) where
  pub add_member-Adds : Adds s o key child (add o key child s)
  unfolding add attach_member recorded
  add_member-Adds = elim (container_status_cases s o ValueType.object) [
    | inr (e, why, st, rec) ↦ inr (e, bad_status why, ground arith)
    | inl (good, live, st) ↦
        elim (validate_attachment-Verdict d.forest o.id o.generation child ValueType.object) [
          | inr (e, why, v) ↦
              inr (e, refused why, ground (arith, recorded-err {A = Unit {0}} o e s))
          | inl (at, v) ↦ elim (store_string_with_flags-Stores key d.fits live.1.0) [
            | inl (utf8, room, st') ↦ inl (good, live, at, utf8, room, rw (st, v, st', add))
            | inr (e, why, st') ↦
                inr (e, bad_key why, rw (st, v, st', add) (recorded-err {A = Unit {0}} o e s good))
          ]
        ]
  ]

  -- In a document, `add` of a value to an object ends with the value as the last member of the
  -- object in a document again, or with an error for its reason, recorded through a handle that is
  -- not null, and the document as before.
  pub add_member-IsDocument : Ends s kids o key child (add o key child s)
  add_member-IsDocument = elim add_member-Adds [
    | inl (good, live, at, utf8, room, e) ↦
        let at' : Attachable (copied key s) o.id o.generation child ValueType.object = record {
          parent_live = at.parent_live;
          parent_typed = at.parent_typed;
          same_slab = at.same_slab;
          child_live = at.child_live;
          child_root = at.child_root;
          acyclic = at.acyclic;
        } in
        let doc =
          attached-IsDocument (string_at s (length key)) (string_flags key)
            (copied-IsDocument key d room) at' tt (inr (Text-copied key d.fits room utf8)) in
        inl (good, at, utf8, rw e, rw e doc)
    | inr (e, why, q) ↦
        let u = failed_state-Unchanged o e s in
        inr (e, why, q, rw q u, rw q (Unchanged-IsDocument d u))
  ]
