-- ===== src/Array/Add.antt =====
-- `Array::add` of src/array.cpp.
use slabjson.Prelude.{◌≡◌, refl, ◌⊎◌, inl, inr, true, arith}
use slabjson.Error.{Error, is_ok}
use slabjson.Result.{Outcome, ok, err}
use slabjson.Slab.{Slab, ValueType, Handle, no_string}
use slabjson.Container.{recorded}
use slabjson.Container.Status.{
  IsLive, BadStatus, not-BadStatus, failed_state, container_status_cases, recorded-err,
}
use slabjson.Container.Build.{Unchanged, failed_state-Unchanged, Unchanged-IsDocument}
use slabjson.Container.Attach.{attached, attached-IsDocument}
use slabjson.Forest.{Kids, with_child}
use slabjson.Forest.Ancestors.{Attachable, Refusal, not-Refusal, validate_attachment-Verdict}
use slabjson.Document.{IsDocument}
use slabjson.Array.{add, attach_item}

-- Why `add` refuses a child.
pub data AddError (s : Slab) (a child : Handle) (e : Error) : Type 0 where
  bad_status : BadStatus s a ValueType.array e → AddError s a child e
  refused : Refusal s a.id a.generation child ValueType.array e → AddError s a child e

-- How `add` ends: the child is attached, or nothing changes but the recorded error.
abbrev pub Adds : Slab → Handle → Handle → Outcome Slab (Unit {0}) → Type 0
Adds s a child r =
    ((is_ok s.error.code ≡ true)
      × IsLive s a ValueType.array
      × Attachable s a.id a.generation child ValueType.array
      × (r ≡ (ok tt, attached a.id child.id no_string 0 s)))
    ⊎ ((e : Error) × AddError s a child e × (r ≡ (err e, failed_state a e s)))

abbrev pub Ends : Slab → Kids → Handle → Handle → Outcome Slab (Unit {0}) → Type 0
Ends s kids a child r =
    ((is_ok s.error.code ≡ true)
      × Attachable s a.id a.generation child ValueType.array
      × (r.0 ≡ ok tt)
      × IsDocument r.1 (with_child kids a.id child.id))
    ⊎ ((e : Error) × AddError s a child e
        × (r ≡ (err e, failed_state a e s))
        × Unchanged s r.1
        × IsDocument r.1 kids)

module _ {s : Slab} {kids : Kids} (d : IsDocument s kids) (a child : Handle) where
  pub add_item-Adds : Adds s a child (add a child s)
  unfolding add attach_item recorded
  add_item-Adds = elim (container_status_cases s a ValueType.array) [
    | inr (e, why, st, rec) ↦ inr (e, bad_status why, ground arith)
    | inl (good, live, st) ↦
        elim (validate_attachment-Verdict d.forest a.id a.generation child ValueType.array) [
          | inr (e, why, v) ↦
              inr (e, refused why, ground (arith, recorded-err {A = Unit {0}} a e s))
          | inl (at, v) ↦ inl (good, live, at, rw (st, v, add))
        ]
  ]

  -- A child that can be attached is attached.
  pub add_item-attached :
      is_ok s.error.code ≡ true
      → IsLive s a ValueType.array
      → Attachable s a.id a.generation child ValueType.array
      → add a child s ≡ (ok tt, attached a.id child.id no_string 0 s)
  add_item-attached good live at = elim add_item-Adds [
    | inl (_, _, _, e) ↦ e
    | inr (e, bad_status why, _) ↦ absurd (not-BadStatus good live why)
    | inr (e, refused why, _) ↦ absurd (not-Refusal at why)
  ]

  -- In a document, `add` of a value to an array ends with the value as the last item of the array
  -- in a document again, or with an error for its reason, recorded through a handle that is not
  -- null, and the document as before.
  pub add_item-IsDocument : Ends s kids a child (add a child s)
  add_item-IsDocument = elim add_item-Adds [
    | inl (good, live, at, e) ↦
        let doc = attached-IsDocument no_string 0 d at tt (inl (refl, refl)) in
        inl (good, at, rw e, rw e doc)
    | inr (e, why, q) ↦
        let u = failed_state-Unchanged a e s in
        inr (e, why, q, rw q u, rw q (Unchanged-IsDocument d u))
  ]
