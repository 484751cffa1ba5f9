-- ===== src/Object/Build.antt =====
-- The overloads of `Object::add` that make the member, and `add_object` and `add_array`
-- (src/object.cpp).
use slabjson.Prelude.{◌≡◌, refl, sym, ap, subst, ◌⊎◌, inl, inr, true, length}
use slabjson.Error.{Error, is_ok}
use slabjson.Result.{Op, ok, err}
use slabjson.Utf8.{Bytes}
use slabjson.Slab.{Slab, Node, ValueType, Handle, string_flags, make_object, make_array}
use slabjson.Container.{builder_add}
use slabjson.Container.Status.{IsLive, not-BadStatus, failed_state}
use slabjson.Container.Build.{Builds, builder_add-Builds}
use slabjson.Forest.{Kids, with_child}
use slabjson.Forest.Ancestors.{Attachable, not-Refusal}
use slabjson.Document.{IsDocument}
use slabjson.Document.Make.{Grows, make_object-Grows, make_array-Grows}
use slabjson.Document.Store.{KeyError}
use slabjson.Document.Scalar.{
  Scalar, text, boolean, signed, unsigned, floating, nothing, make_scalar, make_scalar-Grows,
}
use slabjson.Object.{
  add, add_string, add_bool, add_int64, add_uint64, add_double, add_null, add_object, add_array,
}
use slabjson.Document.Reads.{Holds}
use slabjson.Document.Made.{make_scalar-Made, made_object, made_array}
use slabjson.Document.Keeps.{Lasting, Holds-Lasting, OfType, OfType-Lasting}
use slabjson.Space.{string_at, copied, copied-Extends}
use slabjson.Object.Add.{add_member-Adds, add_member-IsDocument, bad_status, refused, bad_key}

-- The overload that C++ chooses for the argument.
unfoldable pub add_scalar : Handle → Bytes → Scalar → Op Slab (Unit {0})
unfolding add_string add_bool add_int64 add_uint64 add_double add_null
add_scalar o key (text value) = add_string o key value
add_scalar o key (boolean b) = add_bool o key b
add_scalar o key (signed i) = add_int64 o key i
add_scalar o key (unsigned u) = add_uint64 o key u
add_scalar o key (floating x) = add_double o key x
add_scalar o key nothing = add_null o key

pub add_scalar-builder_add :
    (o : Handle) (key : Bytes) (v : Scalar) (s : Slab)
    → add_scalar o key v s ≡ builder_add (λ _. tt) ValueType.object o (make_scalar v) (add o key) s
unfolding add_scalar make_scalar
add_scalar-builder_add o key (text value) s = refl
add_scalar-builder_add o key (boolean b) s = refl
add_scalar-builder_add o key (signed i) s = refl
add_scalar-builder_add o key (unsigned u) s = refl
add_scalar-builder_add o key (floating x) s = refl
add_scalar-builder_add o key nothing s = refl

-- Why the attachment of a new member fails: its key cannot be stored behind the new node.
abbrev pub KeyFails : Op Slab Handle → Bytes → Slab → Error → Type 0
KeyFails create key s e = KeyError (create s).1 key e

-- A member has the content that it had before `add`.
add-Lasting :
    {Content : Slab → Node → Type 0}
    → Lasting Content
    → {s : Slab} {kids : Kids} (o child : Handle) (key : Bytes) → IsDocument s kids
    → Content s (s.nodes child.id)
    → (add o key child s).0 ≡ ok tt
    → Content (add o key child s).1 ((add o key child s).1.nodes child.id)
add-Lasting {Content} lasting {s} o child key d held done = elim (add_member-Adds d o key child) [
  | inr (e, why, q) ↦ absurd (cc)
  | inl (good, live, at, utf8, room, q) ↦
      subst (λ t. Content t (t.nodes child.id)) (sym (ap (λ r. r.1) q))
        (lasting.attached_keeps o.id child.id (string_at s (length key)) (string_flags key)
          (copied key s) child.id
          (lasting.growth_keeps (s.nodes child.id) (copied-Extends key d.fits room)
            (d.nodes child.id at.child_live.2) held))
]

module _ (o : Handle) (key : Bytes) {s : Slab} {kids : Kids} (d : IsDocument s kids)
    (here : o.slab ≡ s.self) where
  attaches :
      {Content : Slab → Node → Type 0} (lasting : Lasting Content) (create : Op Slab Handle)
      (s' : Slab) (child : Handle)
      → Content s' (s'.nodes child.id)
      → create s ≡ (ok child, s')
      → IsDocument s' kids
      → is_ok s'.error.code ≡ true
      → IsLive s' o ValueType.object
      → Attachable s' o.id o.generation child ValueType.object
      → (((add o key child s').0 ≡ ok tt)
          × IsDocument (add o key child s').1 (with_child kids o.id child.id)
          × Content (add o key child s').1 ((add o key child s').1.nodes child.id))
        ⊎ ((e : Error) × KeyFails create key s e
            × (add o key child s' ≡ (err e, failed_state o e s')))
  attaches lasting create s' child held run doc good live at =
      elim (add_member-IsDocument doc o key child) [
        | inl (_, _, _, done, doc') ↦
            inl (done, doc', add-Lasting lasting o child key doc held done)
        | inr (e, bad_status why, _, _, _) ↦ absurd (not-BadStatus good live why)
        | inr (e, refused why, _, _, _) ↦ absurd (not-Refusal at why)
        | inr (e, bad_key why, failed, _, _) ↦
            inr (e, subst (λ t. KeyError t key e) (ap (λ r. r.1) (sym run)) why, failed)
      ]

  builds :
      {A : Type 0} (finish : Handle → A) (create : Op Slab Handle) {Content : Slab → Node → Type 0}
      → Lasting Content
      → ((child : Handle) (s' : Slab) → create s ≡ (ok child, s') → Content s' (s'.nodes child.id))
      → Grows kids s (create s)
      → Builds finish ValueType.object o create Content
          (KeyFails create key s)
          kids
          s
          (builder_add finish ValueType.object o create (add o key) s)
  builds finish create {Content} lasting made grows =
      builder_add-Builds finish ValueType.object o create (add o key) Content
        (KeyFails create key s) d here grows
        (λ s' child run. attaches lasting create s' child (made child s' run) run)

  -- In a document, `add` of a scalar to an object handle of the slab either makes the next node,
  -- which holds the scalar and is the last member of the live object; or it fails, keeps all that
  -- the slab held, holds no more, and records the error through a handle that is not null; the
  -- error is that of the status, of the making of the value, or of the storing of the key.
  pub add_member-Builds :
      (v : Scalar)
      → Builds
          (λ _. tt)
          ValueType.object
          o
          (make_scalar v)
          (Holds v)
          (KeyFails (make_scalar v) key s)
          kids
          s
          (add_scalar o key v s)
  add_member-Builds v = rw (add_scalar-builder_add o key v s) (
      builds (λ _. tt) (make_scalar v) (Holds-Lasting v)
        (λ child s' run. (make_scalar-Made d v child s' run).holds) (make_scalar-Grows d v))

  -- In a document, `add_object` of an object handle of the slab either makes the next node, which
  -- has the type of an object and is the last member of the live object, and returns its handle; or
  -- it fails, keeps all that the slab held, holds no more, and records the error through a handle
  -- that is not null; the error is that of the status, of the making, or of the storing of the key.
  pub add_member_object-Builds :
      Builds
        (λ c. c)
        ValueType.object
        o
        make_object
        (OfType ValueType.object)
        (KeyFails make_object key s)
        kids
        s
        (add_object o key s)
  unfolding add_object
  add_member_object-Builds =
      builds (λ c. c) make_object (OfType-Lasting ValueType.object) (made_object d)
        (make_object-Grows d)

  pub add_member_array-Builds :
      Builds
        (λ c. c)
        ValueType.object
        o
        make_array
        (OfType ValueType.array)
        (KeyFails make_array key s)
        kids
        s
        (add_array o key s)
  unfolding add_array
  add_member_array-Builds =
      builds (λ c. c) make_array (OfType-Lasting ValueType.array) (made_array d)
        (make_array-Grows d)
