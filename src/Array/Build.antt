-- ===== src/Array/Build.antt =====
-- The overloads of `Array::add` that make the item, and `add_object` and `add_array` (src/array.cpp).
use slabjson.Prelude.{◌≡◌, refl, inl}
use slabjson.Result.{Op, ok}
use slabjson.Slab.{Slab, Node, ValueType, Handle, no_string, make_object, make_array}
use slabjson.Container.{builder_add}
use slabjson.Container.Attach.{attached-IsDocument}
use slabjson.Container.Build.{Builds, builder_add-Builds}
use slabjson.Forest.{Kids}
use slabjson.Document.{IsDocument}
use slabjson.Document.Make.{Grows, make_object-Grows, make_array-Grows}
use slabjson.Document.Scalar.{
  Scalar, text, boolean, signed, unsigned, floating, nothing, make_scalar, make_scalar-Grows,
}
use slabjson.Array.{
  add, add_string, add_bool, add_int64, add_uint64, add_double, add_null, add_object, add_array,
}
use slabjson.Document.Reads.{Holds}
use slabjson.Document.Made.{make_scalar-Made, made_object, made_array}
use slabjson.Document.Keeps.{Lasting, Holds-Lasting, OfType, OfType-Lasting}
use slabjson.Array.Add.{add_item-attached}

-- The overload that C++ chooses for the argument.
unfoldable pub add_scalar : Handle → Scalar → Op Slab (Unit {0})
unfolding add_string add_bool add_int64 add_uint64 add_double add_null
add_scalar a (text value) = add_string a value
add_scalar a (boolean b) = add_bool a b
add_scalar a (signed i) = add_int64 a i
add_scalar a (unsigned u) = add_uint64 a u
add_scalar a (floating x) = add_double a x
add_scalar a nothing = add_null a

pub add_scalar-builder_add :
    (a : Handle) (v : Scalar) (s : Slab)
    → add_scalar a v s ≡ builder_add (λ _. tt) ValueType.array a (make_scalar v) (add a) s
unfolding add_scalar make_scalar
add_scalar-builder_add a (text value) s = refl
add_scalar-builder_add a (boolean b) s = refl
add_scalar-builder_add a (signed i) s = refl
add_scalar-builder_add a (unsigned u) s = refl
add_scalar-builder_add a (floating x) s = refl
add_scalar-builder_add a nothing s = refl

module _ (a : Handle) {s : Slab} {kids : Kids} (d : IsDocument s kids)
    (here : a.slab ≡ s.self) where
  -- The attachment of a new item never fails.
  builds :
      {A : Type 0} (finish : Handle → A) (create : Op Slab Handle) {Content : Slab → Node → Type 0}
      → Lasting Content
      → ((child : Handle) (s' : Slab) → create s ≡ (ok child, s') → Content s' (s'.nodes child.id))
      → Grows kids s (create s)
      → Builds finish ValueType.array a create Content
          (λ e. ⊥)
          kids
          s
          (builder_add finish ValueType.array a create (add a) s)
  builds finish create {Content} lasting made grows =
      builder_add-Builds finish ValueType.array a create (add a) Content (λ e. ⊥) d here grows
        λ s' child run doc good live at.
          let e = add_item-attached doc a child good live at in
          inl (
            rw e,
            rw e (attached-IsDocument no_string 0 doc at tt (inl (refl, refl))),
            rw e (lasting.attached_keeps a.id child.id no_string 0 s' child.id (made child s' run)),
          )

  -- In a document, `add` of a scalar to an array handle of the slab either makes the next node,
  -- which holds the scalar and is the last item of the live array; or it fails, keeps all that the
  -- slab held, holds no more, and records the error through a handle that is not null; the error is
  -- that of the status or of the making of the value: the attachment never fails.
  pub add_item-Builds :
      (v : Scalar)
      → Builds
          (λ _. tt)
          ValueType.array
          a
          (make_scalar v)
          (Holds v)
          (λ e. ⊥)
          kids
          s
          (add_scalar a v s)
  add_item-Builds v = rw (add_scalar-builder_add a v s) (
      builds (λ _. tt) (make_scalar v) (Holds-Lasting v)
        (λ child s' run. (make_scalar-Made d v child s' run).holds) (make_scalar-Grows d v))

  pub add_item_object-Builds :
      Builds
        (λ c. c)
        ValueType.array
        a
        make_object
        (OfType ValueType.object)
        (λ e. ⊥)
        kids
        s
        (add_object a s)
  unfolding add_object
  add_item_object-Builds =
      builds (λ c. c) make_object (OfType-Lasting ValueType.object) (made_object d)
        (make_object-Grows d)

  -- In a document, `add_array` of an array handle of the slab either makes the next node, which has
  -- the type of an array and is the last item of the live array, and returns its handle; or it
  -- fails, keeps all that the slab held, holds no more, and records the error through a handle that
  -- is not null; the error is that of the status or of the making.
  pub add_item_array-Builds :
      Builds
        (λ c. c)
        ValueType.array
        a
        make_array
        (OfType ValueType.array)
        (λ e. ⊥)
        kids
        s
        (add_array a s)
  unfolding add_array
  add_item_array-Builds =
      builds (λ c. c) make_array (OfType-Lasting ValueType.array) (made_array d)
        (make_array-Grows d)
