-- ===== src/Container/Sticky.antt =====
-- The recorded error of a slab (src/slab.cpp) stops the overloads of `add` in src/array.cpp and
-- src/object.cpp, until it is cleared. `Object::remove` does not read it.
use slabjson.Prelude.{◌≡◌, ◌≢◌, ◌∙◌, true, false, arith}
use slabjson.Error.{Error, is_ok}
use slabjson.Result.{Op, err, and_then}
use slabjson.Utf8.{Bytes}
use slabjson.Slab.{Slab, ValueType, Handle, null_slab, record_error, status}
use slabjson.Container.{builder_add, container_status, container_record_error, recorded}
use slabjson.Document.Scalar.{Scalar, make_scalar}
use slabjson.Array.{add as array_add}
use slabjson.Array.Build.{add_scalar as array_add_scalar, add_scalar-builder_add as array_built}
use slabjson.Object.{add as object_add}
use slabjson.Object.Build.{add_scalar as object_add_scalar, add_scalar-builder_add as object_built}

-- The first error stays.
pub record_error-record_error :
    (s : Slab) (e e' : Error)
    → is_ok s.error.code ≡ true
    → is_ok e.code ≡ false
    → (record_error e' (record_error e s).1 ≡ (e, (record_error e s).1))
      × (status (record_error e s).1 ≡ err e)
unfolding record_error status
record_error-record_error s e e' good bad = ground arith

module _ (s : Slab) (c : Handle) (bad : is_ok s.error.code ≡ false) (nz : c.slab ≢ null_slab) where
  status_recorded :
      {A : Type 0} (type : ValueType) (rest : Unit {0} → Op Slab A)
      → and_then (recorded c (container_status type c s, s)) rest ≡ (err s.error, s)
  unfolding recorded container_status status container_record_error record_error
  status_recorded type rest = ground arith

  pub builder_add-stopped :
      {A : Type 0} (finish : Handle → A) (type : ValueType) (create : Op Slab Handle)
      (attach : Handle → Op Slab (Unit {0}))
      → builder_add finish type c create attach s ≡ (err s.error, s)
  unfolding builder_add
  builder_add-stopped finish type create attach = status_recorded type _

-- While an error is recorded in the slab of a handle, `add` of any scalar to an array or an object
-- fails with that error and changes nothing.
pub add_scalar-stopped :
    (s : Slab) (c : Handle)
    → is_ok s.error.code ≡ false
    → c.slab ≢ null_slab
    → (v : Scalar) (key : Bytes)
    → (array_add_scalar c v s ≡ (err s.error, s)) × (object_add_scalar c key v s ≡ (err s.error, s))
add_scalar-stopped s c bad nz v key = (
  array_built c v s
      ∙ builder_add-stopped s c bad nz (λ _. tt) ValueType.array (make_scalar v) (array_add c),
  object_built c key v s
      ∙ builder_add-stopped s c bad nz (λ _. tt) ValueType.object (make_scalar v)
          (object_add c key),
)
