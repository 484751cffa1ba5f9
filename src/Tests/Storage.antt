-- ===== src/Tests/Storage.antt =====
-- The theorems on the storage of a slab (src/slab.cpp) at the sample slab.
use slabjson.Prelude.{◌+◌, ◌%◌, ◌≤◌, ◌<◌, ◌≡◌, ◌⊎◌, sym, subst, true, false, none, arith}
use slabjson.Slab.{
  ValueType, initialize, align_pad, reset, make_string, allocate_node, allocate_string, checkpoint,
  rollback, view_string, StringRef,
}
use slabjson.Space.{
  Extends-refl, MakesString, make_string-MakesString, Allocates, allocate_node-Allocates,
  AllocatesString, allocate_string-AllocatesString, Stored, view_string-copy_string_trusted, copied,
  string_at, copied-Extends,
}
use slabjson.Value.{handle_node, as_int64, as_uint64, signed_of}
use slabjson.Value.Integers.{IsInt64, ReadsAlike, as_int64-as_uint64}
use slabjson.Forest.Basic.{no_kids}
use slabjson.Document.{IsDocument}
use slabjson.Document.Begin.{initialize-IsDocument, handle_node-stale}
use slabjson.Document.Make.{Grows}
use slabjson.Document.Preserve.{IsDocument-rollback}
use slabjson.Document.Scalar.{text, make_scalar, make_scalar-Grows}
use slabjson.Tests.Sample.{
  blank, empty, empty-IsDocument, the_object, the_root, other, with_root, with_object,
  with_object-IsDocument, empty_room, runs,
}

initialize-IsDocument_example :
    IsDocument (initialize 3 240 blank) no_kids
    × ((((initialize 3 240 blank).valid ≡ true)
          × (align_pad 3 + 24 ≤ 240)
          × ((initialize 3 240 blank).start % 8 ≡ 0)
          × (3 ≤ (initialize 3 240 blank).start)
          × ((initialize 3 240 blank).start + (initialize 3 240 blank).capacity ≤ 3 + 240))
        ⊎ (((initialize 3 240 blank).valid ≡ false) × (240 < align_pad 3 + 24)))
initialize-IsDocument_example = initialize-IsDocument 3 240 blank (omega arith) (omega arith)

handle_node-stale_example : handle_node (reset with_object) the_object ≡ none
handle_node-stale_example =
    handle_node-stale the_object with_object-IsDocument.fits (Extends-refl (reset with_object))
      (sym runs.generation_one)

make_string-MakesString_example : MakesString empty-IsDocument.fits other (make_string other empty)
make_string-MakesString_example = make_string-MakesString empty-IsDocument.fits other

make_scalar-Grows_example : Grows no_kids empty (make_scalar (text other) empty)
make_scalar-Grows_example = make_scalar-Grows empty-IsDocument (text other)

allocate_node-Allocates_example :
    Allocates ValueType.null empty (allocate_node ValueType.null empty)
allocate_node-Allocates_example = allocate_node-Allocates ValueType.null empty-IsDocument.fits

allocate_string-AllocatesString_example : AllocatesString 300 empty (allocate_string 300 empty)
allocate_string-AllocatesString_example = allocate_string-AllocatesString 300 empty-IsDocument.fits

view_string-copy_string_trusted_example :
    (view_string (copied other empty) (string_at empty 1) ≡ other)
    × ((r : StringRef) → Stored empty r → view_string (copied other empty) r ≡ view_string empty r)
view_string-copy_string_trusted_example =
    view_string-copy_string_trusted other empty-IsDocument.fits runs.text_copied

IsDocument-rollback_example : IsDocument (rollback (checkpoint empty) (copied other empty)) no_kids
IsDocument-rollback_example =
    IsDocument-rollback empty-IsDocument (copied-Extends other empty-IsDocument.fits empty_room)

as_int64-as_uint64_example : ReadsAlike (as_int64 with_root the_root) (as_uint64 with_root the_root)
as_int64-as_uint64_example = as_int64-as_uint64 with_root the_root (λ n e.
    let same : with_root.nodes 1 ≡ n = cc (runs.root_typed) in
    subst (λ n. IsInt64 (signed_of n.payload)) same
      (subst IsInt64 (sym runs.root_unsigned) (omega arith)))
