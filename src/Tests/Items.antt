-- ===== src/Tests/Items.antt =====
-- The theorems on arrays (src/array.cpp) at the sample array.
use slabjson.Prelude.{arith, ℕ, ◌≡◌, refl, sym}
use slabjson.Error.{error_at, out_of_memory}
use slabjson.Result.{err}
use slabjson.Slab.{ValueType, Handle, make_array}
use slabjson.Container.Build.{Builds}
use slabjson.Container.Sticky.{add_scalar-stopped}
use slabjson.Forest.{with_child}
use slabjson.Forest.Basic.{no_kids}
use slabjson.Document.Scalar.{text, unsigned, make_scalar}
use slabjson.Document.Reads.{ReadsAs}
use slabjson.Array.{add, add_array, at}
use slabjson.Array.Add.{Ends, add_item-IsDocument}
use slabjson.Document.Reads.{Holds}
use slabjson.Document.Keeps.{OfType}
use slabjson.Array.Build.{add_scalar, add_item-Builds, add_item_array-Builds}
use slabjson.Array.Read.{value_at, at-kids}
use slabjson.Array.RoundTrip.{appended, at-add}
use slabjson.Object.Build.{add_scalar as add_member}
use slabjson.Tests.Sample.{
  runs, live, the_object, key, other, with_array, with_item, with_array-IsDocument,
  with_item-IsDocument, full,
}

at-add_example :
    (w : Handle) × ReadsAs (text other) with_item w
    × ((i : ℕ) → at with_item the_object i ≡ appended 0 (at with_array the_object) w i)
at-add_example =
    at-add with_array-IsDocument the_object (text other) (sym runs.array_here) runs.item_added

add_item-Builds_example :
    Builds
      (λ _. tt)
      ValueType.array
      the_object
      (make_scalar (text other))
      (Holds (text other))
      (λ e. ⊥)
      no_kids
      with_array
      (add_scalar the_object (text other) with_array)
add_item-Builds_example =
    add_item-Builds the_object with_array-IsDocument (sym runs.array_here) (text other)

add_item_array-Builds_example :
    Builds
      (λ c. c)
      ValueType.array
      the_object
      make_array
      (OfType ValueType.array)
      (λ e. ⊥)
      (with_child no_kids 0 1)
      with_item
      (add_array the_object with_item)
add_item_array-Builds_example =
    add_item_array-Builds the_object with_item-IsDocument (sym runs.item_here)

-- The array cannot be its own item.
add_item-IsDocument_example :
    Ends with_array no_kids the_object the_object (add the_object the_object with_array)
add_item-IsDocument_example = add_item-IsDocument with_array-IsDocument the_object the_object

at-kids_example : at with_item the_object 0 ≡ value_at with_item (with_child no_kids 0 1 0) 0
at-kids_example =
    at-kids with_item-IsDocument the_object
      (live with_item the_object ValueType.array (with_item.nodes 0) runs.item_live) 0

add_scalar-stopped_example :
    (add_scalar the_object (unsigned 1) full ≡ (err (error_at out_of_memory 0), full))
    × (add_member the_object key (unsigned 1) full ≡ (err (error_at out_of_memory 0), full))
add_scalar-stopped_example = add_scalar-stopped full the_object refl (omega arith) (unsigned 1) key
