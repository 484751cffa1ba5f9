-- ===== src/Array.antt =====
-- src/array.cpp: arrays.
pub mod Add
pub mod Build
pub mod Read
pub mod RoundTrip
use slabjson.Prelude.{ℕ, zero, suc, Bool, Option, none, some, ◌==◌, if◌then◌else◌, is_some, ℤ}
use slabjson.Error.{Error, error_at, invalid_argument}
use slabjson.Result.{Result, Op, ok, err, and_then}
use slabjson.Utf8.{Bytes}
use slabjson.Slab.{
  array, Slab, invalid_node_id, no_string, node_for, modify, validate_attachment,
  append_child_unchecked, Value, Object, Array, make_value, make_null, make_bool, make_int64,
  make_uint64, make_double, make_string, make_object, make_array,
}
use slabjson.Value.{handle_node, typed_node}
use slabjson.Container
use slabjson.Container.{
  container_valid, container_clear_error, container_record_error, container_size, container_empty,
  begin_of, end_of, container_status, recorded, builder_add, Iterator, null_value,
}

-- `add(Value)`
unfoldable pub attach_item : Array → Value → Op Slab (Unit {0})
attach_item a child s = (
  ok tt,
  append_child_unchecked a.id child.id
      (modify child.id (λ n. record n { key = no_string; key_flags = 0 }) s),
)

unfoldable pub add : Array → Value → Op Slab (Unit {0})
add a child s = recorded a (
    and_then (container_status array a s, s)
      λ _ s.
        and_then (validate_attachment s a.id a.generation child array, s) λ _. attach_item a child)

-- The overloads that make the child.
abbrev add_made : Array → Op Slab Value → Op Slab (Unit {0})
add_made a create = builder_add (λ _. tt) array a create (add a)

unfoldable pub add_string : Array → Bytes → Op Slab (Unit {0})
add_string a value = add_made a (make_string value)

-- `add(const char*)`, with `none` for the null pointer.
unfoldable pub add_c_string : Array → Option Bytes → Op Slab (Unit {0})
add_c_string a text s = and_then (recorded a (container_status array a s, s)) λ _ s. elim text [
  | none ↦ recorded a (err (error_at invalid_argument 0), s)
  | some value ↦ add_string a value s
]

unfoldable pub add_bool : Array → Bool → Op Slab (Unit {0})
add_bool a value = add_made a (make_bool value)

unfoldable pub add_int64 : Array → ℤ → Op Slab (Unit {0})
add_int64 a value = add_made a (make_int64 value)

unfoldable pub add_uint64 : Array → ℕ → Op Slab (Unit {0})
add_uint64 a value = add_made a (make_uint64 value)

unfoldable pub add_double : Array → ℕ → Op Slab (Unit {0})
add_double a value = add_made a (make_double value)

unfoldable pub add_null : Array → Op Slab (Unit {0})
add_null a = add_made a make_null

unfoldable pub add_object : Array → Op Slab Object
add_object a = builder_add (λ c. c) array a make_object (add a)

unfoldable pub add_array : Array → Op Slab Array
add_array a = builder_add (λ c. c) array a make_array (add a)

-- The loop of `at`, on the index that is left.
unfoldable pub at_loop : Slab → ℕ → ℕ → ℕ → Option Value
at_loop s generation zero child =
    if child == invalid_node_id then none else some (make_value s child)
at_loop s generation (suc index) child =
    if child == invalid_node_id then none else elim (node_for s child generation) [
      | none ↦ none
      | some n ↦ at_loop s generation index n.next_sibling
    ]

unfoldable pub at : Slab → Array → ℕ → Option Value
at s a index = elim (typed_node s a array) [
  | none ↦ none
  | some n ↦ at_loop s a.generation index n.first_child
]

-- `*iterator`
unfoldable pub item : Slab → Iterator → Value
item s it = if is_some (handle_node s it) then it else null_value

-- `Array::valid`, `status`, `clear_error`, `record_error`, `size`, `empty`, `begin` and `end`
abbrev pub valid : Slab → Array → Bool
valid = container_valid array

abbrev pub status : Slab → Array → Result (Unit {0})
status s a = container_status array a s

abbrev pub clear_error : Array → Slab → Slab
clear_error = container_clear_error

abbrev pub record_error : Array → Error → Slab → Error × Slab
record_error = container_record_error

abbrev pub size : Slab → Array → ℕ
size = container_size array

abbrev pub empty : Slab → Array → Bool
empty = container_empty array

abbrev pub begin : Slab → Array → Iterator
begin = begin_of array

abbrev pub end : Array → Iterator
end = end_of

-- `value()` and `operator Value()`
abbrev pub value : Array → Value
value a = a

abbrev pub post_next : Slab → Iterator → Iterator × Iterator
post_next = Container.post_next
