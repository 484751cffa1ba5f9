-- ===== src/Object.antt =====
-- src/object.cpp: objects.
pub mod Add
pub mod Build
pub mod Find
pub mod Remove
pub mod Removed
pub mod Lookup
pub mod RoundTrip
use slabjson.Prelude.{
  ℕ, zero, suc, ◌+◌, Bool, true, false, ◌&&◌, Option, none, some, [], ◌∷◌, ◌==◌, if◌then◌else◌,
  is_some, ℤ,
}
use slabjson.Error.{
  Error, error_at, invalid_argument, invalid_handle, not_found, type_mismatch, internal_error,
}
use slabjson.Result.{Result, Op, ok, err, and_then}
use slabjson.Utf8.{Bytes}
use slabjson.Slab.{
  object, Slab, StoredString, invalid_node_id, no_string, type_eq, node_for, modify, view_string,
  store_string_with_flags, validate_attachment, append_child_unchecked, Value, Object, Array,
  make_value, make_null, make_bool, make_int64, make_uint64, make_double, make_string, make_object,
  make_array,
}
use slabjson.Value.{
  handle_node, typed_node, as_bool, as_int64, as_uint64, as_number, as_string, as_array, as_object,
}
use slabjson.Container
use slabjson.Container.{
  container_valid, container_clear_error, container_record_error, container_size, container_empty,
  begin_of, end_of, container_status, recorded, builder_add, Iterator, null_value,
}

unfoldable pub attach_member : Object → Value → StoredString → Op Slab (Unit {0})
attach_member o child key s = (
  ok tt,
  append_child_unchecked o.id child.id
      (modify child.id (λ n. record n { key = key.ref; key_flags = key.flags }) s),
)

-- `add(key, Value)`
unfoldable pub add : Object → Bytes → Value → Op Slab (Unit {0})
add o key child s = recorded o (
    and_then (container_status object o s, s)
      λ _ s.
        and_then (validate_attachment s o.id o.generation child object, s)
          λ _ s. and_then (store_string_with_flags key s) (attach_member o child))

-- The overloads that make the child.
abbrev add_made : Object → Bytes → Op Slab Value → Op Slab (Unit {0})
add_made o key create = builder_add (λ _. tt) object o create (add o key)

unfoldable pub add_string : Object → Bytes → Bytes → Op Slab (Unit {0})
add_string o key value = add_made o key (make_string value)

-- `add(key, const char*)`, with `none` for the null pointer.
unfoldable pub add_c_string : Object → Bytes → Option Bytes → Op Slab (Unit {0})
add_c_string o key text s = and_then (recorded o (container_status object o s, s)) λ _ s.
    elim text [
      | none ↦ recorded o (err (error_at invalid_argument 0), s)
      | some value ↦ add_string o key value s
    ]

unfoldable pub add_bool : Object → Bytes → Bool → Op Slab (Unit {0})
add_bool o key value = add_made o key (make_bool value)

unfoldable pub add_int64 : Object → Bytes → ℤ → Op Slab (Unit {0})
add_int64 o key value = add_made o key (make_int64 value)

unfoldable pub add_uint64 : Object → Bytes → ℕ → Op Slab (Unit {0})
add_uint64 o key value = add_made o key (make_uint64 value)

unfoldable pub add_double : Object → Bytes → ℕ → Op Slab (Unit {0})
add_double o key value = add_made o key (make_double value)

unfoldable pub add_null : Object → Bytes → Op Slab (Unit {0})
add_null o key = add_made o key make_null

unfoldable pub add_object : Object → Bytes → Op Slab Object
add_object o key = builder_add (λ c. c) object o make_object (add o key)

unfoldable pub add_array : Object → Bytes → Op Slab Array
add_array o key = builder_add (λ c. c) object o make_array (add o key)

-- `==` of two string views.
unfoldable pub bytes_eq : Bytes → Bytes → Bool
bytes_eq [] [] = true
bytes_eq [] (y ∷ ys) = false
bytes_eq (x ∷ xs) [] = false
bytes_eq (x ∷ xs) (y ∷ ys) = x == y && bytes_eq xs ys

-- Each loop goes down a child list, so `node_count + 1` rounds are enough (Object/Find.antt).
unfoldable pub find_loop : Slab → ℕ → Bytes → ℕ → ℕ → Option Value
find_loop s generation key zero child = none
find_loop s generation key (suc fuel) child =
    if child == invalid_node_id then none else elim (node_for s child generation) [
      | none ↦ none
      | some n ↦ elim (bytes_eq (view_string s n.key) key) [
        | true ↦ some (make_value s child)
        | false ↦ find_loop s generation key fuel n.next_sibling
      ]
    ]

unfoldable pub find : Slab → Object → Bytes → Option Value
find s o key = elim (typed_node s o object) [
  | none ↦ none
  | some n ↦ find_loop s o.generation key (s.node_count + 1) n.first_child
]

unfoldable pub contains : Slab → Object → Bytes → Bool
contains s o key = is_some (find s o key)

unfoldable pub find_required : Slab → Object → Bytes → Result Value
find_required s o key =
    if container_valid object s o
    then elim (find s o key) [ none ↦ err (error_at not_found 0) | some v ↦ ok v ]
    else err (error_at invalid_handle 0)

-- The typed getters: the member, and its conversion.
unfoldable pub get_with : {A : Type 0} → (Value → Option A) → Slab → Object → Bytes → Result A
get_with convert s o key = elim (find_required s o key) [
  | err e ↦ err e
  | ok v ↦ elim (convert v) [ none ↦ err (error_at type_mismatch 0) | some a ↦ ok a ]
]

unfoldable pub get_string : Slab → Object → Bytes → Result Bytes
get_string s = get_with (as_string s) s

unfoldable pub get_bool : Slab → Object → Bytes → Result Bool
get_bool s = get_with (as_bool s) s

unfoldable pub get_int64 : Slab → Object → Bytes → Result ℤ
get_int64 s = get_with (as_int64 s) s

unfoldable pub get_uint64 : Slab → Object → Bytes → Result ℕ
get_uint64 s = get_with (as_uint64 s) s

unfoldable pub get_number : (ℤ → ℕ) → (ℕ → ℕ) → Slab → Object → Bytes → Result ℕ
get_number cast_signed cast_unsigned s = get_with (as_number cast_signed cast_unsigned s) s

unfoldable pub get_object : Slab → Object → Bytes → Result Object
get_object s = get_with (as_object s) s

unfoldable pub get_array : Slab → Object → Bytes → Result Array
get_array s = get_with (as_array s) s

-- The writes that take `child` out of the list, behind `previous` or at its head.
unfoldable pub unlink : ℕ → ℕ → ℕ → Slab → Slab
unlink object_id previous child s =
    let after = (s.nodes child).next_sibling in
    let relinked =
      if previous == invalid_node_id
      then modify object_id (λ n. record n { first_child = after }) s
      else modify previous (λ n. record n { next_sibling = after }) s in
    let shortened =
      if (relinked.nodes object_id).last_child == child
      then modify object_id (λ n. record n { last_child = previous }) relinked
      else relinked in
    modify child
      (λ n. record n {
        parent = invalid_node_id;
        next_sibling = invalid_node_id;
        key = no_string;
        key_flags = 0;
      })
      shortened

unfoldable pub remove_loop : ℕ → ℕ → Bytes → ℕ → ℕ → ℕ → Op Slab (Unit {0})
remove_loop object_id generation key zero previous child s = (err (error_at internal_error 0), s)
remove_loop object_id generation key (suc fuel) previous child s =
    if child == invalid_node_id
    then (err (error_at not_found 0), s)
    else elim (node_for s child generation) [
      | none ↦ (err (error_at internal_error 0), s)
      | some n ↦ elim (bytes_eq (view_string s n.key) key) [
        | true ↦ (ok tt, unlink object_id previous child s)
        | false ↦ remove_loop object_id generation key fuel child n.next_sibling s
      ]
    ]

unfoldable pub remove : Object → Bytes → Op Slab (Unit {0})
remove o key s = elim (handle_node s o) [
  | none ↦ (err (error_at invalid_handle 0), s)
  | some n ↦
      if type_eq n.type object
      then remove_loop o.id o.generation key (s.node_count + 1) invalid_node_id n.first_child s
      else (err (error_at type_mismatch 0), s)
]

pub record ObjectMember : Type 0 where
  pub key : Bytes
  pub value : Value

-- `*iterator`
unfoldable pub member : Slab → Iterator → ObjectMember
member s it = elim (handle_node s it) [
  | none ↦ record { key = []; value = null_value }
  | some n ↦ record { key = view_string s n.key; value = it }
]

-- `Object::valid`, `status`, `clear_error`, `record_error`, `size`, `empty`, `begin` and `end`
abbrev pub valid : Slab → Object → Bool
valid = container_valid object

abbrev pub status : Slab → Object → Result (Unit {0})
status s o = container_status object o s

abbrev pub clear_error : Object → Slab → Slab
clear_error = container_clear_error

abbrev pub record_error : Object → Error → Slab → Error × Slab
record_error = container_record_error

abbrev pub size : Slab → Object → ℕ
size = container_size object

abbrev pub empty : Slab → Object → Bool
empty = container_empty object

abbrev pub begin : Slab → Object → Iterator
begin = begin_of object

abbrev pub end : Object → Iterator
end = end_of

-- `value()` and `operator Value()`
abbrev pub value : Object → Value
value o = o

abbrev pub post_next : Slab → Iterator → Iterator × Iterator
post_next = Container.post_next
