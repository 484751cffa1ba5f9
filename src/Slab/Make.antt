-- ===== src/Slab/Make.antt =====
-- src/slab.cpp: handles, and the values that a slab makes. The classes `Value`, `Object` and `Array`
-- have the same three fields, so one record stands for them. A handle's method is a function of the
-- slab that its pointer designates; the pointer itself is compared with null and with `this` only.
use slabjson.Prelude.{
  ℕ, ◌+◌, ◌*◌, ◌/◌, ◌%◌, ◌^◌, Bool, true, false, none, some, ltb, ◌==◌, if◌then◌else◌, length,
  sub_size, ℤ,
}
use slabjson.Error.{
  error_at, invalid_argument, out_of_memory, string_capacity_exceeded, invalid_utf8,
  non_finite_number, internal_error,
}
use slabjson.Result.{Op, ok, err, fail, ◌>>=◌, and_then, or_error}
use slabjson.Utf8.{Bytes, invalid_utf8_offset}
use slabjson.Slab.Data.{
  null, bool, number, string, array, object, NumberKind, signed_integer, unsigned_integer,
  floating_point, Node, Slab, node_size, bool_value, signed_value, unsigned_value, double_value,
  string_value,
}
use slabjson.Slab.Memory.{
  modify, can_allocate_node, allocate_node, copy_string_trusted, string_flags,
}

-- The null pointer.
abbrev pub null_slab : ℕ
null_slab = 0

pub record Handle : Type 0 where
  pub slab : ℕ
  pub id : ℕ
  pub generation : ℕ

abbrev pub Value : Type 0
Value = Handle

abbrev pub Object : Type 0
Object = Handle

abbrev pub Array : Type 0
Array = Handle

unfoldable pub make_value : Slab → ℕ → Value
make_value s id = record { slab = s.self; id = id; generation = s.generation }

unfoldable pub make_object_handle : Slab → ℕ → Object
make_object_handle s id = record { slab = s.self; id = id; generation = s.generation }

unfoldable pub make_array_handle : Slab → ℕ → Array
make_array_handle s id = record { slab = s.self; id = id; generation = s.generation }

-- `std::isfinite` of a double, by its exponent bits.
unfoldable pub is_finite : ℕ → Bool
is_finite d = if d / 2 ^ 52 % 2 ^ 11 == 2047 then false else true

-- `make_value(id)` after a write to the new node.
abbrev fill : ℕ → (Node → Node) → Op Slab Value
fill id f s = (ok (make_value s id), modify id f s)

unfoldable pub make_null : Op Slab Value
make_null = do id ← allocate_node null; λ s. (ok (make_value s id), s)

unfoldable pub make_bool : Bool → Op Slab Value
make_bool b = do id ← allocate_node bool; fill id (λ n. record n { payload = bool_value b })

unfoldable pub set_node_number_kind : NumberKind → Node → Node
set_node_number_kind kind n = record n { aux = kind }

-- `make_number(double)`
unfoldable pub make_double : ℕ → Op Slab Value
make_double d =
    if is_finite d
    then (do
      id ← allocate_node number
      fill id (λ n. record (set_node_number_kind floating_point n) { payload = double_value d }))
    else fail (error_at non_finite_number 0)

-- `make_number(std::int64_t)`
unfoldable pub make_int64 : ℤ → Op Slab Value
make_int64 v = do
  id ← allocate_node number
  fill id (λ n. record (set_node_number_kind signed_integer n) { payload = signed_value v })

-- `make_number(std::uint64_t)`
unfoldable pub make_uint64 : ℕ → Op Slab Value
make_uint64 v = do
  id ← allocate_node number
  fill id (λ n. record (set_node_number_kind unsigned_integer n) { payload = unsigned_value v })

-- A failure to copy is reported as an internal error; the node stays allocated.
unfoldable pub store_payload : Bytes → ℕ → Op Slab Value
store_payload value id s =
    and_then (or_error (error_at internal_error 0) (copy_string_trusted value s)) λ ref.
      fill id (λ n. record n { payload = string_value ref; value_flags = string_flags value })

-- The bytes that stay free behind one more node.
abbrev free_after_node : Slab → ℕ
free_after_node s =
    sub_size (sub_size s.capacity s.string_bytes_used) ((s.node_count + 1) * node_size)

unfoldable pub make_string : Bytes → Op Slab Value
make_string value s =
    if s.valid
    then if ltb 65535 (length value)
      then (err (error_at string_capacity_exceeded 0), s)
      else elim (invalid_utf8_offset value) [
        | some k ↦ (err (error_at invalid_utf8 k), s)
        | none ↦
            if can_allocate_node s
            then if ltb (free_after_node s) (length value)
              then (err (error_at string_capacity_exceeded 0), s)
              else and_then (allocate_node string s) (store_payload value)
            else (err (error_at out_of_memory 0), s)
      ]
    else (err (error_at invalid_argument 0), s)

unfoldable pub make_object : Op Slab Object
make_object = do id ← allocate_node object; λ s. (ok (make_object_handle s id), s)

unfoldable pub make_array : Op Slab Array
make_array = do id ← allocate_node array; λ s. (ok (make_array_handle s id), s)
