-- ===== src/Value.antt =====
-- include/slabjson/value.hpp and src/value.cpp: what a handle says of its node. Each function takes
-- the slab that the handle's pointer designates. The casts of 64-bit integers to double, with the
-- rounding that the machine uses, are arguments of `as_number`.
pub mod Integers
use slabjson.Prelude.{
  ℕ, ◌^◌, Bool, Option, none, some, ltb, ◌==◌, if◌then◌else◌, is_some, ℤ, pos, negsuc,
}
use slabjson.Utf8.{Bytes}
use slabjson.Slab.{
  ValueType, invalid, null, bool, number, string, array, object, NumberKind, signed_integer,
  unsigned_integer, floating_point, StringRef, no_string, Payload, bool_value, signed_value,
  unsigned_value, double_value, string_value, Node, Slab, type_eq, node_for, view_string, Handle,
  Value, Object, Array, null_slab,
}

-- `slab_ == nullptr ? nullptr : slab_->node_for(id_, generation_)`
unfoldable pub handle_node : Slab → Handle → Option Node
handle_node s v = if v.slab == null_slab then none else node_for s v.id v.generation

-- The node, if it has the type.
unfoldable pub typed_node : Slab → Handle → ValueType → Option Node
typed_node s v type = elim (handle_node s v) [
  | none ↦ none
  | some n ↦ if type_eq n.type type then some n else none
]

unfoldable pub is_valid : Slab → Value → Bool
is_valid s v = is_some (handle_node s v)

unfoldable pub type_of : Slab → Value → ValueType
type_of s v = elim (handle_node s v) [ none ↦ invalid | some n ↦ n.type ]

unfoldable pub is_null : Slab → Value → Bool
is_null s v = is_some (typed_node s v null)

unfoldable pub is_bool : Slab → Value → Bool
is_bool s v = is_some (typed_node s v bool)

unfoldable pub is_number : Slab → Value → Bool
is_number s v = is_some (typed_node s v number)

unfoldable pub is_string : Slab → Value → Bool
is_string s v = is_some (typed_node s v string)

unfoldable pub is_array : Slab → Value → Bool
is_array s v = is_some (typed_node s v array)

unfoldable pub is_object : Slab → Value → Bool
is_object s v = is_some (typed_node s v object)

-- The members of the union. The source reads the active one only, which the type and the number
-- kind of the node announce (Document.antt); the other cases are never met.
abbrev pub bool_of : Payload → Bool
bool_of (bool_value b) = b
bool_of _ = Bool.false

abbrev pub signed_of : Payload → ℤ
signed_of (signed_value i) = i
signed_of _ = pos 0

abbrev pub unsigned_of : Payload → ℕ
unsigned_of (unsigned_value u) = u
unsigned_of _ = 0

abbrev pub double_of : Payload → ℕ
double_of (double_value d) = d
double_of _ = 0

abbrev pub string_of : Payload → StringRef
string_of (string_value r) = r
string_of _ = no_string

unfoldable pub as_bool : Slab → Value → Option Bool
as_bool s v = elim (typed_node s v bool) [ none ↦ none | some n ↦ some (bool_of n.payload) ]

unfoldable pub node_number_kind : Node → NumberKind
node_number_kind n = n.aux

unfoldable pub number_kind : Slab → Value → Option NumberKind
number_kind s v = elim (typed_node s v number) [ none ↦ none | some n ↦ some (node_number_kind n) ]

unfoldable pub as_number : (ℤ → ℕ) → (ℕ → ℕ) → Slab → Value → Option ℕ
as_number cast_signed cast_unsigned s v = elim (typed_node s v number) [
  | none ↦ none
  | some n ↦ elim (node_number_kind n) [
    | signed_integer ↦ some (cast_signed (signed_of n.payload))
    | unsigned_integer ↦ some (cast_unsigned (unsigned_of n.payload))
    | floating_point ↦ some (double_of n.payload)
  ]
]

unfoldable pub as_int64 : Slab → Value → Option ℤ
as_int64 s v = elim (typed_node s v number) [
  | none ↦ none
  | some n ↦ elim (node_number_kind n) [
    | signed_integer ↦ some (signed_of n.payload)
    | unsigned_integer ↦
        if ltb (unsigned_of n.payload) (2 ^ 63) then some (pos (unsigned_of n.payload)) else none
    | floating_point ↦ none
  ]
]

-- `number >= 0`, and the cast.
abbrev pub non_negative : ℤ → Option ℕ
non_negative (pos n) = some n
non_negative (negsuc n) = none

unfoldable pub as_uint64 : Slab → Value → Option ℕ
as_uint64 s v = elim (typed_node s v number) [
  | none ↦ none
  | some n ↦ elim (node_number_kind n) [
    | signed_integer ↦ non_negative (signed_of n.payload)
    | unsigned_integer ↦ some (unsigned_of n.payload)
    | floating_point ↦ none
  ]
]

unfoldable pub as_string : Slab → Value → Option Bytes
as_string s v = elim (typed_node s v string) [
  | none ↦ none
  | some n ↦ some (view_string s (string_of n.payload))
]

unfoldable pub as_array : Slab → Value → Option Array
as_array s v = elim (typed_node s v array) [ none ↦ none | some n ↦ some v ]

unfoldable pub as_object : Slab → Value → Option Object
as_object s v = elim (typed_node s v object) [ none ↦ none | some n ↦ some v ]
