-- ===== src/Slab/Data.antt =====
-- include/slabjson/value.hpp and include/slabjson/slab.hpp: the types of the slab's data.
-- The storage has nodes at its front and strings at its
-- back. Node cells and string bytes are two maps: that the two regions of the storage never meet is
-- part of the invariant (Space/Bounds.antt). `sizeof(Node)` is 24 and `alignof(Node)` is 8.
use slabjson.Prelude.{ℕ, Bool, ◌==◌, ℤ}
use slabjson.Error.{Error}

pub data ValueType : Type 0 where
  invalid null bool number string array object : ValueType

pub data NumberKind : Type 0 where
  signed_integer unsigned_integer floating_point : NumberKind

-- The enumerator's value, by which the source compares.
abbrev pub ordinal : ValueType → ℕ
ordinal invalid = 0
ordinal null = 1
ordinal bool = 2
ordinal number = 3
ordinal string = 4
ordinal array = 5
ordinal object = 6

abbrev pub type_eq : ValueType → ValueType → Bool
type_eq a b = ordinal a == ordinal b

abbrev pub invalid_node_id : ℕ
invalid_node_id = 65535

abbrev pub max_storage_bytes : ℕ
max_storage_bytes = 65535

abbrev pub node_size : ℕ
node_size = 24

abbrev pub node_align : ℕ
node_align = 8

pub record StringRef : Type 0 where
  pub offset : ℕ
  pub length : ℕ

abbrev pub no_string : StringRef
no_string = record { offset = invalid_node_id; length = 0 }

pub record StoredString : Type 0 where
  pub ref : StringRef
  pub flags : ℕ

-- The union, by its active member. A double is its 64-bit pattern (IEEE 754).
pub data Payload : Type 0 where
  bool_value : Bool → Payload
  signed_value : ℤ → Payload
  unsigned_value : ℕ → Payload
  double_value : ℕ → Payload
  string_value : StringRef → Payload

pub record Node : Type 0 where
  pub type : ValueType
  pub aux : NumberKind
  pub key_flags : ℕ
  pub value_flags : ℕ
  pub parent : ℕ
  pub first_child : ℕ
  pub last_child : ℕ
  pub next_sibling : ℕ
  pub key : StringRef
  pub payload : Payload

-- `Node{}`
abbrev pub new_node : Node
new_node = record {
  type = null;
  aux = floating_point;
  key_flags = 0;
  value_flags = 0;
  parent = invalid_node_id;
  first_child = invalid_node_id;
  last_child = invalid_node_id;
  next_sibling = invalid_node_id;
  key = no_string;
  payload = unsigned_value 0;
}

-- `self` is the address of the slab object, `start` that of its storage.
pub record Slab : Type 0 where
  pub self : ℕ
  pub start : ℕ
  pub capacity : ℕ
  pub bytes : ℕ → ℕ
  pub nodes : ℕ → Node
  pub string_bytes_used : ℕ
  pub node_count : ℕ
  pub generation : ℕ
  pub error : Error
  pub valid : Bool

pub record Checkpoint : Type 0 where
  pub string_bytes_used : ℕ
  pub node_count : ℕ
