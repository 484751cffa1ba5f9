-- ===== src/Document.antt =====
-- The invariant of a slab in use (src/slab.cpp): its bounds, the forest of its nodes, and in each
-- node a payload that its type announces, with texts that are stored UTF-8.
pub mod Preserve
pub mod Change
pub mod Make
pub mod Scalar
pub mod Store
pub mod Reads
pub mod Keeps
pub mod Made
pub mod Begin
use slabjson.Prelude.{ℕ, ◌<◌, ◌≡◌, ◌⊎◌, true, ℤ, Bool}
use slabjson.Utf8.Encoding.{IsUtf8}
use slabjson.Slab.{
  Slab, Node, ValueType, NumberKind, signed_integer, unsigned_integer, floating_point, Payload,
  bool_value, signed_value, unsigned_value, double_value, string_value, StringRef, no_string,
  view_string, string_flags, is_finite,
}
use slabjson.Space.{Fits, Stored}
use slabjson.Forest.{Kids, IsForest}

-- A stored text, with the flags that are kept with it.
pub record Text (s : Slab) (r : StringRef) (flags : ℕ) : Type 0 where
  pub stored : Stored s r
  pub utf8 : IsUtf8 (view_string s r)
  pub flagged : flags ≡ string_flags (view_string s r)

abbrev pub NumberFits : NumberKind → Payload → Type 0
NumberFits signed_integer p = (i : ℤ) × (p ≡ signed_value i)
NumberFits unsigned_integer p = (u : ℕ) × (p ≡ unsigned_value u)
NumberFits floating_point p = (d : ℕ) × (p ≡ double_value d) × (is_finite d ≡ true)

-- The active member of the payload is the one that the type announces.
abbrev pub PayloadFits : Slab → ValueType → NumberKind → Payload → ℕ → Type 0
PayloadFits s ValueType.invalid k p flags = ⊥
PayloadFits s ValueType.null k p flags = Unit {0}
PayloadFits s ValueType.bool k p flags = (b : Bool) × (p ≡ bool_value b)
PayloadFits s ValueType.number k p flags = NumberFits k p
PayloadFits s ValueType.string k p flags = (r : StringRef) × (p ≡ string_value r) × Text s r flags
PayloadFits s ValueType.array k p flags = Unit {0}
PayloadFits s ValueType.object k p flags = Unit {0}

-- No key, or a stored one.
abbrev pub KeyFits : Slab → StringRef → ℕ → Type 0
KeyFits s r flags = ((r ≡ no_string) × (flags ≡ 0)) ⊎ Text s r flags

pub record NodeFits (s : Slab) (n : Node) : Type 0 where
  pub payload : PayloadFits s n.type n.aux n.payload n.value_flags
  pub key : KeyFits s n.key n.key_flags

pub record IsDocument (s : Slab) (kids : Kids) : Type 0 where
  pub fits : Fits s
  pub forest : IsForest s kids
  pub nodes : (i : ℕ) → i < s.node_count → NodeFits s (s.nodes i)
