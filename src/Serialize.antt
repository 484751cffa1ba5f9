-- ===== src/Serialize.antt =====
-- src/serialize.cpp and include/slabjson/serialize.hpp: a value as a JSON text.
pub mod Writers
pub mod Emits
pub mod Memory
pub mod Instances
pub mod Text
pub mod Graph
pub mod Texts
pub mod Steps
pub mod Moves
pub mod Run
pub mod Rounds
pub mod Write
pub mod Output
pub mod Refused
pub mod Digits
use slabjson.Prelude.{
  ℕ, ◌+◌, ◌-◌, ◌≤◌, Bool, true, false, Option, ltb, leb, ◌==◌, ◌||◌, if◌then◌else◌, sub_size, ◌%◌,
  ◌^◌,
}
use slabjson.Error.{error_at, invalid_argument, output_capacity_exceeded}
use slabjson.Result.{Result, Op, ok, err}
use slabjson.Utf8.{Bytes}
use slabjson.Slab.{Slab, Value, null_slab}
use slabjson.Serialize.Writers.{counting, checked, unchecked}
use slabjson.Serialize.Graph.{Serializer, write}

-- `Serializer{value, pretty, indent_spaces}`
abbrev pub serializer : Value → Bool → ℕ → Serializer
serializer value pretty indent_spaces = record {
  slab = value.slab;
  root_id = value.id;
  generation = value.generation;
  pretty = pretty;
  indent_spaces = indent_spaces;
}

-- A span of characters, with what its memory holds.
pub record Span : Type 0 where
  pub start : ℕ
  pub size : ℕ
  pub bytes : ℕ → ℕ

unfoldable pub overlaps_slab : Slab → Serializer → Span → Bool
overlaps_slab s z output =
    if z.slab == null_slab || (output.size == 0 || s.capacity == 0)
    then false
    else if leb output.start s.start
    then ltb (s.start - output.start) output.size
    else ltb (output.start - s.start) s.capacity

module _ (to_chars : ℕ → Option Bytes) where
  unfoldable pub measure : Slab → Serializer → Result ℕ
  measure s z = (write counting to_chars true true s z (record { position = 0 })).0

  unfoldable pub write_partial_to : Slab → Serializer → Op Span ℕ
  write_partial_to s z output = elim (overlaps_slab s z output) [
    | true ↦ (err (error_at invalid_argument 0), output)
    | false ↦
        let r =
          write checked to_chars true true s z
            (record { limit = output.size; output = output.bytes; position = 0 }) in
        (r.0, record output { bytes = r.1.output })
  ]

  unfoldable pub write_prevalidated_to : Slab → Serializer → Op Span ℕ
  write_prevalidated_to s z output = elim (overlaps_slab s z output) [
    | true ↦ (err (error_at invalid_argument 0), output)
    | false ↦
        let r =
          write unchecked to_chars false false s z
            (record { output = output.bytes; position = 0 }) in
        (r.0, record output { bytes = r.1.output })
  ]

  -- What `serialize` and `serialize_pretty` do with their serializer.
  unfoldable pub measure_and_write : Slab → Serializer → Op Span ℕ
  measure_and_write s z output = elim (measure s z) [
    | err e ↦ (err e, output)
    | ok size ↦ elim (ltb output.size size) [
      | true ↦ (err (error_at output_capacity_exceeded 0), output)
      | false ↦ write_prevalidated_to s z output
    ]
  ]

  unfoldable pub serialized_size : Slab → Value → Result ℕ
  serialized_size s value = measure s (serializer value false 2)

  unfoldable pub serialized_size_pretty : Slab → Value → ℕ → Result ℕ
  serialized_size_pretty s value indent_spaces = measure s (serializer value true indent_spaces)

  unfoldable pub serialize : Slab → Value → Op Span ℕ
  serialize s value = measure_and_write s (serializer value false 2)

  unfoldable pub serialize_partial : Slab → Value → Op Span ℕ
  serialize_partial s value = write_partial_to s (serializer value false 2)

  unfoldable pub serialize_pretty : Slab → Value → ℕ → Op Span ℕ
  serialize_pretty s value indent_spaces = measure_and_write s (serializer value true indent_spaces)

  unfoldable pub serialize_pretty_partial : Slab → Value → ℕ → Op Span ℕ
  serialize_pretty_partial s value indent_spaces =
      write_partial_to s (serializer value true indent_spaces)
