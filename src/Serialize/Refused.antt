-- ===== src/Serialize/Refused.antt =====
-- What include/slabjson/serialize.hpp refuses: a span that overlaps the storage of the slab, and
-- handles that designate nothing.
use slabjson.Prelude.{
  ℕ, ◌+◌, ◌≤◌, ◌<◌, ◌≡◌, ◌≢◌, ◌↔◌, ap, ◌⊎◌, inl, inr, Bool, true, false, Option, arith, dec_lt,
  if◌then◌else◌,
}
use slabjson.Error.{error_at, invalid_argument, invalid_handle}
use slabjson.Result.{Outcome, err}
use slabjson.Utf8.{Bytes}
use slabjson.Slab.{Slab, Value, null_slab}
use slabjson.Forest.Ancestors.{LiveAt, node_for_cases}
use slabjson.Serialize.{
  Span, serializer, overlaps_slab, measure, write_partial_to, measure_and_write, serialized_size,
  serialized_size_pretty, serialize, serialize_partial, serialize_pretty, serialize_pretty_partial,
}
use slabjson.Serialize.Writers.{Writer, counting, CheckedWriter, checked}
use slabjson.Serialize.Graph.{Serializer, write}

-- An address of the span lies in the slab's storage.
abbrev pub Overlap : Slab → Serializer → Span → Type 0
Overlap s z output =
    (z.slab ≢ null_slab)
    × (a : ℕ) × (output.start ≤ a)
    × (a < output.start + output.size)
    × (s.start ≤ a)
    × (a < s.start + s.capacity)

-- `overlaps_slab` tells whether the serializer has a slab and the span and the storage of that slab
-- have an address in common.
pub overlaps_slab_iff :
    (s : Slab) (z : Serializer) (output : Span)
    → (overlaps_slab s z output ≡ true) ↔ Overlap s z output
unfolding overlaps_slab
overlaps_slab_iff s z output = (
  λ e. elim (dec_lt output.start s.start) [
    | yes l ↦ (ground arith, s.start, ground arith, ground arith, ground arith, ground arith)
    | no l ↦ (ground arith, output.start, ground arith, ground arith, ground arith, ground arith)
  ],
  λ o. let (owned, a, l, l', k, k') = o in ground arith,
)

-- The error of a partial write.
abbrev pub partly_refused : Bool → Span → Outcome Span ℕ
partly_refused overlaps output =
    (err (error_at (if overlaps then invalid_argument else invalid_handle) 0), output)

module _ (to_chars : ℕ → Option Bytes) (s : Slab) (value : Value)
    (dead : (value.slab ≡ null_slab) ⊎ (¬ (LiveAt s value.id value.generation))) where
  write-dead :
      {W : Type 0} (writer : Writer W) (pretty : Bool) (indent_spaces : ℕ) (w : W)
      → write writer to_chars true true s (serializer value pretty indent_spaces) w
        ≡ (err (error_at invalid_handle 0), w)
  unfolding write
  write-dead writer pretty indent_spaces w = elim (node_for_cases s value.id value.generation) [
    | inl (live, e) ↦ elim dead [ inl null ↦ ground arith | inr gone ↦ absurd (gone live) ]
    | inr (gone, e) ↦ ground arith
  ]

  measure-dead :
      (pretty : Bool) (indent_spaces : ℕ)
      → measure to_chars s (serializer value pretty indent_spaces) ≡ err (error_at invalid_handle 0)
  unfolding measure
  measure-dead pretty indent_spaces =
      ap (λ r. r.0) (write-dead counting pretty indent_spaces (record { position = 0 }))

  measure_and_write-dead :
      (pretty : Bool) (indent_spaces : ℕ) (output : Span)
      → measure_and_write to_chars s (serializer value pretty indent_spaces) output
        ≡ (err (error_at invalid_handle 0), output)
  unfolding measure_and_write
  measure_and_write-dead pretty indent_spaces output =
      rw (measure-dead pretty indent_spaces, measure_and_write)

  write_partial_to-dead :
      (pretty : Bool) (indent_spaces : ℕ) (output : Span)
      → write_partial_to to_chars s (serializer value pretty indent_spaces) output
        ≡ partly_refused (overlaps_slab s (serializer value pretty indent_spaces) output) output
  unfolding write_partial_to
  write_partial_to-dead pretty indent_spaces output =
      let start : CheckedWriter = record {
        limit = output.size;
        output = output.bytes;
        position = 0;
      } in
      ground (arith, write-dead checked pretty indent_spaces start)

  -- For a null handle, and for one that is not live, the six functions fail and write nothing: with
  -- `invalid_handle`, or with `invalid_argument` where a partial write is given a span that
  -- overlaps the slab's storage.
  pub serialize-dead :
      (indent_spaces : ℕ) (output : Span)
      → (serialized_size to_chars s value ≡ err (error_at invalid_handle 0))
        × (serialized_size_pretty to_chars s value indent_spaces ≡ err (error_at invalid_handle 0))
        × (serialize to_chars s value output ≡ (err (error_at invalid_handle 0), output))
        × (serialize_pretty to_chars s value indent_spaces output
            ≡ (err (error_at invalid_handle 0), output))
        × (serialize_partial to_chars s value output
            ≡ partly_refused (overlaps_slab s (serializer value false 2) output) output)
        × (serialize_pretty_partial to_chars s value indent_spaces output
            ≡ partly_refused (overlaps_slab s (serializer value true indent_spaces) output) output)
  unfolding serialized_size serialized_size_pretty serialize serialize_pretty serialize_partial
      serialize_pretty_partial
  serialize-dead indent_spaces output = (
    measure-dead false 2,
    measure-dead true indent_spaces,
    measure_and_write-dead false 2 output,
    measure_and_write-dead true indent_spaces output,
    write_partial_to-dead false 2 output,
    write_partial_to-dead true indent_spaces output,
  )
