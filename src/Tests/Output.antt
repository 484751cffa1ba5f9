-- ===== src/Tests/Output.antt =====
-- The theorems on src/serialize.cpp at the sample object.
use slabjson.Prelude.{
  ℕ, ◌≡◌, ◌⊎◌, ◌↔◌, refl, sym, inr, true, false, Option, some, [], ◌∷◌, length, arith,
}
use slabjson.Error.{error_at, invalid_handle}
use slabjson.Result.{err}
use slabjson.Utf8.{Bytes}
use slabjson.Slab.{Value, null_slab}
use slabjson.Serialize.{
  Span, serializer, overlaps_slab, serialized_size, serialized_size_pretty, serialize,
  serialize_partial, serialize_pretty, serialize_pretty_partial,
}
use slabjson.Serialize.Writers.{CheckedWriter, checked}
use slabjson.Serialize.Graph.{write}
use slabjson.Serialize.Emits.{Ends}
use slabjson.Serialize.Instances.{checked_lawful}
use slabjson.Serialize.Memory.{copy_bytes-nil}
use slabjson.Serialize.Steps.{Formats, layout_of}
use slabjson.Serialize.Write.{Stands, write-Ends}
use slabjson.Serialize.Output.{
  Measures, Fills, FillsPartly, serialized_size-Measures, serialize-Fills,
  serialize_partial-FillsPartly,
}
use slabjson.Serialize.Refused.{Overlap, overlaps_slab_iff, partly_refused, serialize-dead}
use slabjson.Json.{compact, indented, print}
use slabjson.Json.Spells.{Spells, escaped, escaped-Spells}
use slabjson.Forest.{with_child}
use slabjson.Forest.Ancestors.{LiveAt}
use slabjson.Forest.Basic.{no_kids}
use slabjson.Tests.Sample.{runs, the_object, with_member, member_value, with_member-IsDocument}

-- A text for each double, and a span of 100 bytes apart from the slab.
abbrev to_chars : ℕ → Option Bytes
to_chars d = some (b'0' ∷ [])

formats : Formats to_chars
formats d finite = (b'0' ∷ [], refl)

abbrev span : Span
span = record { start = 1000; size = 100; bytes = λ i. 0 }

stands : Stands with_member (with_child no_kids 0 1) the_object member_value
stands = record {
  document = with_member-IsDocument;
  owner = λ e. absurd (omega arith);
  live = runs.member_valid;
  denotes = runs.member_denotes;
}

abbrev writer : CheckedWriter
writer = record { limit = 100; output = λ i. 0; position = 0 }

write-Ends_example :
    Ends
      (checked_lawful (λ i. 0) 100 (omega arith))
      length
      (print to_chars (layout_of (serializer the_object false 2)) 0 member_value)
      (write checked to_chars true true with_member (serializer the_object false 2) writer)
write-Ends_example =
    write-Ends stands false 2 (checked_lawful (λ i. 0) 100 (omega arith)) formats true true writer
      (refl, (refl, omega arith, sym (copy_bytes-nil 0 [] (λ i. 0) refl)))

serialized_size-Measures_example :
    Measures
      (print to_chars compact 0 member_value)
      (serialized_size to_chars with_member the_object)
    × ((indent_spaces : ℕ)
        → Measures
            (print to_chars (indented indent_spaces) 0 member_value)
            (serialized_size_pretty to_chars with_member the_object indent_spaces))
serialized_size-Measures_example = serialized_size-Measures formats stands

serialize-Fills_example :
    Fills
      (print to_chars compact 0 member_value)
      (overlaps_slab with_member (serializer the_object false 2) span)
      span
      (serialize to_chars with_member the_object span)
    × ((indent_spaces : ℕ)
        → Fills
            (print to_chars (indented indent_spaces) 0 member_value)
            (overlaps_slab with_member (serializer the_object true indent_spaces) span)
            span
            (serialize_pretty to_chars with_member the_object indent_spaces span))
serialize-Fills_example = serialize-Fills formats stands span (omega arith)

serialize_partial-FillsPartly_example :
    FillsPartly
      (print to_chars compact 0 member_value)
      (overlaps_slab with_member (serializer the_object false 2) span)
      span
      (serialize_partial to_chars with_member the_object span)
    × ((indent_spaces : ℕ)
        → FillsPartly
            (print to_chars (indented indent_spaces) 0 member_value)
            (overlaps_slab with_member (serializer the_object true indent_spaces) span)
            span
            (serialize_pretty_partial to_chars with_member the_object indent_spaces span))
serialize_partial-FillsPartly_example =
    serialize_partial-FillsPartly formats stands span (omega arith)

-- A handle of an older generation.
abbrev stale : Value
stale = record { slab = 1; id = 0; generation = 9 }

stale_dead : (stale.slab ≡ null_slab) ⊎ (¬ (LiveAt with_member stale.id stale.generation))
stale_dead = inr λ l. absurd (omega (arith, l.1, runs.member_valid.1))

serialize-dead_example :
    (serialized_size to_chars with_member stale ≡ err (error_at invalid_handle 0))
    × (serialized_size_pretty to_chars with_member stale 2 ≡ err (error_at invalid_handle 0))
    × (serialize to_chars with_member stale span ≡ (err (error_at invalid_handle 0), span))
    × (serialize_pretty to_chars with_member stale 2 span ≡ (err (error_at invalid_handle 0), span))
    × (serialize_partial to_chars with_member stale span
        ≡ partly_refused (overlaps_slab with_member (serializer stale false 2) span) span)
    × (serialize_pretty_partial to_chars with_member stale 2 span
        ≡ partly_refused (overlaps_slab with_member (serializer stale true 2) span) span)
serialize-dead_example = serialize-dead to_chars with_member stale stale_dead 2 span

overlaps_slab_iff_example :
    (overlaps_slab with_member (serializer the_object false 2) span ≡ true)
    ↔ Overlap with_member (serializer the_object false 2) span
overlaps_slab_iff_example = overlaps_slab_iff with_member (serializer the_object false 2) span

escaped-Spells_example : Spells (escaped (10 ∷ b'"' ∷ 1 ∷ [])) (10 ∷ b'"' ∷ 1 ∷ [])
escaped-Spells_example = escaped-Spells (10 ∷ b'"' ∷ 1 ∷ [])
