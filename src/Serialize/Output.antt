-- ===== src/Serialize/Output.antt =====
-- What the functions of include/slabjson/serialize.hpp return and leave in the output span, for a
-- value of a document.
use slabjson.Prelude.{
  ℕ, ◌≤◌, ◌<◌, ◌≡◌, refl, sym, ap, ◌∙◌, ◌⊎◌, inl, inr, Bool, true, false, Option, [], ◌++◌, length,
  arith, Bool-cases, dec_lt,
}
use slabjson.Error.{error_at, invalid_argument, output_capacity_exceeded}
use slabjson.Result.{Result, Outcome, ok, err}
use slabjson.Utf8.{Bytes}
use slabjson.Slab.{Slab, Value, copy_bytes}
use slabjson.Forest.{Kids}
use slabjson.Serialize.{
  Span, serializer, overlaps_slab, measure, write_partial_to, write_prevalidated_to,
  measure_and_write, serialized_size, serialized_size_pretty, serialize, serialize_partial,
  serialize_pretty, serialize_pretty_partial,
}
use slabjson.Serialize.Writers.{size_max}
use slabjson.Serialize.Graph.{Serializer}
use slabjson.Serialize.Instances.{counting_lawful, checked_lawful, unchecked_lawful}
use slabjson.Serialize.Memory.{copy_bytes-nil}
use slabjson.Serialize.Steps.{Formats, layout_of}
use slabjson.Serialize.Write.{Stands, write-Ends}
use slabjson.Json.{Json, compact, indented, print}

-- The size of a text, if a `std::size_t` can hold it.
abbrev pub Measures : Bytes → Result ℕ → Type 0
Measures text r =
    ((length text ≤ size_max) × (r ≡ ok (length text)))
    ⊎ ((size_max < length text) × (r ≡ err (error_at output_capacity_exceeded 0)))

-- The span with the text at its start.
abbrev pub with_text : Bytes → Span → Span
with_text text output = record output { bytes = copy_bytes 0 text output.bytes }

-- The whole text and its size, or an error and nothing.
abbrev pub Fills : Bytes → Bool → Span → Outcome Span ℕ → Type 0
Fills text overlaps output r =
    ((length text ≤ output.size)
      × (overlaps ≡ false)
      × (r ≡ (ok (length text), with_text text output)))
    ⊎ ((length text ≤ output.size)
        × (overlaps ≡ true)
        × (r ≡ (err (error_at invalid_argument 0), output)))
    ⊎ ((output.size < length text) × (r ≡ (err (error_at output_capacity_exceeded 0), output)))

-- The whole text and its size, or an error and as much of the text as there is room for.
abbrev pub FillsPartly : Bytes → Bool → Span → Outcome Span ℕ → Type 0
FillsPartly text overlaps output r =
    ((length text ≤ output.size)
      × (overlaps ≡ false)
      × (r ≡ (ok (length text), with_text text output)))
    ⊎ ((overlaps ≡ true) × (r ≡ (err (error_at invalid_argument 0), output)))
    ⊎ ((output.size < length text)
        × (overlaps ≡ false)
        × (part : Bytes) × (rest : Bytes) × (part ++ rest ≡ text)
        × (length part ≤ output.size)
        × (r ≡ (err (error_at output_capacity_exceeded 0), with_text part output)))

module _ {to_chars : ℕ → Option Bytes} (formats : Formats to_chars) {s : Slab} {kids : Kids}
    {value : Value} {j : Json} (stands : Stands s kids value j) where
  module _ (pretty : Bool) (indent_spaces : ℕ) where
    abbrev z : Serializer
    z = serializer value pretty indent_spaces

    abbrev text : Bytes
    text = print to_chars (layout_of z) 0 j

    measure-Measures : Measures text (measure to_chars s z)
    unfolding measure
    measure-Measures =
        elim (write-Ends stands pretty indent_spaces counting_lawful formats true true
          (record { position = 0 }) (refl, omega arith)) [
            | inl (room, w, e, _) ↦ inl (room, ap (λ r. r.0) e)
            | inr (over, stop) ↦ let (w, zs, rest, e, _, _) = stop tt in inr (over, ap (λ r. r.0) e)
          ]

    write_partial_to-FillsPartly :
        (output : Span)
        → output.size ≤ size_max
        → FillsPartly text (overlaps_slab s z output) output (write_partial_to to_chars s z output)
    unfolding write_partial_to
    write_partial_to-FillsPartly output small = elim (Bool-cases (overlaps_slab s z output)) [
      | inl overlaps ↦ inr (inl (overlaps, rw (overlaps, write_partial_to)))
      | inr apart ↦
          elim (write-Ends stands pretty indent_spaces
            (checked_lawful output.bytes output.size small) formats true true
            (record { limit = output.size; output = output.bytes; position = 0 })
            (refl, (refl, omega arith, sym (copy_bytes-nil 0 [] output.bytes refl)))) [
              | inl (room, w, e, h) ↦ inl (
                room,
                apart,
                rw (apart, write_partial_to)
                    (ap (λ r. (r.0, record output { bytes = r.1.output })) e
                      ∙ ap (λ o. (ok (length text), record output { bytes = o })) h.1.2),
              )
              | inr (over, stop) ↦
                  let (w, part, rest, e, h, q) = stop tt in
                  inr (
                    inr (
                      over,
                      apart,
                      part,
                      rest,
                      q,
                      h.1.1,
                      rw (apart, write_partial_to)
                          (ap (λ r. (r.0, record output { bytes = r.1.output })) e
                            ∙ ap
                                (λ o. (
                                  err (error_at output_capacity_exceeded 0),
                                  record output { bytes = o },
                                ))
                                h.1.2),
                    ))
            ]
    ]

    write_prevalidated_to-lem :
        (output : Span)
        → length text ≤ size_max
        → overlaps_slab s z output ≡ false
        → write_prevalidated_to to_chars s z output ≡ (ok (length text), with_text text output)
    unfolding write_prevalidated_to
    write_prevalidated_to-lem output room apart =
        elim (write-Ends stands pretty indent_spaces (unchecked_lawful output.bytes) formats false
          false (record { output = output.bytes; position = 0 })
          (refl, omega arith, sym (copy_bytes-nil 0 [] output.bytes refl))) [
            | inl (_, w, e, h) ↦
                rw (apart, write_prevalidated_to)
                  (ap (λ r. (r.0, record output { bytes = r.1.output })) e
                    ∙ ap (λ o. (ok (length text), record output { bytes = o })) h.2)
            | inr (over, stop) ↦ absurd (omega arith)
          ]

    prevalidated_overlap :
        (output : Span)
        → overlaps_slab s z output ≡ true
        → write_prevalidated_to to_chars s z output ≡ (err (error_at invalid_argument 0), output)
    unfolding write_prevalidated_to
    prevalidated_overlap output overlaps = rw (overlaps, write_prevalidated_to)

    measure_and_write-Fills :
        (output : Span)
        → output.size ≤ size_max
        → Fills text (overlaps_slab s z output) output (measure_and_write to_chars s z output)
    unfolding measure_and_write
    measure_and_write-Fills output small = elim measure-Measures [
      | inr (over, e) ↦ inr (inr (omega arith, rw (e, measure_and_write)))
      | inl (room, e) ↦ elim (dec_lt output.size (length text)) [
        | yes over ↦ inr (inr (over, ground arith))
        | no fits ↦ elim (Bool-cases (overlaps_slab s z output)) [
          | inl overlaps ↦
              inr
                (inl (omega arith, overlaps, ground (arith, prevalidated_overlap output overlaps)))
          | inr apart ↦
              inl (omega arith, apart, ground (arith, write_prevalidated_to-lem output room apart))
        ]
      ]
    ]

  -- For a live handle of a document, `serialized_size` and `serialized_size_pretty` return the
  -- length of the compact and of the indented text of the value that the handle stands for, or
  -- `output_capacity_exceeded` where a `std::size_t` cannot hold it. Each finite double has a text.
  pub serialized_size-Measures :
      Measures (print to_chars compact 0 j) (serialized_size to_chars s value)
      × ((indent_spaces : ℕ)
          → Measures
              (print to_chars (indented indent_spaces) 0 j)
              (serialized_size_pretty to_chars s value indent_spaces))
  unfolding serialized_size serialized_size_pretty
  serialized_size-Measures = (measure-Measures false 2, λ n. measure-Measures true n)

  module _ (output : Span) (small : output.size ≤ size_max) where
    -- For a live handle of a document, `serialize` and `serialize_pretty` write all or nothing: if
    -- the text of the value that the handle stands for fits into the span and the span is apart
    -- from the slab's storage, the span's memory holds the text followed by what it held, and the
    -- result is its length; otherwise the result is the error `invalid_argument` for an overlap, or
    -- `output_capacity_exceeded` for want of room, and the memory is unchanged. The size of the
    -- span is one of 64 bits, and each finite double has a text.
    pub serialize-Fills :
        Fills
          (print to_chars compact 0 j)
          (overlaps_slab s (serializer value false 2) output)
          output
          (serialize to_chars s value output)
        × ((indent_spaces : ℕ)
            → Fills
                (print to_chars (indented indent_spaces) 0 j)
                (overlaps_slab s (serializer value true indent_spaces) output)
                output
                (serialize_pretty to_chars s value indent_spaces output))
    unfolding serialize serialize_pretty
    serialize-Fills = (
      measure_and_write-Fills false 2 output small,
      λ n. measure_and_write-Fills true n output small,
    )

    -- For a live handle of a document, `serialize_partial` and `serialize_pretty_partial` write the
    -- text of the value where it fits into a span that is apart from the slab's storage, and return
    -- its length. Where it does not fit, they fail with `output_capacity_exceeded`, and the memory
    -- holds a first part of the text, which ends inside the span, followed by what it held. For an
    -- overlap they fail with `invalid_argument` and write nothing. The size of the span is one of
    -- 64 bits, and each finite double has a text.
    pub serialize_partial-FillsPartly :
        FillsPartly
          (print to_chars compact 0 j)
          (overlaps_slab s (serializer value false 2) output)
          output
          (serialize_partial to_chars s value output)
        × ((indent_spaces : ℕ)
            → FillsPartly
                (print to_chars (indented indent_spaces) 0 j)
                (overlaps_slab s (serializer value true indent_spaces) output)
                output
                (serialize_pretty_partial to_chars s value indent_spaces output))
    unfolding serialize_partial serialize_pretty_partial
    serialize_partial-FillsPartly = (
      write_partial_to-FillsPartly false 2 output small,
      λ n. write_partial_to-FillsPartly true n output small,
    )
