-- ===== src/Parse/Texts.antt =====
-- The strings of src/parse.cpp, as values and as keys of the document.
use slabjson.Prelude.{ℕ, ◌≤◌, ◌<◌, ◌≡◌, refl, ap, inl, inr, true, length, arith}
use slabjson.Error.{error_at, out_of_memory}
use slabjson.Utf8.{Bytes}
use slabjson.Utf8.Encoding.{IsUtf8}
use slabjson.Utf8.Validation.{invalid_utf8_offset-IsUtf8}
use slabjson.Slab.{Slab, Node, ValueType, new_node, modify, make_value, string_flags}
use slabjson.Space.{
  Fits, Extends, Extends-refl, Extends-trans, Grown, NodeRoom, StringRoom, copied, string_at,
  allocated, allocate_node-Allocates, with_node-Grown, copied-Fits, copied-Extends,
}
use slabjson.Forest.{Kids}
use slabjson.Document.{IsDocument, Text}
use slabjson.Document.Make.{Text-copied}
use slabjson.Document.Preserve.{IsDocument-Grown, IsDocument-same}
use slabjson.Document.Change.{SameStore, modify-SameStore, Fits-SameStore, Text-SameStore}
use slabjson.Document.Store.{stored_string}
use slabjson.Parse.Values.{Parser, set_string, parse_string_value}
use slabjson.Parse.Text.{parse_string-ParsesString}
use slabjson.Parse.Parsed.{Parses}

-- A write to a node behind those of `s`.
pub modify-Extends :
    {s t : Slab} (i : ℕ) (f : Node → Node)
    → Extends s t
    → s.node_count ≤ i
    → Extends s (modify i f t)
unfolding modify
modify-Extends {s} {t} i f e l = record {
  self_kept = e.self_kept;
  start_kept = e.start_kept;
  capacity_kept = e.capacity_kept;
  generation_kept = e.generation_kept;
  valid_kept = e.valid_kept;
  count_le = e.count_le;
  used_le = e.used_le;
  nodes_kept = λ j h. ground (arith, e.nodes_kept j h);
  bytes_kept = e.bytes_kept;
}

pub copied-Text :
    (value : Bytes) {s : Slab}
    → Fits s
    → StringRoom s (length value)
    → IsUtf8 value
    → Text (copied value s) (string_at s (length value)) (string_flags value)
copied-Text value f room utf8 = Text-copied value f room ((invalid_utf8_offset-IsUtf8 value).1 utf8)

pub copied-IsDocument :
    (value : Bytes) {s : Slab} {kids : Kids}
    → IsDocument s kids
    → StringRoom s (length value)
    → IsDocument (copied value s) kids
copied-IsDocument value d room =
    IsDocument-same d (copied-Extends value d.fits room) refl (copied-Fits value d.fits room)

-- The node of a string, when the string is set.
abbrev string_set : Slab → Bytes → Node
string_set s value =
    set_string (stored_string (allocated ValueType.string s) value)
      (record new_node { type = ValueType.string })

abbrev set_slab : Slab → Bytes → Slab
set_slab s value =
    modify s.node_count (set_string (stored_string (allocated ValueType.string s) value))
      (copied value (allocated ValueType.string s))

store_kept :
    (s : Slab) (value : Bytes)
    → SameStore (copied value (allocated ValueType.string s)) (set_slab s value)
store_kept s value =
    modify-SameStore (copied value (allocated ValueType.string s)) s.node_count
      (set_string (stored_string (allocated ValueType.string s) value))

module _ {s : Slab} {kids : Kids} (d : IsDocument s kids) (value : Bytes) where
  set_slab-Grown :
      s.valid ≡ true
      → NodeRoom s
      → StringRoom (allocated ValueType.string s) (length value)
      → Grown s (set_slab s value) (string_set s value)
  unfolding modify
  set_slab-Grown v room more =
      let g = with_node-Grown (record new_node { type = ValueType.string }) d.fits v room in
      record {
        extends =
            modify-Extends s.node_count
              (set_string (stored_string (allocated ValueType.string s) value))
              (Extends-trans g.extends (copied-Extends value g.fits more)) (omega arith);
        counted = refl;
        node = ground arith;
        error_kept = refl;
        fits = Fits-SameStore (store_kept s value) (copied-Fits value g.fits more);
        live = v;
      }

  set_slab-IsDocument :
      s.valid ≡ true
      → NodeRoom s
      → StringRoom (allocated ValueType.string s) (length value)
      → IsUtf8 value
      → IsDocument (set_slab s value) kids
  set_slab-IsDocument v room more utf8 =
      let g = with_node-Grown (record new_node { type = ValueType.string }) d.fits v room in
      IsDocument-Grown d (set_slab-Grown v room more) (refl, refl, refl, refl)
        (record {
          payload = (
            string_at (allocated ValueType.string s) (length value),
            refl,
            Text-SameStore (store_kept s value) (copied-Text value g.fits more utf8),
          );
          key = inl (refl, refl);
        })

module _ (input : Bytes) {kids : Kids} (p : Parser) (d : IsDocument p.slab kids) where
  -- A string as a value: its node is made before its text.
  pub parse_string_value-Parses :
      p.slab.valid ≡ true
      → p.position < length input
      → Parses input kids p (parse_string_value input p)
  unfolding parse_string_value
  parse_string_value-Parses v l = elim (allocate_node-Allocates ValueType.string d.fits) [
    | inr (inr (i, e)) ↦ absurd (cc)
    | inr (inl (_, full, e)) ↦ inr (
      error_at out_of_memory p.position,
      p,
      (omega arith, λ c. cc),
      Extends-refl p.slab,
      rw (e, parse_string_value),
    )
    | inl (_, room, e) ↦
        let s = p.slab in
        let g = with_node-Grown (record new_node { type = ValueType.string }) d.fits v room in
        elim (parse_string-ParsesString input (record p { slab = allocated ValueType.string s })
          g.fits v l) [
            | inr (f, o, k) ↦ inr (
              f,
              record p { slab = allocated ValueType.string s },
              o,
              g.extends,
              rw (e, parse_string_value) (rw k),
            )
            | inl (value, stop, spells, mark, utf8, more, forward, within, k) ↦
                let grown = set_slab-Grown d value v room more in
                inl (
                  make_value (set_slab s value) s.node_count,
                  record { slab = set_slab s value; position = stop },
                  record {
                    extends = grown.extends;
                    kids_then = kids;
                    document = set_slab-IsDocument d value v room more utf8;
                    kept = λ i h. refl;
                    handle = refl;
                    grown = omega (arith, grown.counted);
                    root = ap (λ n. n.parent) grown.node;
                    forward = omega arith;
                    within = within;
                  },
                  rw (e, parse_string_value) (rw k),
                )
          ]
  ]
