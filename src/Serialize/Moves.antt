-- ===== src/Serialize/Moves.antt =====
-- The rounds of the two loops of `Serializer::write` (src/serialize.cpp), at a node of a document.
use slabjson.Prelude.{
  ℕ, suc, ◌<◌, ◌≡◌, ◌≢◌, sym, ap, subst, ◌∙◌, Bool, true, false, Option, some, arith, ==_ne,
  ==_refl,
}
use slabjson.Result.{Op, ok, ◌>>◌}
use slabjson.Utf8.{Bytes}
use slabjson.Slab.{
  Slab, StringRef, ValueType, view_string, invalid_node_id, bool_value, string_value,
}
use slabjson.Value.{bool_of, string_of}
use slabjson.Document.{IsDocument}
use slabjson.Forest.{Kids, parent_of, next_of}
use slabjson.Forest.Basic.{node_for_live, id_ne_invalid}
use slabjson.Serialize.Writers.{Writer}
use slabjson.Serialize.Text.{attempt, write_string, write_number}
use slabjson.Serialize.Graph.{
  Serializer, fetch, fetch_child, fetch_inner, fetch_parent, new_line, member_prefix, last_line,
  deeper, shallower, enter, visit, climb, opening, closing, is_object_type, null_text, bool_text,
}
use slabjson.Json.Denotes.{container_type}

-- The serializer is at work on a live slab.
pub record AtWork (s : Slab) (kids : Kids) (z : Serializer) : Type 0 where
  pub document : IsDocument s kids
  pub valid : s.valid ≡ true
  pub fresh : z.generation ≡ s.generation

module _ {s : Slab} {kids : Kids} {z : Serializer} (work : AtWork s kids z) (graph : Bool) where
  fetch_lem : (id : ℕ) → id < s.node_count → fetch graph s z id ≡ some (s.nodes id)
  unfolding fetch
  fetch_lem id h = ground (arith, node_for_live s id z.generation work.valid work.fresh h)

  fetch_child_lem :
      (p id : ℕ)
      → id < s.node_count
      → parent_of s id ≡ p
      → fetch_child graph s z p id ≡ some (s.nodes id)
  unfolding fetch_child
  fetch_child_lem p id h e = ground (arith, fetch_lem id h)

  fetch_inner_lem :
      (id : ℕ)
      → id < s.node_count
      → parent_of s id < s.node_count
      → fetch_inner graph s z id ≡ some (s.nodes id)
  unfolding fetch_inner
  fetch_inner_lem id h l =
      ground (arith, fetch_lem id h, id_ne_invalid (parent_of s id) work.document.fits l)

  fetch_parent_lem :
      (id : ℕ) (b : Bool)
      → id < s.node_count
      → (s.nodes id).type ≡ container_type b
      → fetch_parent graph s z id ≡ some (s.nodes id)
  unfolding fetch_parent
  fetch_parent_lem id b h e = ground (arith, fetch_lem id h)

  is_object_type_lem : (t : ValueType) (b : Bool) → t ≡ container_type b → is_object_type t ≡ b
  is_object_type_lem t b e = ground arith

  module _ {W : Type 0} (writer : Writer W) (to_chars : ℕ → Option Bytes) (utf8 : Bool) where
    abbrev go : ℕ → ℕ → ℕ → Op W ℕ
    go = visit writer to_chars utf8 graph s z

    abbrev back : ℕ → ℕ → ℕ → Op W ℕ
    back = climb writer to_chars utf8 graph s z

    -- A node without children.
    module _ (f id d : ℕ) (h : id < s.node_count) where
      pub visit-null :
          (s.nodes id).type ≡ ValueType.null
          → go (suc f) id d ≡ (attempt (writer.append null_text) >> back f id d)
      unfolding visit
      visit-null e = rw (fetch_lem id h, e, visit)

      pub visit-bool :
          (v : Bool)
          → (s.nodes id).type ≡ ValueType.bool
          → (s.nodes id).payload ≡ bool_value v
          → go (suc f) id d ≡ (attempt (writer.append (bool_text v)) >> back f id d)
      unfolding visit
      visit-bool v e p =
          rw (fetch_lem id h, e, visit)
            (ap (λ p. attempt (writer.append (bool_text (bool_of p))) >> back f id d) p)

      pub visit-number :
          (s.nodes id).type ≡ ValueType.number
          → go (suc f) id d ≡ (write_number writer to_chars (s.nodes id) >> back f id d)
      unfolding visit
      visit-number e = ground (arith, fetch_lem id h)

      pub visit-string :
          (r : StringRef)
          → (s.nodes id).type ≡ ValueType.string
          → (s.nodes id).payload ≡ string_value r
          → go (suc f) id d
            ≡ (write_string writer (s.nodes id).value_flags utf8 (view_string s r) >> back f id d)
      unfolding visit
      visit-string r e p =
          rw (fetch_lem id h, e, visit)
            (ap
              (λ p.
                write_string writer (s.nodes id).value_flags utf8 (view_string s (string_of p))
                >> back f id d)
              p)

      pub visit-empty :
          (b : Bool)
          → (s.nodes id).type ≡ container_type b
          → (s.nodes id).first_child ≡ invalid_node_id
          → go (suc f) id d ≡ (
              attempt (writer.append_char (opening b))
              >> (attempt (writer.append_char (closing b)) >> back f id d))
      unfolding visit enter
      visit-empty true e k = rw (fetch_lem id h, e, visit) (rw (k, enter))
      visit-empty false e k = rw (fetch_lem id h, e, visit) (rw (k, enter))

      pub visit-full :
          (b : Bool)
          → (s.nodes id).type ≡ container_type b
          → (s.nodes id).first_child < s.node_count
          → parent_of s (s.nodes id).first_child ≡ id
          → go (suc f) id d ≡ (
              attempt (writer.append_char (opening b))
              >> (new_line writer to_chars utf8 graph s z (deeper d)
                  >> member_prefix writer to_chars utf8 graph s z b
                      (s.nodes (s.nodes id).first_child)
                  >> go f (s.nodes id).first_child (deeper d)))
      unfolding visit enter
      visit-full true e k p =
          ground
            (arith, fetch_lem id h, id_ne_invalid _ work.document.fits k, fetch_child_lem id _ k p)
      visit-full false e k p =
          ground
            (arith, fetch_lem id h, id_ne_invalid _ work.document.fits k, fetch_child_lem id _ k p)

    pub climb-end :
        (f id d : ℕ) → id ≡ z.root_id → back (suc f) id d ≡ (λ w. (ok (writer.size w), w))
    unfolding climb
    climb-end f id d e = rw (e, ==_refl z.root_id, climb)

    -- A child of the container `p`.
    module _ (f id d p : ℕ) (b : Bool) (h : id < s.node_count) (inner : id ≢ z.root_id)
        (under : p < s.node_count) (child : parent_of s id ≡ p)
        (typed : (s.nodes p).type ≡ container_type b) where
      pub climb-last :
          next_of s id ≡ invalid_node_id
          → back (suc f) id d ≡ (
              last_line writer to_chars utf8 graph s z d
              >> attempt (writer.append_char (closing b))
              >> back f p (shallower d))
      unfolding climb
      climb-last e = ground (
        arith,
        ==_ne id z.root_id inner,
        fetch_inner_lem id h (subst (λ q. q < s.node_count) (sym child) under),
        ap (fetch_parent graph s z) child ∙ fetch_parent_lem p b under typed,
        is_object_type_lem (s.nodes p).type b typed,
      )

      pub climb-next :
          next_of s id < s.node_count
          → parent_of s (next_of s id) ≡ p
          → back (suc f) id d ≡ (
              attempt (writer.append_char b',')
              >> new_line writer to_chars utf8 graph s z d
              >> member_prefix writer to_chars utf8 graph s z b (s.nodes (next_of s id))
              >> go f (next_of s id) d)
      unfolding climb
      climb-next l e = ground (
        arith,
        ==_ne id z.root_id inner,
        fetch_inner_lem id h (subst (λ q. q < s.node_count) (sym child) under),
        ap (fetch_parent graph s z) child ∙ fetch_parent_lem p b under typed,
        is_object_type_lem (s.nodes p).type b typed,
        fetch_child_lem p (next_of s id) l e,
        id_ne_invalid (next_of s id) work.document.fits l,
      )
