-- ===== src/Tests/Sample.antt =====
-- A slab of 240 bytes with a small document, made by the functions of src/slab.cpp, src/array.cpp and
-- src/object.cpp.
use slabjson.Prelude.{
  ◌≢◌, ◌≡◌, refl, sym, subst, inl, inr, true, false, none, some, [], ◌∷◌, sub_size, length, arith,
  dec_lt, ℕ_discrete, pos,
}
use slabjson.Error.{no_error_yet, error_at, out_of_memory}
use slabjson.Result.{Outcome, ok}
use slabjson.Utf8.{Bytes, invalid_utf8_offset, utf8_sequence_length}
use slabjson.Slab.{
  Slab, Node, Handle, ValueType, new_node, initialize, make_object, make_array, make_value,
  make_object_handle, make_array_handle, node_for, status, record_error, modify, checkpoint,
  rollback, can_allocate_node, allocate_node, allocate_string, copy_bytes, copy_string_trusted,
  string_flags, store_string_with_flags, view_string, store_payload, make_string, make_uint64,
  set_node_number_kind, ancestor_loop, check_child, validate_attachment, append_child_unchecked,
}
use slabjson.Space.{StringRoom, copied, string_at}
use slabjson.Value.{handle_node, typed_node, signed_of}
use slabjson.Container.{
  container_valid, container_status, container_record_error, recorded, or_rollback, attach_created,
  builder_add,
}
use slabjson.Container.Status.{IsLive, typed_node_cases}
use slabjson.Forest.{Kids, with_child}
use slabjson.Forest.Basic.{no_kids}
use slabjson.Forest.Ancestors.{LiveAt}
use slabjson.Json.{Json, leaf, container, no_entries, entry}
use slabjson.Json.Denotes.{Denotes, DenotesEntries}
use slabjson.Document.{IsDocument}
use slabjson.Document.Make.{Grows, make_object-Grows, make_array-Grows, make_uint64-Grows}
use slabjson.Document.Scalar.{unsigned, text}
use slabjson.Document.Begin.{initialize-IsDocument}
use slabjson.Object.{
  remove, remove_loop, unlink, bytes_eq, find_loop, find, attach_member, add_uint64,
  add as add_object_member,
}
use slabjson.Object.Build.{add_scalar, add_member-Builds}
use slabjson.Array.{attach_item, add_string, add as add_array_item}
use slabjson.Array.Build.{add_scalar as add_item, add_item-Builds}

-- Storage at address 64, for a slab object at address 1.
abbrev pub blank : Slab
blank = record {
  self = 1;
  start = 0;
  capacity = 0;
  bytes = λ i. 0;
  nodes = λ i. new_node;
  string_bytes_used = 0;
  node_count = 0;
  generation = 1;
  error = no_error_yet;
  valid = false;
}

abbrev pub empty : Slab
empty = initialize 64 240 blank

pub empty-IsDocument : IsDocument empty no_kids
empty-IsDocument = (initialize-IsDocument 64 240 blank (omega arith) (omega arith)).0

made_document :
    {kids : Kids} {s : Slab} {h : Handle} (r : Outcome Slab Handle)
    → Grows kids s r
    → r.0 ≡ ok h
    → IsDocument r.1 kids
made_document r (inl (n, g, b, doc, e)) done = doc
made_document r (inr (e, q)) done = absurd (cc)

-- One object.
abbrev pub with_object : Slab
with_object = (make_object empty).1

abbrev pub the_object : Handle
the_object = record { slab = 1; id = 0; generation = 1 }

-- The key that the tests use, and another one.
abbrev pub key : Bytes
key = b'a' ∷ []

abbrev pub other : Bytes
other = b'b' ∷ []

-- The object with the member `"a": 7`, which is node 1.
abbrev pub with_member : Slab
with_member = (add_scalar the_object key (unsigned 7) with_object).1

-- One array, and the array with the item `"b"`.
abbrev pub with_array : Slab
with_array = (make_array empty).1

abbrev pub with_item : Slab
with_item = (add_item the_object (text other) with_array).1

-- The object and a second root.
abbrev pub with_root : Slab
with_root = (make_uint64 7 with_object).1

abbrev pub the_root : Handle
the_root = record { slab = 1; id = 1; generation = 1 }

-- A slab in which an allocation has failed.
abbrev pub full : Slab
full = record blank { error = error_at out_of_memory 0 }

-- What the object with the member stands for.
abbrev pub member_value : Json
member_value = container true (entry key (leaf (unsigned 7)) no_entries)

-- What the calls return.
pub record Runs : Type 0 where
  pub object_made : (make_object empty).0 ≡ ok the_object
  pub array_made : (make_array empty).0 ≡ ok the_object
  pub key_fresh : find with_object the_object key ≡ none
  pub member_added : (add_scalar the_object key (unsigned 7) with_object).0 ≡ ok tt
  pub item_added : (add_item the_object (text other) with_array).0 ≡ ok tt
  pub object_live : typed_node with_object the_object ValueType.object ≡ some (with_object.nodes 0)
  pub array_live : typed_node with_array the_object ValueType.array ≡ some (with_array.nodes 0)
  pub object_here : with_object.self ≡ 1
  pub array_here : with_array.self ≡ 1
  pub object_count : with_object.node_count ≡ 1
  pub array_count : with_array.node_count ≡ 1
  pub member_live : typed_node with_member the_object ValueType.object ≡ some (with_member.nodes 0)
  pub item_live : typed_node with_item the_object ValueType.array ≡ some (with_item.nodes 0)
  pub member_here : with_member.self ≡ 1
  pub root_made : (make_uint64 7 with_object).0 ≡ ok the_root
  pub root_added : (add_object_member the_object key the_root with_root).0 ≡ ok tt
  pub item_here : with_item.self ≡ 1
  pub generation_one : with_object.generation ≡ 1
  pub member_removed : (remove the_object key with_member).0 ≡ ok tt
  pub text_made : (make_string other empty).0 ≡ ok the_object
  pub empty_valid : empty.valid ≡ true
  pub member_denotes : Denotes with_member 0 member_value
  pub member_valid : LiveAt with_member 0 1
  pub root_typed : typed_node with_root the_root ValueType.number ≡ some (with_root.nodes 1)
  pub root_unsigned : signed_of (with_root.nodes 1).payload ≡ pos 0
  pub text_copied : copy_string_trusted other empty ≡ (ok (string_at empty 1), copied other empty)
  pub member_apart : (with_member.start ≡ 64) × (with_member.capacity ≡ 240)

pub runs : Runs
unfolding remove remove_loop unlink bytes_eq make_object initialize allocate_node can_allocate_node
    make_object_handle dec_lt ℕ_discrete sub_size make_array make_array_handle find find_loop
    typed_node handle_node node_for add_scalar add_item status record_error modify checkpoint
    rollback allocate_string copy_bytes copy_string_trusted string_flags store_string_with_flags
    view_string store_payload make_string make_uint64 set_node_number_kind ancestor_loop check_child
    validate_attachment append_child_unchecked container_valid container_status
    container_record_error recorded or_rollback attach_created builder_add attach_member attach_item
    make_value add_object_member add_array_item add_uint64 add_string invalid_utf8_offset
    utf8_sequence_length Denotes DenotesEntries
runs = record {
  object_made = refl;
  array_made = refl;
  key_fresh = refl;
  member_added = refl;
  item_added = refl;
  object_live = refl;
  array_live = refl;
  object_here = refl;
  array_here = refl;
  object_count = refl;
  array_count = refl;
  member_live = refl;
  item_live = refl;
  member_here = refl;
  root_made = refl;
  root_added = refl;
  item_here = refl;
  generation_one = refl;
  member_removed = refl;
  text_made = refl;
  empty_valid = refl;
  member_denotes = (refl, (omega arith, refl, refl, (refl, refl, refl), refl));
  member_valid = (refl, refl, omega arith);
  root_typed = refl;
  root_unsigned = refl;
  text_copied = refl;
  member_apart = (refl, refl);
}

pub with_object-IsDocument : IsDocument with_object no_kids
with_object-IsDocument =
    made_document (make_object empty) (make_object-Grows empty-IsDocument) runs.object_made

pub with_array-IsDocument : IsDocument with_array no_kids
with_array-IsDocument =
    made_document (make_array empty) (make_array-Grows empty-IsDocument) runs.array_made

pub live :
    (s : Slab) (c : Handle) (type : ValueType) (n : Node)
    → typed_node s c type ≡ some n
    → IsLive s c type
live s c type n e = elim (typed_node_cases s c type) [ inl (l, _) ↦ l | inr (_, k) ↦ absurd (cc) ]

pub with_member-IsDocument : IsDocument with_member (with_child no_kids 0 1)
with_member-IsDocument =
    elim (add_member-Builds the_object key with_object-IsDocument (sym runs.object_here)
      (unsigned 7)) [
        | inl (_, _, _, doc, _) ↦
            subst (λ c. IsDocument with_member (with_child no_kids 0 c)) runs.object_count doc
        | inr (e, _, q, _, _) ↦ absurd (cc (runs.member_added))
      ]

pub with_item-IsDocument : IsDocument with_item (with_child no_kids 0 1)
with_item-IsDocument =
    elim (add_item-Builds the_object with_array-IsDocument (sym runs.array_here) (text other)) [
      | inl (_, _, _, doc, _) ↦
          subst (λ c. IsDocument with_item (with_child no_kids 0 c)) runs.array_count doc
      | inr (e, _, q, _, _) ↦ absurd (cc (runs.item_added))
    ]

pub with_root-IsDocument : IsDocument with_root no_kids
with_root-IsDocument =
    made_document (make_uint64 7 with_object) (make_uint64-Grows with_object-IsDocument 7)
      runs.root_made

-- A byte fits into the empty slab, and another one.
pub empty_room : StringRoom empty (length other)
unfolding initialize
empty_room = ground arith

pub empty_more_room : StringRoom (copied other empty) (length other)
unfolding initialize
empty_more_room = ground arith

pub key_ne_other : key ≢ other
key_ne_other = λ e. ground arith
