-- ===== src/Slab/Attach.antt =====
-- src/slab.cpp: the checks before a value is attached to a container, and the attachment.
use slabjson.Prelude.{ℕ, zero, suc, ◌+◌, not, ◌||◌, none, some, ◌==◌, if◌then◌else◌}
use slabjson.Error.{
  error_at, invalid_handle, type_mismatch, cross_slab, already_attached, cycle_detected,
  internal_error,
}
use slabjson.Result.{Result, ok, err}
use slabjson.Slab.Data.{ValueType, Slab, invalid_node_id, type_eq}
use slabjson.Slab.Memory.{node_for, modify}
use slabjson.Slab.Make.{Handle, null_slab}

-- The walk from the parent to its root, which must not meet the child. It takes no more rounds than
-- there are nodes (Forest/Ancestors.antt); a walk that ran out of rounds would report the same
-- internal error as one that met a dangling link.
unfoldable pub ancestor_loop : Slab → ℕ → ℕ → ℕ → ℕ → Result (Unit {0})
ancestor_loop s generation child zero ancestor = err (error_at internal_error 0)
ancestor_loop s generation child (suc fuel) ancestor =
    if ancestor == invalid_node_id
    then ok tt
    else if ancestor == child
    then err (error_at cycle_detected 0)
    else elim (node_for s ancestor generation) [
      | none ↦ err (error_at internal_error 0)
      | some n ↦ ancestor_loop s generation child fuel n.parent
    ]

unfoldable pub check_child : Slab → ℕ → ℕ → Handle → Result (Unit {0})
check_child s parent_id generation child =
    if child.slab == null_slab
      || (not (child.slab == s.self) || not (child.generation == s.generation))
    then (if child.slab == null_slab || child.slab == s.self
        then err (error_at invalid_handle 0)
        else err (error_at cross_slab 0))
    else elim (node_for s child.id child.generation) [
      | none ↦ err (error_at invalid_handle 0)
      | some n ↦
          if n.parent == invalid_node_id
          then ancestor_loop s generation child.id (s.node_count + 1) parent_id
          else err (error_at already_attached 0)
    ]

unfoldable pub validate_attachment : Slab → ℕ → ℕ → Handle → ValueType → Result (Unit {0})
validate_attachment s parent_id generation child parent_type =
    elim (node_for s parent_id generation) [
      | none ↦ err (error_at invalid_handle 0)
      | some n ↦
          if type_eq n.type parent_type
          then check_child s parent_id generation child
          else err (error_at type_mismatch 0)
    ]

-- The link from the last child, or from the parent if there is none.
abbrev link_last : ℕ → ℕ → ℕ → Slab → Slab
link_last parent_id last child_id s =
    if last == invalid_node_id
    then modify parent_id (λ n. record n { first_child = child_id }) s
    else modify last (λ n. record n { next_sibling = child_id }) s

unfoldable pub append_child_unchecked : ℕ → ℕ → Slab → Slab
append_child_unchecked parent_id child_id s =
    let linked =
      modify child_id (λ n. record n { parent = parent_id; next_sibling = invalid_node_id }) s in
    modify parent_id (λ n. record n { last_child = child_id })
      (link_last parent_id (linked.nodes parent_id).last_child child_id linked)
