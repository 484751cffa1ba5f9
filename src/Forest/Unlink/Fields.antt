-- ===== src/Forest/Unlink/Fields.antt =====
-- What `unlink` of src/object.cpp writes into each field of each node.
use slabjson.Prelude.{ℕ, ◌≡◌, arith, ◌==◌, if◌then◌else◌}
use slabjson.Slab.{Slab, invalid_node_id, modify, no_string}
use slabjson.Object.{unlink}
use slabjson.Forest.{next_of, parent_of}

module _ (s : Slab) (p previous c : ℕ) where
  pub unlink_count : (unlink p previous c s).node_count ≡ s.node_count
  unfolding unlink modify
  unlink_count = ground arith

  pub unlink_content :
      (i : ℕ)
      → (((unlink p previous c s).nodes i).type ≡ (s.nodes i).type)
        × (((unlink p previous c s).nodes i).aux ≡ (s.nodes i).aux)
        × (((unlink p previous c s).nodes i).payload ≡ (s.nodes i).payload)
        × (((unlink p previous c s).nodes i).value_flags ≡ (s.nodes i).value_flags)
        × (((unlink p previous c s).nodes i).key_flags
            ≡ (if i == c then 0 else (s.nodes i).key_flags))
        × (((unlink p previous c s).nodes i).key ≡ (if i == c then no_string else (s.nodes i).key))
  unfolding unlink modify
  unlink_content i = ground arith

  pub unlink_parent :
      (i : ℕ)
      → parent_of (unlink p previous c s) i ≡ (if i == c then invalid_node_id else parent_of s i)
  unfolding unlink modify
  unlink_parent i = ground arith

  pub unlink_next :
      (i : ℕ)
      → next_of (unlink p previous c s) i ≡ (
          if i == c
          then invalid_node_id
          else if previous == invalid_node_id
          then next_of s i
          else if i == previous
          then next_of s c
          else next_of s i)
  unfolding unlink modify
  unlink_next i = ground arith

  pub unlink_first :
      (i : ℕ)
      → ((unlink p previous c s).nodes i).first_child ≡ (
          if previous == invalid_node_id
          then if i == p then next_of s c else (s.nodes i).first_child
          else (s.nodes i).first_child)
  unfolding unlink modify
  unlink_first i = ground arith

  pub unlink_last :
      (i : ℕ)
      → ((unlink p previous c s).nodes i).last_child ≡ (
          if i == p
          then if (s.nodes p).last_child == c then previous else (s.nodes p).last_child
          else (s.nodes i).last_child)
  unfolding unlink modify
  unlink_last i = ground arith
