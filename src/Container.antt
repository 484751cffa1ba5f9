-- ===== src/Container.antt =====
-- What `Array` and `Object` share: src/detail/container_builder.hpp, and the methods of src/array.cpp
-- and src/object.cpp that read alike but for the type of the container.
pub mod Status
pub mod Attach
pub mod Build
pub mod Read
pub mod Inverse
pub mod Sticky
use slabjson.Prelude.{ℕ, zero, suc, ◌+◌, Bool, none, some, ◌==◌, if◌then◌else◌, is_some}
use slabjson.Error.{Error, error_at, invalid_handle}
use slabjson.Result.{Result, Outcome, Op, ok, err, and_then}
use slabjson.Slab.{
  ValueType, Slab, Checkpoint, invalid_node_id, node_for, status, clear_error, record_error,
  checkpoint, rollback, Handle, Value, null_slab,
}
use slabjson.Value.{handle_node, typed_node}

-- `Array::valid` and `Object::valid`
unfoldable pub container_valid : ValueType → Slab → Handle → Bool
container_valid type s c = is_some (typed_node s c type)

-- `Array::status` and `Object::status`
unfoldable pub container_status : ValueType → Handle → Slab → Result (Unit {0})
container_status type c s =
    if c.slab == null_slab then err (error_at invalid_handle 0) else elim (status s) [
      | err e ↦ err e
      | ok _ ↦ if container_valid type s c then ok tt else err (error_at invalid_handle 0)
    ]

unfoldable pub container_clear_error : Handle → Slab → Slab
container_clear_error c s = if c.slab == null_slab then s else clear_error s

unfoldable pub container_record_error : Handle → Error → Slab → Error × Slab
container_record_error c e s = if c.slab == null_slab then (e, s) else record_error e s

-- `return record_error(result.error());`
unfoldable pub recorded : {A : Type 0} → Handle → Outcome Slab A → Outcome Slab A
recorded c (ok a, s) = (ok a, s)
recorded c (err e, s) = (err (container_record_error c e s).0, (container_record_error c e s).1)

-- `if (!attached) { slab->rollback(checkpoint); return attached.error(); }`
unfoldable pub or_rollback : {A : Type 0} → Checkpoint → Outcome Slab A → Outcome Slab A
or_rollback cp (ok a, s) = (ok a, s)
or_rollback cp (err e, s) = (err e, rollback cp s)

-- `ContainerBuilder::add`; `finish` makes the result of the child, a handle to it or nothing.
module _ {A : Type 0} where
  unfoldable pub attach_created :
      (Handle → A) → Checkpoint → (Handle → Op Slab (Unit {0})) → Handle → Op Slab A
  attach_created finish cp attach child s =
      and_then (or_rollback cp (attach child s)) λ _ s'. (ok (finish child), s')

  unfoldable pub builder_add :
      (Handle → A) → ValueType → Handle → Op Slab Handle → (Handle → Op Slab (Unit {0})) → Op Slab A
  builder_add finish type parent create attach s =
      and_then (recorded parent (container_status type parent s, s))
        λ _ s. and_then (recorded parent (create s)) (attach_created finish (checkpoint s) attach)

-- `Array::size` and `Object::size`. A child list has no more items than there are nodes
-- (Container/Read.antt), so `node_count + 1` rounds are enough.
unfoldable pub size_loop : Slab → ℕ → ℕ → ℕ → ℕ → ℕ
size_loop s generation zero child count = 0
size_loop s generation (suc fuel) child count =
    if child == invalid_node_id then count else elim (node_for s child generation) [
      | none ↦ 0
      | some n ↦ size_loop s generation fuel n.next_sibling (count + 1)
    ]

unfoldable pub container_size : ValueType → Slab → Handle → ℕ
container_size type s c = elim (typed_node s c type) [
  | none ↦ 0
  | some n ↦ size_loop s c.generation (s.node_count + 1) n.first_child 0
]

unfoldable pub container_empty : ValueType → Slab → Handle → Bool
container_empty type s c = container_size type s c == 0

-- An iterator has a handle's fields, too.
abbrev pub Iterator : Type 0
Iterator = Handle

unfoldable pub end_of : Handle → Iterator
end_of c = record c { id = invalid_node_id }

unfoldable pub begin_of : ValueType → Slab → Handle → Iterator
begin_of type s c = elim (typed_node s c type) [
  | none ↦ end_of c
  | some n ↦ record c { id = n.first_child }
]

-- `operator++`
unfoldable pub next : Slab → Iterator → Iterator
next s it = elim (handle_node s it) [
  | none ↦ record it { id = invalid_node_id }
  | some n ↦ record it { id = n.next_sibling }
]

-- `operator++(int)`: the iterator as it was, and the one after it.
unfoldable pub post_next : Slab → Iterator → Iterator × Iterator
post_next s it = (it, next s it)

-- `Value{nullptr, 0, 0}`
abbrev pub null_value : Value
null_value = record { slab = null_slab; id = 0; generation = 0 }
