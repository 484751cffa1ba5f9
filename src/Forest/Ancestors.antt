-- ===== src/Forest/Ancestors.antt =====
-- The cycle check and the other checks of `validate_attachment` (src/slab.cpp).
use slabjson.Prelude.{
  ℕ, zero, suc, ◌+◌, ◌<◌, ◌≡◌, ◌≢◌, ◌↔◌, ℕ_discrete, refl, subst, ◌⊎◌, inl, inr, true, some, none,
  List, ◌∈◌, length, arith, Bool-cases,
}
use slabjson.Prelude.Walk.{Walk-length, Walk-unique, end_walk, visit}
use slabjson.Error.{
  Error, error_at, cycle_detected, invalid_handle, type_mismatch, cross_slab, already_attached,
}
use slabjson.Result.{Result, ok, err}
use slabjson.Slab.{
  Slab, ValueType, type_eq, invalid_node_id, node_for, Handle, null_slab, ancestor_loop,
  check_child, validate_attachment,
}
use slabjson.Forest.{Kids, Ancestry, parent_of, IsForest}
use slabjson.Forest.Basic.{node_for_live}

-- The walk decides whether `child` is `ancestor` or above it.
abbrev CycleCheck : ℕ → List ℕ → Result (Unit {0}) → Type 0
CycleCheck child xs r =
    ((¬ (child ∈ xs)) × (r ≡ ok tt)) ⊎ ((child ∈ xs) × (r ≡ err (error_at cycle_detected 0)))

ancestor_loop-CycleCheck :
    (s : Slab) (generation child fuel ancestor : ℕ) (xs : List ℕ)
    → s.valid ≡ true
    → generation ≡ s.generation
    → Ancestry s ancestor xs
    → length xs < fuel
    → CycleCheck child xs (ancestor_loop s generation child fuel ancestor)
unfolding ancestor_loop
ancestor_loop-CycleCheck s generation child zero ancestor xs v e w l = absurd (omega arith)
ancestor_loop-CycleCheck s generation child (suc fuel) ancestor xs v e (end_walk d) l = ground arith
ancestor_loop-CycleCheck s generation child (suc fuel) ancestor xs v e (visit {xs = ys} d b w) l =
    ground (
      arith,
      node_for_live s ancestor generation v e b,
      ancestor_loop-CycleCheck s generation child fuel (parent_of s ancestor) ys v e w
          (omega arith),
    )

pub type_eq_iff : (a b : ValueType) → (type_eq a b ≡ true) ↔ (a ≡ b)
type_eq_iff a b = ground arith

-- The handle's number and generation designate a node of the slab.
abbrev pub LiveAt : Slab → ℕ → ℕ → Type 0
LiveAt s id generation = (s.valid ≡ true) × (generation ≡ s.generation) × (id < s.node_count)

pub node_for_cases :
    (s : Slab) (id generation : ℕ)
    → (LiveAt s id generation × (node_for s id generation ≡ some (s.nodes id)))
      ⊎ ((¬ (LiveAt s id generation)) × (node_for s id generation ≡ none))
unfolding node_for
node_for_cases s id generation = ground arith

-- What must hold for `child` to become a child of the node `p` of the given type.
pub record Attachable (s : Slab) (p generation : ℕ) (child : Handle) (type : ValueType)
    : Type 0 where
  pub parent_live : LiveAt s p generation
  pub parent_typed : (s.nodes p).type ≡ type
  pub same_slab : (child.slab ≢ null_slab) × (child.slab ≡ s.self)
  pub child_live : LiveAt s child.id child.generation
  pub child_root : parent_of s child.id ≡ invalid_node_id
  pub acyclic : (xs : List ℕ) → Ancestry s p xs → ¬ (child.id ∈ xs)

-- Why an attachment is refused, and the error for it.
pub data Refusal (s : Slab) (p generation : ℕ) (child : Handle) (type : ValueType)
    : Error → Type 0 where
  dead_parent :
      ¬ (LiveAt s p generation) → Refusal s p generation child type (error_at invalid_handle 0)
  wrong_type :
      LiveAt s p generation
      → (s.nodes p).type ≢ type
      → Refusal s p generation child type (error_at type_mismatch 0)
  null_child :
      child.slab ≡ null_slab → Refusal s p generation child type (error_at invalid_handle 0)
  foreign_child :
      child.slab ≢ null_slab
      → child.slab ≢ s.self
      → Refusal s p generation child type (error_at cross_slab 0)
  dead_child :
      child.slab ≡ s.self
      → ¬ (LiveAt s child.id child.generation)
      → Refusal s p generation child type (error_at invalid_handle 0)
  has_parent :
      LiveAt s child.id child.generation
      → parent_of s child.id ≢ invalid_node_id
      → Refusal s p generation child type (error_at already_attached 0)
  own_ancestor :
      (xs : List ℕ)
      → Ancestry s p xs
      → child.id ∈ xs
      → Refusal s p generation child type (error_at cycle_detected 0)

abbrev pub Verdict : Slab → ℕ → ℕ → Handle → ValueType → Result (Unit {0}) → Type 0
Verdict s p generation child type r =
    (Attachable s p generation child type × (r ≡ ok tt))
    ⊎ ((e : Error) × Refusal s p generation child type e × (r ≡ err e))

module _ {s : Slab} {kids : Kids} (g : IsForest s kids) (p generation : ℕ) (child : Handle)
    (type : ValueType) where
  check_child-Verdict :
      LiveAt s p generation
      → (s.nodes p).type ≡ type
      → Verdict s p generation child type (check_child s p generation child)
  unfolding check_child
  check_child-Verdict live typed = elim (ℕ_discrete child.slab null_slab) [
    | yes z ↦ inr (error_at invalid_handle 0, null_child z, ground arith)
    | no nz ↦ elim (ℕ_discrete child.slab s.self) [
      | no f ↦ inr (error_at cross_slab 0, foreign_child nz f, ground arith)
      | yes h ↦ elim (node_for_cases s child.id child.generation) [
        | inr (dead, e) ↦ inr (error_at invalid_handle 0, dead_child h dead, ground arith)
        | inl (alive, e) ↦ elim (ℕ_discrete (parent_of s child.id) invalid_node_id) [
          | no a ↦ inr (error_at already_attached 0, has_parent alive a, ground arith)
          | yes root ↦
              let (xs, w) = g.rooted p live.2 in
              elim (ancestor_loop-CycleCheck s generation child.id (s.node_count + 1) p xs live.0
                live.1 w (omega (arith, Walk-length w))) [
                  | inr (m, c) ↦ inr (error_at cycle_detected 0, own_ancestor xs w m, ground arith)
                  | inl (out, c) ↦ inl (
                    record {
                      parent_live = live;
                      parent_typed = typed;
                      same_slab = (nz, h);
                      child_live = alive;
                      child_root = root;
                      acyclic =
                          λ ys v m. out (subst (λ zs. child.id ∈ zs) (Walk-unique v w refl) m);
                    },
                    ground arith,
                  )
                ]
        ]
      ]
    ]
  ]

  -- In a forest, `validate_attachment` accepts a child exactly if it can be attached (parent and
  -- child live, the parent of the type, the child a root of the same slab and not above the
  -- parent), and otherwise its error names the condition that fails. The walk for cycles is never
  -- cut short.
  pub validate_attachment-Verdict :
      Verdict s p generation child type (validate_attachment s p generation child type)
  unfolding validate_attachment
  validate_attachment-Verdict = elim (node_for_cases s p generation) [
    | inr (dead, e) ↦ inr (error_at invalid_handle 0, dead_parent dead, rw (e, validate_attachment))
    | inl (live, e) ↦ elim (Bool-cases (type_eq (s.nodes p).type type)) [
      | inr d ↦ inr (
        error_at type_mismatch 0,
        wrong_type live (λ k. ground (arith, type_eq_iff (s.nodes p).type type)),
        ground arith,
      )
      | inl t ↦
          let typed = (type_eq_iff (s.nodes p).type type).0 t in
          ground (arith, check_child-Verdict live typed)
    ]
  ]

-- No attachment is both possible and refused.
pub not-Refusal :
    {s : Slab} {p generation : ℕ} {child : Handle} {type : ValueType} {e : Error}
    → Attachable s p generation child type
    → ¬ (Refusal s p generation child type e)
not-Refusal a (dead_parent d) = d a.parent_live
not-Refusal a (wrong_type l d) = d a.parent_typed
not-Refusal a (null_child z) = a.same_slab.0 z
not-Refusal a (foreign_child nz d) = d a.same_slab.1
not-Refusal a (dead_child h d) = d a.child_live
not-Refusal a (has_parent l d) = d a.child_root
not-Refusal a (own_ancestor xs w m) = a.acyclic xs w m
