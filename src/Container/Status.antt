-- ===== src/Container/Status.antt =====
-- The status of a container, and the recording of errors (src/array.cpp, src/object.cpp, src/slab.cpp).
use slabjson.Prelude.{
  ◌≡◌, ◌≢◌, refl, ◌⊎◌, inl, inr, true, false, some, none, ◌==◌, if◌then◌else◌, arith, Bool-cases,
  ℕ_discrete,
}
use slabjson.Error.{Error, error_at, invalid_handle, is_ok}
use slabjson.Result.{ok, err}
use slabjson.Slab.{Slab, ValueType, Handle, null_slab, status, record_error}
use slabjson.Value.{handle_node, typed_node}
use slabjson.Container.{container_valid, container_status, container_record_error, recorded}
use slabjson.Forest.Ancestors.{LiveAt, node_for_cases, type_eq_iff}

-- The handle designates a live node of the type.
abbrev pub IsLive : Slab → Handle → ValueType → Type 0
IsLive s c type = (c.slab ≢ null_slab) × LiveAt s c.id c.generation × ((s.nodes c.id).type ≡ type)

pub typed_node_cases :
    (s : Slab) (c : Handle) (type : ValueType)
    → (IsLive s c type × (typed_node s c type ≡ some (s.nodes c.id)))
      ⊎ ((¬ (IsLive s c type)) × (typed_node s c type ≡ none))
unfolding typed_node handle_node
typed_node_cases s c type =
    ground (arith, node_for_cases s c.id c.generation, type_eq_iff (s.nodes c.id).type type)

-- The state after a failed call: the error is recorded, through a handle that is not null.
abbrev pub failed_state : Handle → Error → Slab → Slab
failed_state c e s = if c.slab == null_slab then s else record s { error = e }

-- Why the status of a container is an error.
pub data BadStatus (s : Slab) (c : Handle) (type : ValueType) : Error → Type 0 where
  null_container : c.slab ≡ null_slab → BadStatus s c type (error_at invalid_handle 0)
  earlier_error : c.slab ≢ null_slab → is_ok s.error.code ≡ false → BadStatus s c type s.error
  no_container :
      c.slab ≢ null_slab → ¬ (IsLive s c type) → BadStatus s c type (error_at invalid_handle 0)

pub container_status_cases :
    (s : Slab) (c : Handle) (type : ValueType)
    → ((is_ok s.error.code ≡ true) × IsLive s c type × (container_status type c s ≡ ok tt))
      ⊎ ((e : Error) × BadStatus s c type e
          × (container_status type c s ≡ err e)
          × (recorded {A = Unit {0}} c (err e, s) ≡ (err e, failed_state c e s)))
unfolding container_status container_valid status recorded container_record_error record_error
container_status_cases s c type = elim (ℕ_discrete c.slab null_slab) [
  | yes z ↦ inr (error_at invalid_handle 0, null_container z, ground arith, ground arith)
  | no nz ↦ elim (Bool-cases (is_ok s.error.code)) [
    | inr bad ↦ inr (s.error, earlier_error nz bad, ground arith, ground arith)
    | inl good ↦ elim (typed_node_cases s c type) [
      | inl (live, e) ↦ inl (good, live, ground arith)
      | inr (dead, e) ↦
          inr (error_at invalid_handle 0, no_container nz dead, ground arith, ground arith)
    ]
  ]
]

pub recorded-ok :
    {A : Type 0} (c : Handle) (a : A) (s : Slab) → recorded {A = A} c (ok a, s) ≡ (ok a, s)
unfolding recorded
recorded-ok c a s = refl

-- Where the status was good, a failure is recorded as it is.
pub recorded-err :
    {A : Type 0} (c : Handle) (e : Error) (s : Slab)
    → is_ok s.error.code ≡ true
    → recorded {A = A} c (err e, s) ≡ (err e, failed_state c e s)
unfolding recorded container_record_error record_error
recorded-err c e s good = ground arith

pub not-BadStatus :
    {s : Slab} {c : Handle} {type : ValueType} {e : Error}
    → is_ok s.error.code ≡ true
    → IsLive s c type
    → ¬ (BadStatus s c type e)
not-BadStatus good live (null_container z) = live.0 z
not-BadStatus good live (earlier_error nz bad) = cc
not-BadStatus good live (no_container nz dead) = dead live
