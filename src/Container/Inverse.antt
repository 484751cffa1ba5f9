-- ===== src/Container/Inverse.antt =====
-- A successful `ContainerBuilder::add` (src/detail/container_builder.hpp) has made the child and
-- attached it.
use slabjson.Prelude.{◌≡◌, refl, sym, ap, inl, inr}
use slabjson.Result.{Outcome, Op, ok, err, and_then}
use slabjson.Slab.{Slab, ValueType, Handle, checkpoint}
use slabjson.Container.{builder_add, attach_created, or_rollback, recorded}
use slabjson.Container.Status.{container_status_cases, recorded-ok}

module _ {A : Type 0} (finish : Handle → A) (type : ValueType) (parent : Handle)
    (create : Op Slab Handle) (attach : Handle → Op Slab (Unit {0})) (s : Slab) (a : A) where
  -- The child is made, then attached; nothing else happens.
  abbrev pub Attached : Outcome Slab A → Type 0
  Attached r =
      (child : Handle) × (s' : Slab) × (create s ≡ (ok child, s'))
      × ((attach child s').0 ≡ ok tt)
      × (r ≡ (ok (finish child), (attach child s').1))

  from_attach :
      (child : Handle) (s' : Slab) (r : Outcome Slab (Unit {0}))
      → create s ≡ (ok child, s')
      → attach child s' ≡ r
      → (and_then (or_rollback (checkpoint s) r) (λ _ s''. (ok (finish child), s''))).0 ≡ ok a
      → Attached (and_then (or_rollback (checkpoint s) r) (λ _ s''. (ok (finish child), s'')))
  unfolding or_rollback
  from_attach child s' (ok u, t) made run done =
      (child, s', made, ap (λ r. r.0) run, ap (λ r. (ok (finish child), r.1)) (sym run))
  from_attach child s' (err e, t) made run done = absurd (cc)

  from_create :
      (r : Outcome Slab Handle)
      → create s ≡ r
      → (and_then (recorded parent r) (attach_created finish (checkpoint s) attach)).0 ≡ ok a
      → Attached (and_then (recorded parent r) (attach_created finish (checkpoint s) attach))
  unfolding recorded attach_created
  from_create (ok child, s') made done = from_attach child s' (attach child s') made refl done
  from_create (err e, s') made done = absurd (cc)

  pub builder_add-Attached :
      (builder_add finish type parent create attach s).0 ≡ ok a
      → Attached (builder_add finish type parent create attach s)
  unfolding builder_add
  builder_add-Attached = elim (container_status_cases s parent type) [
    | inl (good, live, st) ↦
        rw (st, recorded-ok {A = Unit {0}} parent tt s, builder_add) (from_create (create s) refl)
    | inr (e, why, st, rec) ↦ rw (st, rec, builder_add) (λ done. absurd (cc))
  ]
