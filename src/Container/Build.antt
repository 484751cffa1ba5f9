-- ===== src/Container/Build.antt =====
-- `ContainerBuilder::add` (src/detail/container_builder.hpp): the child is made and attached, or the
-- slab is as it was but for the recorded error.
use slabjson.Prelude.{◌≡◌, refl, sym, ap, subst, ◌∙◌, ◌⊎◌, inl, inr, true, ◌∈◌, arith, ℕ_discrete}
use slabjson.Prelude.Walk.{Walk-agree, Walk-below, Walk-unique}
use slabjson.Error.{Error, is_ok}
use slabjson.Result.{Outcome, Op, ok, err, and_then}
use slabjson.Slab.{Slab, Node, ValueType, Handle, null_slab, checkpoint, rollback, make_value}
use slabjson.Space.{Extends, Extends-refl, Extends-trans, Grown, rollback-Extends}
use slabjson.Container.{recorded, builder_add, attach_created, or_rollback}
use slabjson.Container.Status.{
  IsLive, BadStatus, failed_state, container_status_cases, recorded-err, recorded-ok,
}
use slabjson.Forest.{Kids, Bare, Ancestry, with_child, IsForest}
use slabjson.Forest.Ancestors.{Attachable}
use slabjson.Document.{IsDocument}
use slabjson.Document.Preserve.{IsDocument-same}
use slabjson.Document.Make.{Grows}

-- All that the slab held before is there, and it holds no more.
pub record Unchanged (s s' : Slab) : Type 0 where
  pub extends : Extends s s'
  pub count_same : s'.node_count ≡ s.node_count
  pub used_same : s'.string_bytes_used ≡ s.string_bytes_used

pub failed_state-Unchanged : (c : Handle) (e : Error) (s : Slab) → Unchanged s (failed_state c e s)
failed_state-Unchanged c e s = elim (ℕ_discrete c.slab null_slab) [
  | yes z ↦
      subst (Unchanged s) (ground arith)
        (record { extends = Extends-refl s; count_same = refl; used_same = refl })
  | no nz ↦ subst (Unchanged s) (ground arith) (
      let u : Unchanged s (record s { error = e }) = record {
        extends = record {
          self_kept = refl;
          start_kept = refl;
          capacity_kept = refl;
          generation_kept = refl;
          valid_kept = refl;
          count_le = omega arith;
          used_le = omega arith;
          nodes_kept = λ i h. refl;
          bytes_kept = λ i h. refl;
        };
        count_same = refl;
        used_same = refl;
      } in
      u)
]

pub Unchanged-IsDocument :
    {s s' : Slab} {kids : Kids} → IsDocument s kids → Unchanged s s' → IsDocument s' kids
Unchanged-IsDocument {s} {s'} d u = IsDocument-same d u.extends u.count_same (record {
  small = omega (arith, d.fits.small, u.extends.capacity_kept);
  room = omega (arith, d.fits.room, u.extends.capacity_kept, u.count_same, u.used_same);
  generation_pos = omega (arith, d.fits.generation_pos, u.extends.generation_kept);
  generation_small = omega (arith, d.fits.generation_small, u.extends.generation_kept);
})

-- A new root can be attached to a live container.
pub fresh-Attachable :
    {s s' : Slab} {kids : Kids} {n : Node} (c : Handle) (type : ValueType)
    → IsForest s kids
    → Grown s s' n
    → Bare n
    → c.slab ≡ s.self
    → IsLive s c type
    → Attachable s' c.id c.generation (make_value s s.node_count) type
unfolding make_value
fresh-Attachable {s} {s'} c type g gr b here (nz, (v, e, h), t) = record {
  parent_live =
      (gr.extends.valid_kept ∙ v, e ∙ sym gr.extends.generation_kept, omega (arith, gr.counted));
  parent_typed = ap (λ n. n.type) (gr.extends.nodes_kept c.id h) ∙ t;
  same_slab = (λ z. nz (here ∙ z), sym gr.extends.self_kept);
  child_live =
      (gr.extends.valid_kept ∙ v, sym gr.extends.generation_kept, omega (arith, gr.counted));
  child_root = ap (λ n. n.parent) gr.node ∙ b.0;
  acyclic = λ xs w m.
      let (ys, u) = g.rooted c.id h in
      let u' : Ancestry s' c.id ys =
        Walk-agree u (λ a k. omega (arith, Walk-below u a k, gr.counted))
          (λ a k. ap (λ n. n.parent) (gr.extends.nodes_kept a (Walk-below u a k))) in
      absurd (
        omega (
          arith,
          Walk-below u s.node_count (subst (λ zs. s.node_count ∈ zs) (Walk-unique w u' refl) m),
        ));
}

-- How `ContainerBuilder::add` ends. `Content` is what the new node holds, and `Fails` is why an
-- attachment of a new value may fail.
abbrev pub Builds :
    {A : Type 0}
    → (Handle → A)
    → ValueType
    → Handle
    → Op Slab Handle
    → (Slab → Node → Type 0)
    → (Error → Type 0)
    → Kids
    → Slab
    → Outcome Slab A
    → Type 0
Builds finish type parent create Content Fails kids s r =
    ((is_ok s.error.code ≡ true)
      × IsLive s parent type
      × (r.0 ≡ ok (finish (make_value s s.node_count)))
      × IsDocument r.1 (with_child kids parent.id s.node_count)
      × Content r.1 (r.1.nodes s.node_count))
    ⊎ ((e : Error) × (BadStatus s parent type e ⊎ ((create s ≡ (err e, s)) ⊎ Fails e))
        × (r.0 ≡ err e)
        × Unchanged s r.1
        × (r.1.error ≡ (failed_state parent e s).error))

module _ {A : Type 0} (finish : Handle → A) (type : ValueType) (parent : Handle)
    (create : Op Slab Handle) (attach : Handle → Op Slab (Unit {0}))
    (Content : Slab → Node → Type 0) (Fails : Error → Type 0) {s : Slab} {kids : Kids}
    (d : IsDocument s kids) (here : parent.slab ≡ s.self) where
  -- What the attachment of a new root may do.
  abbrev Attaches : Slab → Handle → Outcome Slab (Unit {0}) → Type 0
  Attaches s' child r =
      ((r.0 ≡ ok tt)
        × IsDocument r.1 (with_child kids parent.id child.id)
        × Content r.1 (r.1.nodes child.id))
      ⊎ ((e : Error) × Fails e × (r ≡ (err e, failed_state parent e s')))

  module _ (good : is_ok s.error.code ≡ true) (live : IsLive s parent type) where
    -- The attachment has returned `r`.
    after_attach :
        (s' : Slab) (child : Handle) (r : Outcome Slab (Unit {0}))
        → make_value s s.node_count ≡ child
        → Extends s s'
        → Attaches s' child r
        → Builds finish type parent create Content Fails kids s
            (and_then (or_rollback (checkpoint s) r) (λ _ s''. (ok (finish child), s'')))
    unfolding or_rollback make_value rollback checkpoint
    after_attach s' child (ok u, t) same x (inl (done, doc, held)) = inl (
      good,
      live,
      ap (λ v. ok (finish v)) (sym same),
      subst (λ k. IsDocument t (with_child kids parent.id k)) (ap (λ v. v.id) (sym same)) doc,
      subst (λ k. Content t (t.nodes k)) (ap (λ v. v.id) (sym same)) held,
    )
    after_attach s' child (err e, t) same x (inl (done, doc, held)) = absurd (cc)
    after_attach s' child (ok u, t) same x (inr (e, why, fail)) = absurd (cc)
    after_attach s' child (err e', t) same x (inr (e, why, fail)) =
        let state : failed_state parent e s' ≡ t = cc in
        inr (
          e,
          inr (inr why),
          cc,
          subst (λ u. Unchanged s (rollback (checkpoint s) u)) state (undone e),
          subst (λ u. u.error ≡ (failed_state parent e s).error) state (ground arith),
        )
      where
        undone : (e : Error) → Unchanged s (rollback (checkpoint s) (failed_state parent e s'))
        undone e = record {
          extends = rollback-Extends (Extends-trans x (failed_state-Unchanged parent e s').extends);
          count_same = refl;
          used_same = refl;
        }

    live_later : {s' : Slab} → Extends s s' → IsLive s' parent type
    live_later {s'} x =
        let (nz, (v, e, h), t) = live in
        (
          nz,
          (x.valid_kept ∙ v, e ∙ sym x.generation_kept, omega (arith, x.count_le)),
          ap (λ n. n.type) (x.nodes_kept parent.id h) ∙ t,
        )

    -- The creation has returned `r`.
    after_create :
        (r : Outcome Slab Handle)
        → create s ≡ r
        → Grows kids s r
        → ((s' : Slab) (child : Handle)
            → create s ≡ (ok child, s')
            → IsDocument s' kids
            → is_ok s'.error.code ≡ true
            → IsLive s' parent type
            → Attachable s' parent.id parent.generation child type
            → Attaches s' child (attach child s'))
        → Builds finish type parent create Content Fails kids s
            (and_then (recorded parent r) (attach_created finish (checkpoint s) attach))
    unfolding attach_created
    after_create (ok child, s') run (inl (n, g, b, doc, e)) attaches =
        let same : make_value s s.node_count ≡ child = cc in
        rw (recorded-ok parent child s') (
          after_attach s' child (attach child s') same g.extends (
            attaches s' child run doc (ap (λ x. is_ok x.code) g.error_kept ∙ good)
              (live_later g.extends)
              (subst (λ v. Attachable s' parent.id parent.generation v type) same
                (fresh-Attachable parent type d.forest g b here live))))
    after_create (ok child, s') run (inr (e, fail)) attaches = absurd (cc)
    after_create (err e', s') run (inl (n, g, b, doc, e)) attaches = absurd (cc)
    after_create r run (inr (e, fail)) attaches =
        subst Ends (sym fail) (subst After (sym (recorded-err parent e s good)) ended)
      where
        After : Outcome Slab Handle → Type 0
        After r =
            Builds finish type parent create Content Fails kids s
              (and_then r (attach_created finish (checkpoint s) attach))

        Ends : Outcome Slab Handle → Type 0
        Ends r = After (recorded parent r)

        ended : After (err e, failed_state parent e s)
        ended = inr (e, inr (inl (run ∙ fail)), refl, failed_state-Unchanged parent e s, refl)

  pub builder_add-Builds :
      Grows kids s (create s)
      → ((s' : Slab) (child : Handle)
          → create s ≡ (ok child, s')
          → IsDocument s' kids
          → is_ok s'.error.code ≡ true
          → IsLive s' parent type
          → Attachable s' parent.id parent.generation child type
          → Attaches s' child (attach child s'))
      → Builds finish type parent create Content Fails kids s
          (builder_add finish type parent create attach s)
  unfolding builder_add
  builder_add-Builds grows attaches = elim (container_status_cases s parent type) [
    | inl (good, live, st) ↦
        rw (st, recorded-ok {A = Unit {0}} parent tt s, builder_add)
          (after_create good live (create s) refl grows attaches)
    | inr (e, why, st, rec) ↦
        rw (st, rec, builder_add) (inr (e, inl why, refl, failed_state-Unchanged parent e s, refl))
  ]
