-- ===== src/Parse/Arrays.antt =====
-- `parse_array` of src/parse.cpp, and what it shares with `parse_object`.
use slabjson.Prelude.{
  ℕ, zero, suc, ◌+◌, ◌≤◌, ◌<◌, ◌≡◌, refl, sym, ap, subst, ◌∙◌, inl, inr, true, ◌==◌, length, arith,
  Bool-cases, Option,
}
use slabjson.Error.{Error, error_at, parse_unexpected_token}
use slabjson.Result.{Op, ok, err, ◌>>◌}
use slabjson.Utf8.{Bytes, byte_at}
use slabjson.Slab.{Slab, Value, make_value, append_child_unchecked}
use slabjson.Space.{Extends, Extends-refl, Extends-trans}
use slabjson.Forest.{Kids}
use slabjson.Document.{IsDocument}
use slabjson.Parse.Values.{Parser, skip_whitespace, more_input, next_entry, array_loop}
use slabjson.Parse.Errors.{OfInput}
use slabjson.Parse.Positions.{skip-Moved}
use slabjson.Parse.Parsed.{Parsed, Parses, make_value_kept}
use slabjson.Parse.Open.{Open, Ready, added-Open}

pub handle_id : {v : Value} (s : Slab) (i : ℕ) → v ≡ make_value s i → v.id ≡ i
unfolding make_value
handle_id s i e = ap (λ v. v.id) e

pub Parsed-Ready :
    {input : Bytes} {kids : Kids} {p q : Parser} {value : Value}
    → (g : Parsed input kids p value q) → Ready kids p.slab q.slab
Parsed-Ready g = record {
  extends = g.extends;
  kids_then = g.kids_then;
  document = g.document;
  kept = g.kept;
  grown = g.grown;
  root = g.root;
}

-- The parser of a value.
abbrev pub ParsesAll : Bytes → Op Parser Value → Type 0
ParsesAll input element =
    (kids : Kids) (p : Parser)
    → IsDocument p.slab kids
    → p.slab.valid ≡ true
    → p.position ≤ length input
    → Parses input kids p (element p)

-- A container that `base` is about to make stands open.
pub record Inside (input : Bytes) (kids : Kids) (base : Parser) (container : Value) (q : Parser)
    : Type 0 where
  pub opened : Open kids base.slab q.slab
  pub handle : container ≡ make_value base.slab base.slab.node_count
  pub valid : base.slab.valid ≡ true
  pub forward : base.position < q.position
  pub within : q.position ≤ length input

module _ (input : Bytes) {kids : Kids} (base : Parser) (container : Value) where
  pub Inside-move :
      {q : Parser} (r : Parser)
      → Inside input kids base container q
      → r.slab ≡ q.slab
      → q.position ≤ r.position
      → r.position ≤ length input
      → Inside input kids base container r
  Inside-move r i e l w = record {
    opened = subst (Open kids base.slab) (sym e) i.opened;
    handle = i.handle;
    valid = i.valid;
    forward = omega (arith, i.forward);
    within = w;
  }

  pub failed-Parses :
      {q : Parser} (e : Error) (r : Parser)
      → Inside input kids base container q
      → OfInput input e
      → Extends q.slab r.slab
      → Parses input kids base (err e, r)
  failed-Parses e r i o x = inr (e, r, o, Extends-trans i.opened.extends x, refl)

  pub closed-Parses :
      (q : Parser) → Inside input kids base container q → Parses input kids base (ok container, q)
  closed-Parses q i = inl (
    container,
    q,
    record {
      extends = i.opened.extends;
      kids_then = i.opened.kids_now;
      document = i.opened.document;
      kept = i.opened.kept;
      handle = i.handle ∙ make_value_kept input base.slab.node_count i.opened.extends;
      grown = i.opened.grown;
      root = i.opened.root;
      forward = i.forward;
      within = i.within;
    },
    refl,
  )

  module _ (double_from_chars : Bytes → Option ℕ) where
    -- White space and a character, and then `k`.
    pub skip-Parses :
        (k : Op Parser Value) (q : Parser)
        → Inside input kids base container q
        → ((r : Parser)
            → Inside input kids base container r
            → q.position ≤ r.position
            → r.position < length input
            → Parses input kids base (k r))
        → Parses input kids base ((skip_whitespace input >> more_input input >> k) q)
    skip-Parses k q i h = elim (skip-Moved input k q i.within) [
      | inr (e, r, o, m, eq) ↦ rw eq (
          failed-Parses e r (Inside-move r i m.slab_kept m.forward m.within) o
            (Extends-refl r.slab))
      | inl (r, m, l, eq) ↦ rw eq (h r (Inside-move r i m.slab_kept m.forward m.within) m.forward l)
    ]

    pub next_entry-Parses :
        (close : ℕ) (again : Op Parser Value) (q : Parser)
        → Inside input kids base container q
        → ((r : Parser)
            → Inside input kids base container r
            → q.position < r.position
            → r.position < length input
            → Parses input kids base (again r))
        → Parses input kids base (next_entry input double_from_chars close container again q)
    unfolding next_entry
    next_entry-Parses close again q i h = skip-Parses _ q i (λ r j forward l.
        elim (Bool-cases (byte_at input r.position == close)) [
          | inl end ↦ rw end (
              closed-Parses (record r { position = r.position + 1 })
                (Inside-move (record r { position = r.position + 1 }) j refl (omega arith)
                  (omega arith)))
          | inr more ↦ elim (Bool-cases (byte_at input r.position == b',')) [
            | inr other ↦ rw more (
                rw other (
                  failed-Parses (error_at parse_unexpected_token r.position) r j (j.within, λ c. cc)
                    (Extends-refl r.slab)))
            | inl comma ↦ rw more (
                rw comma (
                  skip-Parses again (record r { position = r.position + 1 })
                    (Inside-move (record r { position = r.position + 1 }) j refl (omega arith)
                      (omega arith))
                    (λ t k f w. h t k (omega arith) w)))
          ]
        ])

    module _ (element : Op Parser Value) (each : ParsesAll input element) where
      Inside-valid : {q : Parser} → Inside input kids base container q → q.slab.valid ≡ true
      Inside-valid i = i.opened.extends.valid_kept ∙ i.valid

      array_child :
          {q u : Parser} {child : Value}
          → (i : Inside input kids base container q) → Parsed input i.opened.kids_now q child u
          → Inside input kids base container
              (record u { slab = append_child_unchecked container.id child.id u.slab })
      array_child {q} {u} {child} i g = record {
        opened =
            subst (λ a. Open kids base.slab (append_child_unchecked a child.id u.slab))
              (sym (handle_id base.slab base.slab.node_count i.handle))
              (subst
                (λ c. Open kids base.slab (append_child_unchecked base.slab.node_count c u.slab))
                (sym (handle_id u.slab q.slab.node_count g.handle))
                (added-Open i.opened (Parsed-Ready g)));
        handle = i.handle;
        valid = i.valid;
        forward = omega (arith, i.forward, g.forward);
        within = g.within;
      }

      pub array_loop-Parses :
          (rounds : ℕ) (q : Parser)
          → Inside input kids base container q
          → length input < q.position + rounds
          → Parses input kids base (array_loop input double_from_chars element rounds container q)
      unfolding array_loop
      array_loop-Parses zero q i l = absurd (omega (arith, i.within))
      array_loop-Parses (suc rounds) q i l =
          elim (each i.opened.kids_now q i.opened.document (Inside-valid i) i.within) [
            | inr (e, u, o, x, k) ↦ rw k (failed-Parses e u i o x)
            | inl (child, u, g, k) ↦ rw k (
                next_entry-Parses b']'
                  (λ p. array_loop input double_from_chars element rounds container p)
                  (record u { slab = append_child_unchecked container.id child.id u.slab })
                  (array_child i g)
                  (λ r j f w. array_loop-Parses rounds r j (omega (arith, g.forward))))
          ]
