-- ===== src/Parse/Document.antt =====
-- `parse` of src/parse.cpp, on every input: a new root of the document, or the document as before.
use slabjson.Prelude.{
  ℕ, suc, ◌+◌, ◌≤◌, ◌<◌, ◌≡◌, refl, sym, ap, subst, ◌∙◌, ◌⊎◌, inl, inr, Bool, true, false, ltb,
  ◌==◌, if◌then◌else◌, length, arith, Bool-cases, Option,
}
use slabjson.Error.{
  Error, error_at, invalid_argument, parse_unexpected_end, parse_trailing_characters,
}
use slabjson.Result.{Outcome, ok, err}
use slabjson.Utf8.{Bytes}
use slabjson.Slab.{Slab, Value, make_value, invalid_node_id, checkpoint, rollback}
use slabjson.Space.{Extends, Extends-refl, rollback-Extends}
use slabjson.Forest.{Kids, parent_of}
use slabjson.Document.{IsDocument}
use slabjson.Document.Preserve.{IsDocument-rollback}
use slabjson.Parse.{max_parser_depth, overlaps_slab, finish, settle, run_checked, parse}
use slabjson.Parse.Values.{Parser, Options, skip_whitespace, parse_value}
use slabjson.Parse.Errors.{OfInput}
use slabjson.Parse.Positions.{skip_whitespace-Moved}
use slabjson.Parse.Parsed.{Parsed, Parses}
use slabjson.Parse.Whole.{parse_value-Parses}

-- The document has one more root, which the handle designates, and keeps all that it held.
pub record Adds (kids : Kids) (s : Slab) (value : Value) (t : Slab) : Type 0 where
  pub extends : Extends s t
  pub kids_then : Kids
  pub document : IsDocument t kids_then
  pub kept : (i : ℕ) → i < s.node_count → kids_then i ≡ kids i
  pub handle : value ≡ make_value t s.node_count
  pub grown : s.node_count < t.node_count
  pub root : parent_of t s.node_count ≡ invalid_node_id

-- The document is the same, and nothing of the storage is taken.
pub record Undone (kids : Kids) (s t : Slab) : Type 0 where
  pub extends : Extends s t
  pub document : IsDocument t kids
  pub count_same : t.node_count ≡ s.node_count
  pub used_same : t.string_bytes_used ≡ s.string_bytes_used

abbrev pub AddsOrUndoes : Bytes → Kids → Slab → Outcome Slab Value → Type 0
AddsOrUndoes input kids s r =
    ((value : Value) × (t : Slab) × Adds kids s value t × (r ≡ (ok value, t)))
    ⊎ ((e : Error) × (t : Slab) × OfInput input e × Undone kids s t × (r ≡ (err e, t)))

by_if :
    {A : Type 0} (T : A → Type 0) (b : Bool) {x y : A}
    → (b ≡ true → T x)
    → (b ≡ false → T y)
    → T (if b then x else y)
by_if T true f g = f refl
by_if T false f g = g refl

module _ (double_from_chars : Bytes → Option ℕ) (input : Bytes) (options : Options) {s : Slab}
    {kids : Kids} (d : IsDocument s kids) where
  same-Undone : Undone kids s s
  same-Undone = record {
    extends = Extends-refl s;
    document = d;
    count_same = refl;
    used_same = refl;
  }

  rolled_back : {t : Slab} → Extends s t → Undone kids s (rollback (checkpoint s) t)
  unfolding rollback checkpoint
  rolled_back e = record {
    extends = rollback-Extends e;
    document = IsDocument-rollback d e;
    count_same = refl;
    used_same = refl;
  }

  refused : (e : Error) → OfInput input e → AddsOrUndoes input kids s (err e, s)
  refused e o = inr (e, s, o, same-Undone, refl)

  Parsed-Adds :
      {p q : Parser} {value : Value}
      → p.slab ≡ s
      → Parsed input kids p value q
      → Adds kids s value q.slab
  Parsed-Adds {p} {q} {value} same g =
      subst (λ u. Adds kids u value q.slab) same
        (record {
          extends = g.extends;
          kids_then = g.kids_then;
          document = g.document;
          kept = g.kept;
          handle = g.handle;
          grown = g.grown;
          root = g.root;
        })

  -- The check that the input ends.
  abbrev ended : Value → Parser → Outcome Parser Value
  ended value r = if r.position == length input then (ok value, r) else (
    err (error_at parse_trailing_characters r.position),
    record r { slab = rollback (checkpoint s) r.slab },
  )

  ended-Adds :
      (value : Value) (r : Parser)
      → Adds kids s value r.slab
      → r.position ≤ length input
      → AddsOrUndoes input kids s ((ended value r).0, (ended value r).1.slab)
  ended-Adds value r a l = elim (Bool-cases (r.position == length input)) [
    | inl end ↦ rw end (inl (value, r.slab, a, refl))
    | inr more ↦ rw more (
        inr (
          error_at parse_trailing_characters r.position,
          rollback (checkpoint s) r.slab,
          (l, λ c. cc),
          rolled_back a.extends,
          refl,
        ))
  ]

  finish-Adds :
      (value : Value) (q : Parser)
      → Adds kids s value q.slab
      → q.position ≤ length input
      → AddsOrUndoes input kids s (
        (finish double_from_chars input options s value q).0,
        (finish double_from_chars input options s value q).1.slab,
      )
  unfolding finish
  finish-Adds value q a l = elim (Bool-cases options.allow_trailing_whitespace) [
    | inr strict ↦ rw strict (ended-Adds value q a l)
    | inl lenient ↦
        let m = skip_whitespace-Moved input q l in
        rw lenient (
          ended-Adds value (skip_whitespace input q).1
            (subst (λ t. Adds kids s value t) (sym m.slab_kept) a) m.within)
  ]

  settle-Adds :
      (p : Parser) (r : Outcome Parser Value)
      → p.slab ≡ s
      → Parses input kids p r
      → AddsOrUndoes input kids s (settle double_from_chars input options s r)
  unfolding settle
  settle-Adds p r same (inr (e, q, o, x, k)) = rw k (
      inr (
        e,
        rollback (checkpoint s) q.slab,
        o,
        rolled_back (subst (λ u. Extends u q.slab) same x),
        refl,
      ))
  settle-Adds p r same (inl (value, q, g, k)) =
      rw k (finish-Adds value q (Parsed-Adds same g) g.within)

  run_checked-Adds :
      s.valid ≡ true
      → options.max_depth ≤ 32
      → AddsOrUndoes input kids s (run_checked double_from_chars input options s)
  unfolding run_checked
  run_checked-Adds v small =
      let start : Parser = record { slab = s; position = 0 } in
      let m = skip_whitespace-Moved input start (omega arith) in
      let p = (skip_whitespace input start).1 in
      elim (Bool-cases (p.position == length input)) [
        | inl empty ↦
            rw empty (refused (error_at parse_unexpected_end p.position) (m.within, λ c. cc))
        | inr more ↦
            let deep : options.max_depth ≤ 0 + options.max_depth = omega arith in
            let one : options.max_depth + 1 ≡ suc options.max_depth = omega arith in
            rw more (
              settle-Adds p
                (parse_value input double_from_chars options.max_depth (options.max_depth + 1) 0 p)
                m.slab_kept
                (subst
                  (λ k.
                    Parses input kids p
                      (parse_value input double_from_chars options.max_depth k 0 p))
                  (sym one)
                  (parse_value-Parses input double_from_chars options.max_depth options.max_depth 0
                    small deep kids p (subst (λ u. IsDocument u kids) (sym m.slab_kept) d)
                    (ap (λ u. u.valid) m.slab_kept ∙ v) m.within)))
      ]

  -- In a document, `parse` of any input with any options either makes a value whose node is the
  -- next one and a root of the document, which keeps all that it held, and returns the handle of
  -- that node; or it fails, the document is the same, no node and no byte for strings is taken, and
  -- the offset of the error lies in the input or at its end. The recursion, the loops over items
  -- and members and the scan of strings never run out of levels or rounds.
  pub parse-Adds :
      (start : ℕ) → AddsOrUndoes input kids s (parse double_from_chars input options start s)
  unfolding parse
  parse-Adds start =
      let T = AddsOrUndoes input kids s in
      let bad = refused (error_at invalid_argument 0) (omega arith, λ c. cc) in
      by_if T s.valid
        (λ v.
          by_if T (ltb max_parser_depth options.max_depth) (λ deep. bad)
            (λ small.
              by_if T (overlaps_slab s start input) (λ over. bad)
                (λ apart. run_checked-Adds v (ground arith))))
        (λ no_storage. bad)
