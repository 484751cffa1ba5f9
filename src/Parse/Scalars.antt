-- ===== src/Parse/Scalars.antt =====
-- The literals, numbers and strings of src/parse.cpp, as values of the document.
use slabjson.Prelude.{
  ℕ, ◌≤◌, ◌<◌, ◌≡◌, ◌≢◌, refl, sym, subst, inl, inr, Bool, true, false, Option, [], ◌∷◌, length,
  arith, Bool-cases, Option-cases,
}
use slabjson.Error.{Error, error_at, internal_error, parse_invalid_number}
use slabjson.Result.{Outcome, Op, err, ◌>>◌}
use slabjson.Utf8.{Bytes}
use slabjson.Slab.{
  Slab, Node, Value, make_null, make_bool, make_int64, make_uint64, make_double, is_finite,
}
use slabjson.Space.{
  Extends, Extends-refl, Makes, make_null-Makes, make_bool-Makes, make_int64-Makes,
  make_uint64-Makes, make_double-Makes,
}
use slabjson.Forest.{Kids}
use slabjson.Document.{IsDocument}
use slabjson.Document.Make.{
  make_null-Grows, make_bool-Grows, make_int64-Grows, make_uint64-Grows, make_double-Grows,
}
use slabjson.Parse.Strings.{slice}
use slabjson.Parse.Numbers.{signed_from_chars, unsigned_from_chars}
use slabjson.Parse.Values.{
  Parser, on_slab, with_offset, consume_literal, parse_null, parse_bool, convert_number,
  parse_number,
}
use slabjson.Parse.Positions.{Moved, consume_literal-Moved}
use slabjson.Parse.Digits.{scan_number-Scans}
use slabjson.Parse.Parsed.{Parses, made-Parses}

pub Makes-code :
    (n : Node) {s : Slab} (r : Outcome Slab Value)
    → Makes n s r
    → (e : Error) → r.0 ≡ err e
    → e.code ≢ internal_error
Makes-code n r (inl (v, room, k)) e h = absurd (cc)
Makes-code n r (inr (inl (v, full, k))) e h = λ c. cc
Makes-code n r (inr (inr (v, k))) e h = λ c. cc

module _ (input : Bytes) {kids : Kids} (p : Parser) (d : IsDocument p.slab kids) where
  moved_document : {q : Parser} → Moved input p q → IsDocument q.slab kids
  moved_document m = subst (λ s. IsDocument s kids) (sym m.slab_kept) d

  literal-Parses :
      (literal : Bytes) (m : Op Slab Value)
      → p.position ≤ length input
      → 0 < length literal
      → ((q : Parser)
          → Moved input p q
          → p.position < q.position
          → Parses input kids p (with_offset p.position (on_slab m) q))
      → Parses input kids p
          ((consume_literal input literal >> with_offset p.position (on_slab m)) p)
  literal-Parses literal m l some_char made = elim (consume_literal-Moved input literal p l) [
    | inr (e, o, k) ↦ inr (e, p, o, Extends-refl p.slab, rw k)
    | inl (q, moved, e, k) ↦ rw k (made q moved (omega arith))
  ]

  pub parse_null-Parses : p.position ≤ length input → Parses input kids p (parse_null input p)
  unfolding parse_null
  parse_null-Parses l =
      literal-Parses (b'n' ∷ b'u' ∷ b'l' ∷ b'l' ∷ []) make_null l (omega arith) (λ q m h.
        let doc = moved_document m in
        made-Parses input make_null m h (make_null-Grows doc)
          (Makes-code _ (make_null q.slab) (make_null-Makes doc.fits)))

  pub parse_bool-Parses :
      (literal : Bytes) (b : Bool)
      → 0 < length literal
      → p.position ≤ length input
      → Parses input kids p (parse_bool input literal b p)
  unfolding parse_bool
  parse_bool-Parses literal b some_char l =
      literal-Parses literal (make_bool b) l some_char (λ q m h.
        let doc = moved_document m in
        made-Parses input (make_bool b) m h (make_bool-Grows doc b)
          (Makes-code _ (make_bool b q.slab) (make_bool-Makes doc.fits b)))

  module _ (double_from_chars : Bytes → Option ℕ) where
    refused :
        {q : Parser}
        → Moved input p q
        → Parses input kids p (err (error_at parse_invalid_number p.position), q)
    refused {q} m = inr (
      error_at parse_invalid_number p.position,
      q,
      (omega (arith, m.forward, m.within), λ c. cc),
      subst (λ s. Extends p.slab s) (sym m.slab_kept) (Extends-refl p.slab),
      refl,
    )

    convert_number-Parses :
        (text : Bytes) (negative floating : Bool) (q : Parser)
        → Moved input p q
        → p.position < q.position
        → Parses input kids p
            (convert_number input double_from_chars p.position text negative floating q)
    unfolding convert_number
    convert_number-Parses text negative true q m h = elim (Option-cases (double_from_chars text)) [
      | inl e ↦ rw (e, convert_number) (refused m)
      | inr (x, e) ↦ elim (Bool-cases (is_finite x)) [
        | inr endless ↦ rw (e, convert_number) (rw endless (refused m))
        | inl finite ↦
            let doc = moved_document m in
            rw (e, convert_number)
              (rw finite (
                made-Parses input (make_double x) m h (make_double-Grows doc x)
                  (Makes-code _ (make_double x q.slab) (make_double-Makes doc.fits x finite))))
      ]
    ]
    convert_number-Parses text negative false q m h = elim (Option-cases (signed_from_chars text)) [
      | inr (i, e) ↦
          let doc = moved_document m in
          rw (e, convert_number)
            (made-Parses input (make_int64 i) m h (make_int64-Grows doc i)
              (Makes-code _ (make_int64 i q.slab) (make_int64-Makes doc.fits i)))
      | inl e ↦ elim (Bool-cases negative) [
        | inl n ↦ rw (e, convert_number) (rw n (refused m))
        | inr n ↦ elim (Option-cases (unsigned_from_chars text)) [
          | inl k ↦ rw (e, convert_number) (rw n (rw k (refused m)))
          | inr (u, k) ↦
              let doc = moved_document m in
              rw (e, convert_number)
                (rw n (
                  rw k (
                    made-Parses input (make_uint64 u) m h (make_uint64-Grows doc u)
                      (Makes-code _ (make_uint64 u q.slab) (make_uint64-Makes doc.fits u)))))
        ]
      ]
    ]

    pub parse_number-Parses :
        p.position < length input → Parses input kids p (parse_number input double_from_chars p)
    unfolding parse_number
    parse_number-Parses l = elim (scan_number-Scans input p.position l) [
      | inr (e, next, o, k) ↦
          inr (e, record p { position = next }, o, Extends-refl p.slab, rw (k, parse_number))
      | inl ((negative, floating), next, f, w, k) ↦
          rw (k, parse_number)
            (convert_number-Parses (slice input p.position next) negative floating
              (record p { position = next })
              (record { slab_kept = refl; forward = omega arith; within = omega arith })
              (omega arith))
    ]
