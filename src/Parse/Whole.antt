-- ===== src/Parse/Whole.antt =====
-- `parse_value` of src/parse.cpp: every value is parsed into the document.
use slabjson.Prelude.{
  ℕ, zero, suc, ◌+◌, ◌%◌, ◌^◌, ◌≤◌, ◌<◌, ◌≡◌, refl, sym, ap, subst, ◌∙◌, inl, inr, true, false,
  ◌==◌, ◌||◌, leb, if◌then◌else◌, length, arith, Bool-cases, Option,
}
use slabjson.Error.{error_at, out_of_memory, parser_depth_exceeded, parse_unexpected_token}
use slabjson.Result.{Op, ok}
use slabjson.Utf8.{Bytes, byte_at}
use slabjson.Slab.{Slab, Value, ValueType, new_node, make_value, make_array, make_object}
use slabjson.Space.{Extends, Extends-refl, Makes, make_array-Makes, make_object-Makes, with_node}
use slabjson.Forest.{Kids, IsContainer}
use slabjson.Document.{IsDocument, NodeFits}
use slabjson.Parse.Numbers.{is_digit}
use slabjson.Parse.Values.{
  Parser, array_loop, object_loop, parse_container, parse_token, parse_value,
}
use slabjson.Parse.Positions.{skip-Moved}
use slabjson.Parse.Parsed.{Parses, Parses-Moved}
use slabjson.Parse.Scalars.{parse_null-Parses, parse_bool-Parses, parse_number-Parses}
use slabjson.Parse.Texts.{parse_string_value-Parses}
use slabjson.Parse.Open.{begun-Open}
use slabjson.Parse.Arrays.{
  ParsesAll, Inside, Inside-move, closed-Parses, skip-Parses, array_loop-Parses,
}
use slabjson.Parse.Objects.{object_loop-Parses}

module _ (input : Bytes) (double_from_chars : Bytes → Option ℕ) where
  module _ {kids : Kids} (p : Parser) (d : IsDocument p.slab kids) (v : p.slab.valid ≡ true)
      (l : p.position < length input) (max_depth depth : ℕ) where
    container-Parses :
        (type : ValueType) (make : Op Slab Value) (close : ℕ) (entries : Value → Op Parser Value)
        → IsContainer type
        → Makes (record new_node { type = type }) p.slab (make p.slab)
        → NodeFits
            (with_node (record new_node { type = type }) p.slab)
            (record new_node { type = type })
        → ((container : Value) (r : Parser)
            → depth < max_depth
            → Inside input kids p container r
            → r.position < length input
            → Parses input kids p (entries container r))
        → Parses input kids p
            (parse_container input double_from_chars max_depth depth make close entries p)
    unfolding parse_container
    container-Parses type make close entries c makes fit h =
        elim (Bool-cases (leb max_depth depth)) [
          | inl deep ↦ rw deep (
              inr (
                error_at parser_depth_exceeded p.position,
                p,
                (omega arith, λ k. cc),
                Extends-refl p.slab,
                refl,
              ))
          | inr shallow ↦ elim makes [
            | inr (inr (i, e)) ↦ absurd (cc)
            | inr (inl (_, full, e)) ↦ rw shallow (
                rw e (
                  inr (
                    error_at out_of_memory p.position,
                    record p { position = p.position + 1 },
                    (omega arith, λ k. cc),
                    Extends-refl p.slab,
                    refl,
                  )))
            | inl (_, room, e) ↦
                let container = make_value p.slab p.slab.node_count in
                let q : Parser = record {
                  slab = with_node (record new_node { type = type }) p.slab;
                  position = p.position + 1;
                } in
                let inside : Inside input kids p container q = record {
                  opened = begun-Open type c d v room fit;
                  handle = refl;
                  valid = v;
                  forward = omega arith;
                  within = omega arith;
                } in
                rw shallow (
                  rw e (
                    skip-Parses input p container double_from_chars
                      (λ r.
                        if byte_at input r.position == close
                        then (ok container, record r { position = r.position + 1 })
                        else entries container r)
                      q inside
                      (λ r j f w. elim (Bool-cases (byte_at input r.position == close)) [
                        | inl end ↦ rw end (
                            closed-Parses input p container (record r { position = r.position + 1 })
                              (Inside-move input p container
                                (record r { position = r.position + 1 }) j refl (omega arith)
                                (omega arith)))
                        | inr more ↦ rw more (h container r (ground arith) j w)
                      ])))
          ]
        ]

    module _ (element : Op Parser Value) (each : depth < max_depth → ParsesAll input element) where
      array-Parses : Parses input kids p (
          parse_container input double_from_chars max_depth depth make_array b']'
            (array_loop input double_from_chars element (length input + 1))
            p)
      array-Parses =
          container-Parses ValueType.array make_array b']'
            (array_loop input double_from_chars element (length input + 1)) tt
            (make_array-Makes d.fits) (record { payload = tt; key = inl (refl, refl) })
            (λ container r shallow i w.
              array_loop-Parses input p container double_from_chars element (each shallow)
                (length input + 1) r i (omega arith))

      object-Parses : Parses input kids p (
          parse_container input double_from_chars max_depth depth make_object b'}'
            (object_loop input double_from_chars element (length input + 1))
            p)
      object-Parses =
          container-Parses ValueType.object make_object b'}'
            (object_loop input double_from_chars element (length input + 1)) tt
            (make_object-Makes d.fits) (record { payload = tt; key = inl (refl, refl) })
            (λ container r shallow i w.
              object_loop-Parses input kids p container double_from_chars element (each shallow)
                (length input + 1) r i w (omega arith))

      token-Parses :
          Parses input kids p (parse_token input double_from_chars max_depth depth element p)
      unfolding parse_token
      token-Parses = elim (Bool-cases (byte_at input p.position == b'n')) [
        | inl e ↦ rw e (parse_null-Parses input p d (omega arith))
        | inr n ↦ elim (Bool-cases (byte_at input p.position == b't')) [
          | inl e ↦ rw n (rw e (parse_bool-Parses input p d _ true (omega arith) (omega arith)))
          | inr t ↦ elim (Bool-cases (byte_at input p.position == b'f')) [
            | inl e ↦
                rw n (rw t (rw e (parse_bool-Parses input p d _ false (omega arith) (omega arith))))
            | inr f ↦ elim (Bool-cases (byte_at input p.position == b'"')) [
              | inl e ↦ rw n (rw t (rw f (rw e (parse_string_value-Parses input p d v l))))
              | inr q ↦ elim (Bool-cases (byte_at input p.position == b'[')) [
                | inl e ↦ rw n (rw t (rw f (rw q (rw e array-Parses))))
                | inr a ↦ elim (Bool-cases (byte_at input p.position == b'{')) [
                  | inl e ↦ rw n (rw t (rw f (rw q (rw a (rw e object-Parses)))))
                  | inr o ↦
                      elim (Bool-cases
                        (byte_at input p.position == b'-' || is_digit (byte_at input p.position))) [
                          | inl e ↦ rw n (
                              rw t (
                                rw f (
                                  rw q (
                                    rw a (
                                      rw o (
                                        rw e
                                          (parse_number-Parses input p d double_from_chars l)))))))
                          | inr e ↦ rw n (
                              rw t (
                                rw f (
                                  rw q (
                                    rw a (
                                      rw o (
                                        rw e (
                                          inr (
                                            error_at parse_unexpected_token p.position,
                                            p,
                                            (omega arith, λ k. cc),
                                            Extends-refl p.slab,
                                            refl,
                                          ))))))))
                        ]
                ]
              ]
            ]
          ]
        ]
      ]

  level-Parses :
      (max_depth left depth : ℕ)
      → (depth < max_depth
          → ParsesAll input
              (λ p. parse_value input double_from_chars max_depth left ((depth + 1) % 2 ^ 16) p))
      → ParsesAll input (parse_value input double_from_chars max_depth (suc left) depth)
  unfolding parse_value
  level-Parses max_depth left depth each kids p d v l =
      let element : Op Parser Value =
        λ p. parse_value input double_from_chars max_depth left ((depth + 1) % 2 ^ 16) p in
      elim (skip-Moved input (parse_token input double_from_chars max_depth depth element) p l) [
        | inr (e, q, o, m, k) ↦
            inr (e, q, o, subst (λ s. Extends p.slab s) (sym m.slab_kept) (Extends-refl p.slab), k)
        | inl (q, m, w, k) ↦ rw k (
            Parses-Moved input m (
              token-Parses q (subst (λ s. IsDocument s kids) (sym m.slab_kept) d)
                (ap (λ s. s.valid) m.slab_kept ∙ v) w max_depth depth element each))
      ]

  -- With a level for each depth that is left, `parse_value` never runs out of levels.
  pub parse_value-Parses :
      (max_depth left depth : ℕ)
      → max_depth ≤ 32
      → max_depth ≤ depth + left
      → ParsesAll input (parse_value input double_from_chars max_depth (suc left) depth)
  parse_value-Parses max_depth zero depth small deep =
      level-Parses max_depth zero depth (λ k. absurd (omega arith))
  parse_value-Parses max_depth (suc left) depth small deep =
      level-Parses max_depth (suc left) depth
        (λ k. parse_value-Parses max_depth left ((depth + 1) % 2 ^ 16) small (omega arith))
