-- ===== src/Parse/Objects.antt =====
-- `parse_object` of src/parse.cpp.
use slabjson.Prelude.{
  ℕ, zero, suc, ◌+◌, ◌≤◌, ◌<◌, ◌≡◌, refl, sym, subst, ◌∙◌, ◌⊎◌, inl, inr, ◌==◌, if◌then◌else◌,
  length, arith, Bool-cases, Option,
}
use slabjson.Error.{Error, error_at, parse_unexpected_token}
use slabjson.Result.{Outcome, Op, ok, err, ◌>>=◌, ◌>>◌}
use slabjson.Utf8.{Bytes, byte_at}
use slabjson.Utf8.Encoding.{IsUtf8}
use slabjson.Slab.{Value, StoredString, modify, append_child_unchecked}
use slabjson.Space.{Extends, Extends-refl, Extends-trans, StringRoom, copied, copied-Extends}
use slabjson.Forest.{Kids}
use slabjson.Document.{KeyFits}
use slabjson.Document.Preserve.{Text-Extends}
use slabjson.Document.Store.{stored_string}
use slabjson.Parse.Values.{Parser, move_to, change, set_key, parse_member, object_loop}
use slabjson.Parse.Errors.{OfInput}
use slabjson.Parse.Positions.{Moved, skip-Moved}
use slabjson.Parse.Text.{parse_string-ParsesString}
use slabjson.Parse.Texts.{copied-Text}
use slabjson.Parse.Parsed.{Parsed, Parses}
use slabjson.Parse.Open.{Open, added-Open, copied-Open, keyed-Ready}
use slabjson.Parse.Arrays.{
  ParsesAll, Inside, Inside-move, failed-Parses, next_entry-Parses, handle_id, Parsed-Ready,
}

module _ (input : Bytes) (kids : Kids) (base : Parser) (container : Value) where
  -- A member is added, and the position moves.
  abbrev AddsMember : Parser → Outcome Parser (Unit {0}) → Type 0
  AddsMember q r =
      ((u : Parser) × Inside input kids base container u
        × (q.position < u.position)
        × (r ≡ (ok tt, u)))
      ⊎ ((e : Error) × (u : Parser) × OfInput input e × Extends q.slab u.slab × (r ≡ (err e, u)))

  member_child :
      {r u : Parser} {child : Value} (key : StoredString)
      → (i : Inside input kids base container r)
      → Parsed input i.opened.kids_now (record r { position = r.position + 1 }) child u
      → KeyFits u.slab key.ref key.flags
      → Inside input kids base container (record u {
        slab = append_child_unchecked container.id child.id (modify child.id (set_key key) u.slab);
      })
  member_child {r} {u} {child} key i g fits = record {
    opened =
        subst
          (λ a.
            Open kids base.slab
              (append_child_unchecked a child.id (modify child.id (set_key key) u.slab)))
          (sym (handle_id base.slab base.slab.node_count i.handle))
          (subst
            (λ c.
              Open kids base.slab
                (append_child_unchecked base.slab.node_count c (modify c (set_key key) u.slab)))
            (sym (handle_id u.slab r.slab.node_count g.handle))
            (added-Open i.opened (keyed-Ready key (Parsed-Ready g) fits)));
    handle = i.handle;
    valid = i.valid;
    forward = omega (arith, i.forward, g.forward);
    within = g.within;
  }

  -- Where the text of the key is stored.
  key_stored :
      (text : Bytes) (stop : ℕ) {q : Parser}
      → Inside input kids base container q
      → StringRoom q.slab (length text)
      → q.position ≤ stop
      → stop ≤ length input
      → Inside input kids base container (record { slab = copied text q.slab; position = stop })
  key_stored text stop i room f w = record {
    opened = copied-Open text i.opened room;
    handle = i.handle;
    valid = i.valid;
    forward = omega (arith, i.forward);
    within = w;
  }

  module _ (double_from_chars : Bytes → Option ℕ) (element : Op Parser Value)
      (each : ParsesAll input element) where
    -- What `parse_member` does behind the key's text and white space.
    abbrev behind_key : StoredString → Op Parser (Unit {0})
    behind_key key r =
        if byte_at input r.position == b':'
        then (move_to (r.position + 1)
              >> (element >>= λ child.
                  change (modify child.id (set_key key))
                  >> change (append_child_unchecked container.id child.id)))
            r
        else (err (error_at parse_unexpected_token r.position), r)

    -- Behind the colon.
    valued :
        (text : Bytes) {q t r : Parser}
        → t.slab ≡ copied text q.slab
        → Inside input kids base container q
        → StringRoom q.slab (length text)
        → IsUtf8 text
        → Inside input kids base container r
        → Moved input t r
        → q.position < r.position
        → r.position < length input
        → AddsMember q (
            (element >>= λ child.
            change (modify child.id (set_key (stored_string q.slab text)))
            >> change (append_child_unchecked container.id child.id))
              (record r { position = r.position + 1 }))
    valued text {q} {t} {r} same i room utf8 j m f l =
        let grown : Extends q.slab r.slab =
          subst (Extends q.slab) (sym (m.slab_kept ∙ same))
            (copied-Extends text i.opened.document.fits room) in
        elim (each j.opened.kids_now (record r { position = r.position + 1 }) j.opened.document
          (j.opened.extends.valid_kept ∙ j.valid) (omega arith)) [
            | inr (e, u, o, x, k) ↦ inr (e, u, o, Extends-trans grown x, rw k)
            | inl (child, u, g, k) ↦
                let key = stored_string q.slab text in
                let fits : KeyFits u.slab key.ref key.flags = inr (
                  Text-Extends (subst (λ s. Extends s u.slab) (m.slab_kept ∙ same) g.extends)
                    (copied-Text text i.opened.document.fits room utf8)) in
                inl (_, member_child key j g fits, omega (arith, g.forward), rw k)
          ]

    parse_member-Adds :
        (q : Parser)
        → Inside input kids base container q
        → q.position < length input
        → AddsMember q (parse_member input double_from_chars element container q)
    unfolding parse_member
    parse_member-Adds q i l = elim (Bool-cases (byte_at input q.position == b'"')) [
      | inr other ↦ rw other (
          inr (
            error_at parse_unexpected_token q.position,
            q,
            (i.within, λ c. cc),
            Extends-refl q.slab,
            refl,
          ))
      | inl quote ↦
          elim (parse_string-ParsesString input q i.opened.document.fits
            (i.opened.extends.valid_kept ∙ i.valid) l) [
              | inr (e, o, k) ↦ rw quote (rw k (inr (e, q, o, Extends-refl q.slab, refl)))
              | inl (text, stop, spells, mark, utf8, room, forward, within, k) ↦
                  let t : Parser = record { slab = copied text q.slab; position = stop } in
                  let grown = copied-Extends text i.opened.document.fits room in
                  let j = key_stored text stop i room (omega arith) within in
                  elim (skip-Moved input (behind_key (stored_string q.slab text)) t within) [
                    | inr (e, r, o, m, eq) ↦ rw quote (
                        rw k (
                          rw eq
                            (inr (e, r, o, subst (Extends q.slab) (sym m.slab_kept) grown, refl))))
                    | inl (r, m, w, eq) ↦ elim (Bool-cases (byte_at input r.position == b':')) [
                      | inr other ↦ rw quote (
                          rw k (
                            rw eq (
                              rw other (
                                inr (
                                  error_at parse_unexpected_token r.position,
                                  r,
                                  (omega arith, λ c. cc),
                                  subst (Extends q.slab) (sym m.slab_kept) grown,
                                  refl,
                                )))))
                      | inl colon ↦ rw quote (
                          rw k (
                            rw eq (
                              rw colon (
                                valued text {q = q} {t = t} {r = r} refl i room utf8
                                  (Inside-move input base container r j m.slab_kept m.forward
                                    m.within)
                                  m (omega (arith, m.forward)) w))))
                    ]
                  ]
            ]
    ]

    pub object_loop-Parses :
        (rounds : ℕ) (q : Parser)
        → Inside input kids base container q
        → q.position < length input
        → length input < q.position + rounds
        → Parses input kids base (object_loop input double_from_chars element rounds container q)
    unfolding object_loop
    object_loop-Parses zero q i w l = absurd (omega (arith, i.within))
    object_loop-Parses (suc rounds) q i w l = elim (parse_member-Adds q i w) [
      | inr (e, u, o, x, k) ↦ rw k (failed-Parses input base container e u i o x)
      | inl (u, j, f, k) ↦ rw k (
          next_entry-Parses input base container double_from_chars b'}'
            (λ p. object_loop input double_from_chars element rounds container p) u j
            (λ r t g v. object_loop-Parses rounds r t v (omega arith)))
    ]
