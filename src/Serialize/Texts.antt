-- ===== src/Serialize/Texts.antt =====
-- The texts that `write_string`, `write_number` and `write_indent` of src/serialize.cpp append.
use slabjson.Prelude.{
  ℕ, dec_lt, zero, suc, ◌*◌, ◌/◌, ◌%◌, ◌≤◌, ◌<◌, ◌^◌, ◌≡◌, refl, sym, subst, ◌∙◌, ◌⊎◌, inl, inr,
  Bool, true, false, none, [], ◌∷◌, ◌++◌, append_assoc, append-nil, length-append, arith, not, ◌&&◌,
  ltb, ◌==◌, if◌then◌else◌, ap,
}
use native.Mathlib.Nat.{div-lt_iff_lt-mul}
use slabjson.Result.{Op, ◌>>◌}
use slabjson.Utf8.{Bytes, invalid_utf8_offset}
use slabjson.Utf8.Encoding.{IsUtf8}
use slabjson.Utf8.Validation.{invalid_utf8_offset-IsUtf8}
use slabjson.Slab.{string_flags, string_needs_json_escape}
use slabjson.Serialize.Writers.{Writer, size_max}
use slabjson.Serialize.Text.{attempt, escape_of, escape_loop, write_string, write_indent}
use slabjson.Serialize.Emits.{
  Lawful, Emits, text-Emits, char-Emits, repeated-Emits, >>-EmitsAs, length-repeated, done, Ends,
}
use slabjson.Json.{spelled, spelling, quoted, repeated}

-- A byte needs an escape exactly if the flags say so.
escape_of-nil :
    (c : ℕ) (rest : Bytes)
    → string_flags (c ∷ rest) ≡ 0
    → (escape_of c ≡ []) × (string_flags rest ≡ 0)
unfolding escape_of string_flags
escape_of-nil c rest h = ground arith

-- The code's escapes are those of the description.
spelled_plain : (c : ℕ) → escape_of c ≡ [] → spelled c ≡ c ∷ []
unfolding escape_of
spelled_plain c h = ground arith

spelled_escape : (c x : ℕ) (xs : Bytes) → escape_of c ≡ x ∷ xs → spelled c ≡ x ∷ xs
unfolding escape_of
spelled_escape c x xs h = ground arith

spelling-eq : (value : Bytes) → string_flags value ≡ 0 → spelling value ≡ value
spelling-eq [] h = refl
spelling-eq (c ∷ cs) h =
    let (e, k) = escape_of-nil c cs h in
    ap (λ t. t ++ spelling cs) (spelled_plain c e) ∙ ap (λ t. c ∷ t) (spelling-eq cs k)

flags_cases : (value : Bytes) → (string_flags value ≡ 0) ⊎ (string_flags value ≡ 1)
unfolding string_flags
flags_cases [] = inl refl
flags_cases (c ∷ cs) = ground (arith, flags_cases cs)

indent_guard :
    (spaces depth : ℕ)
    → size_max < depth * spaces
    → (not (spaces == 0) && ltb (size_max / spaces) depth) ≡ true
indent_guard zero depth h = absurd (omega arith)
indent_guard (suc k) depth h =
    ground (arith, (div-lt_iff_lt-mul {k = suc k} {x = size_max} {y = depth} (omega arith)).1 h)

not_indent_guard :
    (spaces depth : ℕ)
    → depth * spaces ≤ size_max
    → (not (spaces == 0) && ltb (size_max / spaces) depth) ≡ false
not_indent_guard zero depth h = refl
not_indent_guard (suc k) depth h = elim (dec_lt (size_max / suc k) depth) [
  | yes l ↦
      absurd (
        omega (arith, (div-lt_iff_lt-mul {k = suc k} {x = size_max} {y = depth} (omega arith)).0 l))
  | no l ↦ ground arith
]

List-cases : (xs : Bytes) → (xs ≡ []) ⊎ ((y : ℕ) × (ys : Bytes) × (xs ≡ y ∷ ys))
List-cases [] = inl refl
List-cases (y ∷ ys) = inr (y, ys, refl)

module _ {W : Type 0} {writer : Writer W} (law : Lawful writer) where
  escape_loop-Emits :
      (run value : Bytes) → Emits law (escape_loop writer run value) (run ++ spelling value)
  unfolding escape_loop
  escape_loop-Emits run [] =
      subst (Emits law (attempt (writer.append run))) (sym (append-nil run)) (text-Emits law run)
  escape_loop-Emits run (c ∷ cs) = elim (List-cases (escape_of c)) [
    | inl e ↦
        let k = spelled_plain c e in
        rw (e, k, spelling, escape_loop)
          (subst (Emits law (escape_loop writer (run ++ (c ∷ [])) cs))
            (append_assoc run (c ∷ []) (spelling cs)) (escape_loop-Emits (run ++ (c ∷ [])) cs))
    | inr (x, xs, e) ↦
        let k = spelled_escape c x xs e in
        rw (e, k, spelling, escape_loop)
          (subst
            (Emits law (
              attempt (writer.append run)
              >> attempt (writer.append (x ∷ xs))
              >> escape_loop writer [] cs))
            (append_assoc run (x ∷ xs) (spelling cs))
            (>>-EmitsAs law (done law) _ _ (run ++ (x ∷ xs)) (spelling cs)
              (>>-EmitsAs law (done law) _ _ run (x ∷ xs) (text-Emits law run)
                (text-Emits law (x ∷ xs)))
              (escape_loop-Emits [] cs)))
  ]

  abbrev between : Op W (Unit {0}) → Op W (Unit {0})
  between m = attempt (writer.append_char b'"') >> m >> attempt (writer.append_char b'"')

  between-Emits :
      (m : Op W (Unit {0})) (ys : Bytes)
      → Emits law m ys
      → Emits law (between m) ((b'"' ∷ []) ++ (ys ++ (b'"' ∷ [])))
  between-Emits m ys h =
      >>-EmitsAs law (done law) _ _ ((b'"' ∷ []) ++ ys) (b'"' ∷ [])
        (>>-EmitsAs law (done law) _ _ (b'"' ∷ []) ys (char-Emits law b'"') h) (char-Emits law b'"')

  pub write_string-Emits :
      (flags : ℕ) (utf8 : Bool) (value : Bytes)
      → IsUtf8 value
      → flags ≡ string_flags value
      → Emits law (write_string writer flags utf8 value) (quoted value)
  unfolding write_string string_needs_json_escape
  write_string-Emits flags utf8 value valid e = elim (flags_cases value) [
    | inl plain ↦
        rw (passed, write_string)
          (rw (e ∙ plain, string_needs_json_escape)
            (subst
              (λ t.
                Emits law (between (attempt (writer.append value)))
                  ((b'"' ∷ []) ++ (t ++ (b'"' ∷ []))))
              (sym (spelling-eq value plain))
              (between-Emits (attempt (writer.append value)) value (text-Emits law value))))
    | inr special ↦
        rw (passed, write_string)
          (rw (e ∙ special, string_needs_json_escape)
            (between-Emits (escape_loop writer [] value) (spelling value)
              (escape_loop-Emits [] value)))
  ]
    where
      passed : (if utf8 then invalid_utf8_offset value else none) ≡ none
      passed = ground (arith, (invalid_utf8_offset-IsUtf8 value).1 valid)

  pub write_indent-Emits :
      (spaces depth : ℕ)
      → Emits law (attempt (write_indent writer spaces depth)) (repeated b' ' (depth * spaces))
  unfolding write_indent
  write_indent-Emits spaces depth w xs k = elim (dec_lt size_max (depth * spaces)) [
    | yes over ↦ inr (
      omega (
        arith,
        length-append xs (repeated b' ' (depth * spaces)),
        length-repeated b' ' (depth * spaces),
        law.limit_le,
      ),
      λ c. (
        w,
        xs,
        repeated b' ' (depth * spaces),
        rw (indent_guard spaces depth (omega arith)),
        k,
        refl,
      ),
    )
    | no room ↦ indented w xs k (omega arith)
  ]
    where
      small : depth * spaces ≤ size_max → depth * spaces % 2 ^ 64 ≡ depth * spaces
      small h = omega arith

      indented :
          (w : W) (xs : Bytes)
          → law.Written w xs
          → depth * spaces ≤ size_max
          → Ends law
              (done law)
              (xs ++ repeated b' ' (depth * spaces))
              (attempt (write_indent writer spaces depth) w)
      indented w xs k room =
          rw (not_indent_guard spaces depth room)
            (rw (small room) (repeated-Emits law b' ' (depth * spaces) room w xs k))
