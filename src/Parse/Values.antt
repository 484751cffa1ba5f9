-- ===== src/Parse/Values.antt =====
-- src/parse.cpp: the values. The members of `Parser` that change are its slab and its position.
use slabjson.Prelude.{
  ℕ, zero, suc, ◌+◌, ◌-◌, ◌%◌, ◌^◌, Bool, true, false, ◌&&◌, ◌||◌, Option, none, some, [], ◌∷◌, ltb,
  leb, ◌==◌, if◌then◌else◌, length,
}
use slabjson.Error.{
  error_at, parse_unexpected_end, parse_unexpected_token, parse_invalid_number,
  parser_depth_exceeded, internal_error,
}
use slabjson.Result.{Result, Outcome, Op, ok, err, pure, fail, ◌>>=◌, ◌>>◌}
use slabjson.Utf8.{Bytes, byte_at}
use slabjson.Slab.{
  Slab, Node, Value, ValueType, StoredString, string_value, modify, copy_bytes, make_null,
  make_bool, make_int64, make_uint64, make_double, make_array, make_object, make_value,
  allocate_node, allocate_string, append_child_unchecked, is_finite,
}
use slabjson.Parse.Strings.{scan_string, decode_string, slice}
use slabjson.Parse.Numbers.{is_digit, signed_from_chars, unsigned_from_chars, scan_number}

pub record Parser : Type 0 where
  pub slab : Slab
  pub position : ℕ

pub record Options : Type 0 where
  pub max_depth : ℕ
  pub allow_trailing_whitespace : Bool

-- A function of the slab.
abbrev pub on_slab : {A : Type 0} → Op Slab A → Op Parser A
on_slab m p = ((m p.slab).0, record p { slab = (m p.slab).1 })

abbrev pub change : (Slab → Slab) → Op Parser (Unit {0})
change f p = (ok tt, record p { slab = f p.slab })

abbrev pub move_to : ℕ → Op Parser (Unit {0})
move_to position p = (ok tt, record p { position = position })

abbrev pub offset_result : {A : Type 0} → ℕ → Result A → Result A
offset_result offset (ok a) = ok a
offset_result offset (err e) = err (error_at e.code offset)

abbrev pub with_offset : {A : Type 0} → ℕ → Op Parser A → Op Parser A
with_offset offset m p = (offset_result offset (m p).0, (m p).1)

unfoldable pub is_whitespace : ℕ → Bool
is_whitespace character =
    character == b' ' || (character == 9 || (character == 10 || character == 13))

abbrev pub set_string : StoredString → Node → Node
set_string string n = record n { payload = string_value string.ref; value_flags = string.flags }

abbrev pub set_key : StoredString → Node → Node
set_key key n = record n { key = key.ref; key_flags = key.flags }

module _ (input : Bytes) where
  unfoldable pub whitespace_loop : ℕ → ℕ → ℕ
  whitespace_loop zero position = position
  whitespace_loop (suc rounds) position =
      elim (ltb position (length input) && is_whitespace (byte_at input position)) [
        | true ↦ whitespace_loop rounds (position + 1)
        | false ↦ position
      ]

  -- Each round moves the position below the input's size.
  unfoldable pub skip_whitespace : Op Parser (Unit {0})
  skip_whitespace p = (ok tt, record p { position = whitespace_loop (length input) p.position })

  -- `if (position_ == input_.size()) { return Error{ErrorCode::ParseUnexpectedEnd, position_}; }`
  abbrev pub more_input : Op Parser (Unit {0})
  more_input p =
      if p.position == length input
      then (err (error_at parse_unexpected_end p.position), p)
      else (ok tt, p)

  unfoldable pub literal_loop : ℕ → ℕ → Bytes → Result (Unit {0})
  literal_loop position index [] = ok tt
  literal_loop position index (c ∷ cs) =
      let rest = literal_loop position (index + 1) cs in
      if leb (length input) (position + index)
      then err (error_at parse_unexpected_end (length input))
      else if byte_at input (position + index) == c
      then rest
      else err (error_at parse_unexpected_token (position + index))

  unfoldable pub consume_literal : Bytes → Op Parser (Unit {0})
  consume_literal literal p = elim (literal_loop p.position 0 literal) [
    | err e ↦ (err e, p)
    | ok _ ↦ (ok tt, record p { position = p.position + length literal })
  ]

  unfoldable pub parse_null : Op Parser Value
  parse_null p =
      (consume_literal (b'n' ∷ b'u' ∷ b'l' ∷ b'l' ∷ [])
          >> with_offset p.position (on_slab make_null))
        p

  unfoldable pub parse_bool : Bytes → Bool → Op Parser Value
  parse_bool literal bool_value p =
      (consume_literal literal >> with_offset p.position (on_slab (make_bool bool_value))) p

  unfoldable pub parse_string : Op Parser StoredString
  parse_string p = elim (scan_string input p.position) [
    | err e ↦ (err e, p)
    | ok scan ↦
        (with_offset p.position (on_slab (allocate_string scan.decoded_length)) >>= λ ref.
        change (λ s. record s {
          bytes =
              if scan.has_escape
              then decode_string input p.position scan.stop ref.offset s.bytes
              else if scan.stop - p.position - 2 == 0
              then s.bytes
              else copy_bytes ref.offset (slice input (p.position + 1) (scan.stop - 1)) s.bytes;
        })
        >> move_to scan.stop
        >> pure (record { ref = ref; flags = scan.flags }))
          p
  ]

  unfoldable pub parse_string_value : Op Parser Value
  parse_string_value p =
      (with_offset p.position (on_slab (allocate_node ValueType.string)) >>= λ id.
      parse_string >>= λ string.
      change (modify id (set_string string)) >> (λ q. (ok (make_value q.slab id), q)))
        p

  module _ (double_from_chars : Bytes → Option ℕ) where
    -- The conversion of the scanned text.
    unfoldable pub convert_number : ℕ → Bytes → Bool → Bool → Op Parser Value
    convert_number start text negative floating = elim floating [
      | true ↦ elim (double_from_chars text) [
        | none ↦ fail (error_at parse_invalid_number start)
        | some d ↦
            if is_finite d
            then with_offset start (on_slab (make_double d))
            else fail (error_at parse_invalid_number start)
      ]
      | false ↦ elim (signed_from_chars text) [
        | some i ↦ with_offset start (on_slab (make_int64 i))
        | none ↦ elim negative [
          | true ↦ fail (error_at parse_invalid_number start)
          | false ↦ elim (unsigned_from_chars text) [
            | none ↦ fail (error_at parse_invalid_number start)
            | some u ↦ with_offset start (on_slab (make_uint64 u))
          ]
        ]
      ]
    ]

    -- Behind the scan of the number.
    abbrev pub convert_scanned : Parser → Outcome ℕ (Bool × Bool) → Outcome Parser Value
    convert_scanned p (err e, next) = (err e, record p { position = next })
    convert_scanned p (ok (negative, floating), next) =
        convert_number p.position (slice input p.position next) negative floating
          (record p { position = next })

    unfoldable pub parse_number : Op Parser Value
    parse_number p = convert_scanned p (scan_number input p.position)

    -- Behind a child: the container's end, or a comma with more to come.
    unfoldable pub next_entry : ℕ → Value → Op Parser Value → Op Parser Value
    next_entry close value again = skip_whitespace >> more_input >> λ p.
        if byte_at input p.position == close
        then (ok value, record p { position = p.position + 1 })
        else if byte_at input p.position == b','
        then (move_to (p.position + 1) >> skip_whitespace >> more_input >> again) p
        else (err (error_at parse_unexpected_token p.position), p)

    -- The loops over the children, with `element` for `parse_value(depth + 1)`. Each round moves the
    -- position, so that the input's size and one are rounds enough.
    module _ (element : Op Parser Value) where
      unfoldable pub array_loop : ℕ → Value → Op Parser Value
      array_loop zero array = fail (error_at internal_error 0)
      array_loop (suc rounds) array = element >>= λ child.
          change (append_child_unchecked array.id child.id)
          >> next_entry b']' array (λ p. array_loop rounds array p)

      -- A member: its key, a colon and its value.
      unfoldable pub parse_member : Value → Op Parser (Unit {0})
      parse_member object p =
          if byte_at input p.position == b'"'
          then (parse_string >>= λ key. skip_whitespace >> more_input >> λ q.
                if byte_at input q.position == b':'
                then (move_to (q.position + 1)
                      >> (element >>= λ child.
                          change (modify child.id (set_key key))
                          >> change (append_child_unchecked object.id child.id)))
                    q
                else (err (error_at parse_unexpected_token q.position), q))
              p
          else (err (error_at parse_unexpected_token p.position), p)

      unfoldable pub object_loop : ℕ → Value → Op Parser Value
      object_loop zero object = fail (error_at internal_error 0)
      object_loop (suc rounds) object =
          parse_member object >> next_entry b'}' object (λ p. object_loop rounds object p)

    -- The start of a container, and its end if it is empty.
    unfoldable pub parse_container :
        ℕ → ℕ → Op Slab Value → ℕ → (Value → Op Parser Value) → Op Parser Value
    parse_container max_depth depth make close entries p =
        if leb max_depth depth
        then (err (error_at parser_depth_exceeded p.position), p)
        else (move_to (p.position + 1)
              >> (with_offset p.position (on_slab make) >>= λ value.
                  skip_whitespace >> more_input >> λ q.
                  if byte_at input q.position == close
                  then (ok value, record q { position = q.position + 1 })
                  else entries value q))
            p

    -- The switch over the first character.
    unfoldable pub parse_token : ℕ → ℕ → Op Parser Value → Op Parser Value
    parse_token max_depth depth element p =
        let c = byte_at input p.position in
        if c == b'n'
        then parse_null p
        else if c == b't'
        then parse_bool (b't' ∷ b'r' ∷ b'u' ∷ b'e' ∷ []) true p
        else if c == b'f'
        then parse_bool (b'f' ∷ b'a' ∷ b'l' ∷ b's' ∷ b'e' ∷ []) false p
        else if c == b'"'
        then parse_string_value p
        else if c == b'['
        then parse_container max_depth depth make_array b']' (array_loop element (length input + 1))
            p
        else if c == b'{'
        then parse_container max_depth depth make_object b'}'
            (object_loop element (length input + 1)) p
        else if c == b'-' || is_digit c
        then parse_number p
        else (err (error_at parse_unexpected_token p.position), p)

    -- The recursion ends by the check of the depth: with `max_depth - depth` and one for `levels`, it never comes to zero.
    unfoldable pub parse_value : ℕ → ℕ → ℕ → Op Parser Value
    parse_value max_depth zero depth = fail (error_at internal_error 0)
    parse_value max_depth (suc left) depth =
        skip_whitespace
        >> more_input
        >> parse_token max_depth depth (λ p. parse_value max_depth left ((depth + 1) % 2 ^ 16) p)
