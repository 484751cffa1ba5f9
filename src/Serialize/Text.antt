-- ===== src/Serialize/Text.antt =====
-- src/serialize.cpp: `write_string`, `write_number` and `write_indent`. The text of a finite double,
-- which `std::to_chars` chooses, is the argument `to_chars`, with `none` for its failure.
use slabjson.Prelude.{
  ℕ, zero, suc, ◌+◌, ◌*◌, ◌/◌, ◌%◌, ◌^◌, Bool, true, false, not, ◌&&◌, Option, none, some, [], ◌∷◌,
  ◌++◌, ltb, ◌==◌, if◌then◌else◌, ℤ, pos, negsuc,
}
use slabjson.Error.{
  error_at, output_capacity_exceeded, invalid_utf8, non_finite_number, internal_error,
}
use slabjson.Result.{Op, ok, err, fail, ◌>>◌}
use slabjson.Utf8.{Bytes, invalid_utf8_offset}
use slabjson.Slab.{
  Node, signed_integer, unsigned_integer, floating_point, is_finite, string_needs_json_escape,
}
use slabjson.Value.{node_number_kind, signed_of, unsigned_of, double_of}
use slabjson.Serialize.Writers.{Writer, size_max}

-- `if (!writer.append(...)) { return Error{ErrorCode::OutputCapacityExceeded, 0}; }`
abbrev pub attempt : {W : Type 0} → (W → Bool × W) → Op W (Unit {0})
attempt put w =
    if (put w).0 then (ok tt, (put w).1) else (err (error_at output_capacity_exceeded 0), (put w).1)

-- `std::to_chars` of an unsigned integer. One of 64 bits has 20 digits at most.
abbrev pub digits : ℕ → ℕ → Bytes → Bytes
digits zero n acc = acc
digits (suc fuel) n acc = elim (ltb n 10) [
  | true ↦ (48 + n) ∷ acc
  | false ↦ digits fuel (n / 10) ((48 + n % 10) ∷ acc)
]

unfoldable pub decimal : ℕ → Bytes
decimal n = digits 20 n []

-- `std::to_chars` of a signed integer
unfoldable pub signed_decimal : ℤ → Bytes
signed_decimal (pos n) = decimal n
signed_decimal (negsuc n) = b'-' ∷ decimal (n + 1)

-- `kHex[digit]`
abbrev pub hex_digit : ℕ → ℕ
hex_digit digit = if ltb digit 10 then 48 + digit else 87 + digit

-- The escape for a byte, empty where it stands for itself.
unfoldable pub escape_of : ℕ → Bytes
escape_of character =
    if character == b'"'
    then b'\\' ∷ b'"' ∷ []
    else if character == b'\\'
    then b'\\' ∷ b'\\' ∷ []
    else if character == 8
    then b'\\' ∷ b'b' ∷ []
    else if character == 12
    then b'\\' ∷ b'f' ∷ []
    else if character == 10
    then b'\\' ∷ b'n' ∷ []
    else if character == 13
    then b'\\' ∷ b'r' ∷ []
    else if character == 9
    then b'\\' ∷ b't' ∷ []
    else if ltb character 0x20
    then b'\\'
      ∷ b'u'
      ∷ b'0'
      ∷ b'0'
      ∷ hex_digit (character / 16 % 16)
      ∷ hex_digit (character % 16)
      ∷ []
    else []

-- `-0.0`, by its bits.
abbrev pub negative_zero : ℕ
negative_zero = 2 ^ 63

abbrev pub negative_zero_text : Bytes
negative_zero_text = b'-' ∷ b'0' ∷ b'.' ∷ b'0' ∷ []

module _ {W : Type 0} (writer : Writer W) where
  -- The loop over the bytes; `run` is `value.substr(run_start, index - run_start)`.
  unfoldable pub escape_loop : Bytes → Bytes → Op W (Unit {0})
  escape_loop run [] = attempt (writer.append run)
  escape_loop run (character ∷ rest) = elim (escape_of character) [
    | [] ↦ escape_loop (run ++ (character ∷ [])) rest
    | e ∷ es ↦
        attempt (writer.append run) >> attempt (writer.append (e ∷ es)) >> escape_loop [] rest
  ]

  unfoldable pub write_string : ℕ → Bool → Bytes → Op W (Unit {0})
  write_string flags validate_utf8 value =
      elim (if validate_utf8 then invalid_utf8_offset value else none) [
        | some offset ↦ fail (error_at invalid_utf8 offset)
        | none ↦ elim (string_needs_json_escape flags) [
          | false ↦
              attempt (writer.append_char b'"')
              >> attempt (writer.append value)
              >> attempt (writer.append_char b'"')
          | true ↦
              attempt (writer.append_char b'"')
              >> escape_loop [] value
              >> attempt (writer.append_char b'"')
        ]
      ]

  unfoldable pub write_number : (ℕ → Option Bytes) → Node → Op W (Unit {0})
  write_number to_chars node = elim (node_number_kind node) [
    | signed_integer ↦ attempt (writer.append (signed_decimal (signed_of node.payload)))
    | unsigned_integer ↦ attempt (writer.append (decimal (unsigned_of node.payload)))
    | floating_point ↦ elim (is_finite (double_of node.payload)) [
      | false ↦ fail (error_at non_finite_number 0)
      | true ↦ elim (double_of node.payload == negative_zero) [
        | true ↦ attempt (writer.append negative_zero_text)
        | false ↦ elim (to_chars (double_of node.payload)) [
          | none ↦ fail (error_at internal_error 0)
          | some text ↦ attempt (writer.append text)
        ]
      ]
    ]
  ]

  unfoldable pub write_indent : ℕ → ℕ → W → Bool × W
  write_indent indent_spaces depth w =
      if not (indent_spaces == 0) && ltb (size_max / indent_spaces) depth
      then (false, w)
      else writer.append_repeated b' ' (depth * indent_spaces % 2 ^ 64) w
