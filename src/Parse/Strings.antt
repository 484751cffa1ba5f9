-- ===== src/Parse/Strings.antt =====
-- src/parse.cpp: the scan and the decoding of strings. The input is read at positions below its size,
-- as the guards of the code have it.
use slabjson.Prelude.{
  ℕ, zero, suc, ◌+◌, ◌-◌, ◌*◌, ◌/◌, ◌%◌, ◌^◌, Bool, true, false, not, ◌&&◌, ◌||◌, Option, none,
  some, [], ◌∷◌, ltb, leb, ◌==◌, if◌then◌else◌, length, drop,
}
use slabjson.Error.{
  error_at, parse_unexpected_end, parse_invalid_string, parse_invalid_escape,
  parse_invalid_unicode_escape, string_capacity_exceeded, internal_error,
}
use slabjson.Result.{Result, ok, err}
use slabjson.Utf8.{Bytes, byte_at, utf8_sequence_length}
use slabjson.Slab.{copy_bytes}

-- A digit's value; -1 is `none`.
unfoldable pub hex_value : ℕ → Option ℕ
hex_value character =
    if leb b'0' character && leb character b'9'
    then some (character - b'0')
    else if leb b'a' character && leb character b'f'
    then some (character - b'a' + 10)
    else if leb b'A' character && leb character b'F'
    then some (character - b'A' + 10)
    else none

abbrev pub take : ℕ → Bytes → Bytes
take zero xs = []
take (suc n) [] = []
take (suc n) (x ∷ xs) = x ∷ take n xs

-- The bytes of the input from `start` up to `stop`.
abbrev pub slice : Bytes → ℕ → ℕ → Bytes
slice input start stop = take (stop - start) (drop start input)

unfoldable pub utf8_length : ℕ → ℕ
utf8_length code_point =
    if leb code_point 0x7f
    then 1
    else if leb code_point 0x7ff
    then 2
    else if leb code_point 0xffff
    then 3
    else 4

unfoldable pub unchecked_utf8_length : ℕ → ℕ
unchecked_utf8_length first =
    if ltb first 0x80 then 1 else if ltb first 0xe0 then 2 else if ltb first 0xf0 then 3 else 4

-- The bits that `|` joins are apart, so it adds.
unfoldable pub encode_utf8 : ℕ → Bytes
encode_utf8 code_point =
    if leb code_point 0x7f
    then code_point ∷ []
    else if leb code_point 0x7ff
    then (0xc0 + code_point / 2 ^ 6) ∷ (0x80 + code_point % 2 ^ 6) ∷ []
    else if leb code_point 0xffff
    then (0xe0 + code_point / 2 ^ 12)
      ∷ (0x80 + code_point / 2 ^ 6 % 2 ^ 6)
      ∷ (0x80 + code_point % 2 ^ 6)
      ∷ []
    else (0xf0 + code_point / 2 ^ 18)
      ∷ (0x80 + code_point / 2 ^ 12 % 2 ^ 6)
      ∷ (0x80 + code_point / 2 ^ 6 % 2 ^ 6)
      ∷ (0x80 + code_point % 2 ^ 6)
      ∷ []

abbrev pub is_high_surrogate : ℕ → Bool
is_high_surrogate code_point = leb 0xd800 code_point && leb code_point 0xdbff

abbrev pub is_low_surrogate : ℕ → Bool
is_low_surrogate code_point = leb 0xdc00 code_point && leb code_point 0xdfff

-- The code point of a surrogate pair.
abbrev pub surrogate_pair : ℕ → ℕ → ℕ
surrogate_pair high low = 0x10000 + (high - 0xd800) * 2 ^ 10 + (low - 0xdc00)

-- The letters of the short escapes, and what they stand for.
unfoldable pub short_escape_byte : ℕ → Option ℕ
short_escape_byte escape =
    if escape == b'"'
    then some b'"'
    else if escape == b'\\'
    then some b'\\'
    else if escape == b'/'
    then some b'/'
    else if escape == b'b'
    then some 8
    else if escape == b'f'
    then some 12
    else if escape == b'n'
    then some 10
    else if escape == b'r'
    then some 13
    else if escape == b't'
    then some 9
    else none

-- What one round of the scan finds: where it ends, how many bytes it decodes to, whether it is an
-- escape, and whether it sets the flag.
pub record Piece : Type 0 where
  pub stop : ℕ
  pub decoded : ℕ
  pub escape : Bool
  pub flagged : Bool

-- The code point of the escape, and where it ends.
abbrev pub unicode_piece : ℕ → ℕ → Piece
unicode_piece code_point stop = record {
  stop = stop;
  decoded = utf8_length code_point;
  escape = true;
  flagged = code_point == b'"' || (code_point == b'\\' || ltb code_point 0x20);
}

pub record StringScan : Type 0 where
  pub stop : ℕ
  pub decoded_length : ℕ
  pub has_escape : Bool
  pub flags : ℕ

module _ (input : Bytes) where
  -- The loop over the four digits, from `index` on with `rounds` left.
  unfoldable pub hex4_loop : ℕ → ℕ → ℕ → ℕ → Result ℕ
  hex4_loop offset zero index value = ok value
  hex4_loop offset (suc rounds) index value = elim (hex_value (byte_at input (offset + index))) [
    | none ↦ err (error_at parse_invalid_unicode_escape (offset + index))
    | some digit ↦ hex4_loop offset rounds (index + 1) (value * 16 + digit)
  ]

  unfoldable pub parse_hex4 : ℕ → Result ℕ
  parse_hex4 offset =
      if ltb (length input) (offset + 4)
      then err (error_at parse_invalid_unicode_escape offset)
      else hex4_loop offset 4 0 0

  -- A digit that is none would set all bits.
  unfoldable pub hex4_unchecked_loop : ℕ → ℕ → ℕ → ℕ → ℕ
  hex4_unchecked_loop offset zero index value = value
  hex4_unchecked_loop offset (suc rounds) index value =
      hex4_unchecked_loop offset rounds (index + 1)
        (elim (hex_value (byte_at input (offset + index))) [
          | none ↦ 2 ^ 32 - 1
          | some digit ↦ value * 16 % 2 ^ 32 + digit
        ])

  unfoldable pub parse_hex4_unchecked : ℕ → ℕ
  parse_hex4_unchecked offset = hex4_unchecked_loop offset 4 0 0

  unfoldable pub validate_utf8 : ℕ → Result ℕ
  validate_utf8 offset = elim (utf8_sequence_length input offset) [
    | err e ↦ err (error_at parse_invalid_string e.offset)
    | ok len ↦ ok len
  ]

  -- The second half of a surrogate pair, at `cursor`.
  unfoldable pub scan_low_surrogate : ℕ → ℕ → ℕ → Result Piece
  scan_low_surrogate escape_offset cursor high =
      if ltb (length input) (cursor + 6)
        || (not (byte_at input cursor == b'\\') || not (byte_at input (cursor + 1) == b'u'))
      then err (error_at parse_invalid_unicode_escape escape_offset)
      else elim (parse_hex4 (cursor + 2)) [
        | err e ↦ err e
        | ok low ↦
            if is_low_surrogate low
            then ok (unicode_piece (surrogate_pair high low) (cursor + 6))
            else err (error_at parse_invalid_unicode_escape cursor)
      ]

  -- `case 'u'`
  unfoldable pub scan_unicode : ℕ → Result Piece
  scan_unicode escape_offset = elim (parse_hex4 (escape_offset + 2)) [
    | err e ↦ err e
    | ok code_point ↦
        if is_high_surrogate code_point
        then scan_low_surrogate escape_offset (escape_offset + 6) code_point
        else if is_low_surrogate code_point
        then err (error_at parse_invalid_unicode_escape escape_offset)
        else ok (unicode_piece code_point (escape_offset + 6))
  ]

  -- The escape behind the backslash at `cursor`.
  unfoldable pub scan_escape : ℕ → Result Piece
  scan_escape cursor =
      if cursor + 1 == length input
      then err (error_at parse_unexpected_end (cursor + 1))
      else if byte_at input (cursor + 1) == b'u'
      then scan_unicode cursor
      else elim (short_escape_byte (byte_at input (cursor + 1))) [
        | none ↦ err (error_at parse_invalid_escape (cursor + 1))
        | some byte ↦ ok (record {
          stop = cursor + 2;
          decoded = 1;
          escape = true;
          flagged = not (byte_at input (cursor + 1) == b'/');
        })
      ]

  -- One round of the scan, at a byte that is neither a quotation mark nor a control character.
  unfoldable pub scan_piece : ℕ → Result Piece
  scan_piece cursor =
      if byte_at input cursor == b'\\'
      then scan_escape cursor
      else if ltb (byte_at input cursor) 0x80
      then ok (record { stop = cursor + 1; decoded = 1; escape = false; flagged = false })
      else elim (validate_utf8 cursor) [
        | err e ↦ err e
        | ok len ↦
            ok (record { stop = cursor + len; decoded = len; escape = false; flagged = false })
      ]

  -- Each round moves the cursor, so that the input's size and one are rounds enough.
  unfoldable pub scan_loop : ℕ → ℕ → StringScan → Result StringScan
  scan_loop zero start scan = err (error_at internal_error 0)
  scan_loop (suc rounds) start scan = elim (ltb scan.stop (length input)) [
    | false ↦ err (error_at parse_unexpected_end (length input))
    | true ↦ elim (byte_at input scan.stop == b'"') [
      | true ↦ ok (record scan { stop = scan.stop + 1 })
      | false ↦ elim (ltb (byte_at input scan.stop) 0x20) [
        | true ↦ err (error_at parse_invalid_string scan.stop)
        | false ↦ elim (scan_piece scan.stop) [
          | err e ↦ err e
          | ok piece ↦ elim (ltb 65535 (scan.decoded_length + piece.decoded)) [
            | true ↦ err (error_at string_capacity_exceeded start)
            | false ↦ scan_loop rounds start (record {
              stop = piece.stop;
              decoded_length = scan.decoded_length + piece.decoded;
              has_escape = scan.has_escape || piece.escape;
              flags = if piece.flagged then 1 else scan.flags;
            })
          ]
        ]
      ]
    ]
  ]

  unfoldable pub scan_string : ℕ → Result StringScan
  scan_string start =
      scan_loop (length input + 1) start
        (record { stop = start + 1; decoded_length = 0; has_escape = false; flags = 0 })

  -- The code point of the escape `\u` whose digits start at `cursor`, and where the escape ends.
  unfoldable pub decode_unicode : ℕ → Bytes × ℕ
  decode_unicode cursor =
      if is_high_surrogate (parse_hex4_unchecked cursor)
      then (
        encode_utf8
            (surrogate_pair (parse_hex4_unchecked cursor) (parse_hex4_unchecked (cursor + 6))),
        cursor + 10,
      )
      else (encode_utf8 (parse_hex4_unchecked cursor), cursor + 4)

  -- One round of the decoding: the bytes written, and the next position.
  unfoldable pub decode_piece : ℕ → Bytes × ℕ
  decode_piece cursor =
      if byte_at input cursor == b'\\'
      then if byte_at input (cursor + 1) == b'u'
        then decode_unicode (cursor + 2)
        else elim (short_escape_byte (byte_at input (cursor + 1))) [
          | none ↦ ([], cursor + 2)
          | some byte ↦ (byte ∷ [], cursor + 2)
        ]
      else if ltb (byte_at input cursor) 0x80
      then (byte_at input cursor ∷ [], cursor + 1)
      else (
        slice input cursor (cursor + unchecked_utf8_length (byte_at input cursor)),
        cursor + unchecked_utf8_length (byte_at input cursor),
      )

  -- `destination` is the place in the storage that the next byte is written to.
  unfoldable pub decode_loop : ℕ → ℕ → ℕ → ℕ → (ℕ → ℕ) → ℕ → ℕ
  decode_loop zero content_end cursor destination bytes = bytes
  decode_loop (suc rounds) content_end cursor destination bytes = elim (ltb cursor content_end) [
    | false ↦ bytes
    | true ↦
        let piece = decode_piece cursor in
        decode_loop rounds content_end piece.1 (destination + length piece.0)
          (copy_bytes destination piece.0 bytes)
  ]

  unfoldable pub decode_string : ℕ → ℕ → ℕ → (ℕ → ℕ) → ℕ → ℕ
  decode_string start stop destination bytes =
      decode_loop (length input) (stop - 1) (start + 1) destination bytes
