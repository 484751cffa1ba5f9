-- ===== src/Tests/Input.antt =====
-- src/parse.cpp on the empty sample slab.
use slabjson.Prelude.{◌≡◌, refl, true, none, [], ◌∷◌, sub_size, dec_lt, ℕ_discrete, arith}
use slabjson.Result.{ok}
use slabjson.Utf8.{Bytes}
use slabjson.Slab.{
  initialize, make_object, make_array, make_object_handle, make_array_handle, allocate_node,
  can_allocate_node, allocate_string, copy_bytes, modify, make_value, make_null, make_bool,
  make_int64, make_uint64, make_double, set_node_number_kind, append_child_unchecked, checkpoint,
  rollback, view_string, is_finite,
}
use slabjson.Parse.Strings.{
  hex_value, utf8_length, unchecked_utf8_length, encode_utf8, short_escape_byte, hex4_loop,
  parse_hex4, hex4_unchecked_loop, parse_hex4_unchecked, validate_utf8, scan_low_surrogate,
  scan_unicode, scan_escape, scan_piece, scan_loop, scan_string, decode_unicode, decode_piece,
  decode_loop, decode_string,
}
use slabjson.Parse.Numbers.{
  is_digit, signed_from_chars, unsigned_from_chars, digits_end_loop, digits_end, scan_minus,
  scan_integer, scan_digits, scan_fraction, scan_exponent, scan_number,
}
use slabjson.Parse.Values.{
  Options, is_whitespace, whitespace_loop, skip_whitespace, literal_loop, consume_literal,
  parse_null, parse_bool, parse_string, parse_string_value, convert_number, parse_number,
  next_entry, array_loop, parse_member, object_loop, parse_container, parse_token, parse_value,
}
use slabjson.Parse.{overlaps_slab, finish, settle, run_checked, parse}
use slabjson.Forest.Basic.{no_kids}
use slabjson.Parse.Document.{AddsOrUndoes, parse-Adds}
use slabjson.Parse.Stops.{
  Stops, IsWhitespace, IsDecimalDigit, skip_whitespace-Stops, digits_end-Stops,
}
use slabjson.Parse.Text.{ParsesString, parse_string-ParsesString}
use slabjson.Tests.Sample.{empty, empty-IsDocument, the_object, runs}

abbrev options : Options
options = record { max_depth = 32; allow_trailing_whitespace = true }

-- {"a":[-1, "\u00e9\n", true]}
abbrev input : Bytes
input =
    b'{' ∷ b'"' ∷ b'a' ∷ b'"' ∷ b':' ∷ b'[' ∷ b'-' ∷ b'1' ∷ b',' ∷ b' ' ∷ b'"' ∷ b'\\' ∷ b'u' ∷ b'0'
    ∷ b'0' ∷ b'e' ∷ b'9' ∷ b'\\' ∷ b'n' ∷ b'"' ∷ b',' ∷ b't' ∷ b'r' ∷ b'u' ∷ b'e' ∷ b']' ∷ b'}' ∷ []

parsed : (parse (λ t. none) input options 1000 empty).0 ≡ ok the_object
unfolding initialize dec_lt ℕ_discrete sub_size make_object make_array make_object_handle
    make_array_handle allocate_node can_allocate_node allocate_string copy_bytes modify make_value
    make_null make_bool make_int64 make_uint64 make_double set_node_number_kind
    append_child_unchecked checkpoint rollback view_string is_finite hex_value utf8_length
    unchecked_utf8_length encode_utf8 short_escape_byte hex4_loop parse_hex4 hex4_unchecked_loop
    parse_hex4_unchecked validate_utf8 scan_low_surrogate scan_unicode scan_escape scan_piece
    scan_loop scan_string decode_unicode decode_piece decode_loop decode_string is_digit
    signed_from_chars unsigned_from_chars digits_end_loop digits_end scan_minus scan_integer
    scan_digits scan_fraction scan_exponent scan_number is_whitespace whitespace_loop
    skip_whitespace literal_loop consume_literal parse_null parse_bool parse_string
    parse_string_value convert_number parse_number next_entry array_loop parse_member object_loop
    parse_container parse_token parse_value overlaps_slab finish settle run_checked parse
parsed = refl

-- The key of the object.
parse_string-ParsesString_example :
    ParsesString input
      (record { slab = empty; position = 1 })
      (parse_string input (record { slab = empty; position = 1 }))
parse_string-ParsesString_example =
    parse_string-ParsesString input (record { slab = empty; position = 1 }) empty-IsDocument.fits
      runs.empty_valid (omega arith)

parse-Adds_example : AddsOrUndoes input no_kids empty (parse (λ t. none) input options 1000 empty)
parse-Adds_example = parse-Adds (λ t. none) input options empty-IsDocument 1000

-- The blank behind the comma.
skip_whitespace-Stops_example :
    ((skip_whitespace input (record { slab = empty; position = 9 })).0 ≡ ok tt)
    × ((skip_whitespace input (record { slab = empty; position = 9 })).1.slab ≡ empty)
    × Stops IsWhitespace input 9
        (skip_whitespace input (record { slab = empty; position = 9 })).1.position
skip_whitespace-Stops_example =
    skip_whitespace-Stops input (record { slab = empty; position = 9 }) (omega arith)

-- The 1 behind the minus sign.
digits_end-Stops_example : Stops IsDecimalDigit input 7 (digits_end input 7)
digits_end-Stops_example = digits_end-Stops input 7 (omega arith)
