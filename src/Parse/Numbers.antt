-- ===== src/Parse/Numbers.antt =====
-- src/parse.cpp: the scan of numbers and their conversion.
use slabjson.Prelude.{
  ℕ, zero, suc, ◌+◌, ◌-◌, ◌*◌, ◌^◌, Bool, true, false, ◌&&◌, ◌||◌, Option, none, some, [], ◌∷◌, ltb,
  leb, ◌==◌, if◌then◌else◌, length, ℤ, pos, negsuc,
}
use slabjson.Error.{error_at, parse_invalid_number}
use slabjson.Result.{Op, ok, err, ◌>>=◌, ◌>>◌}
use slabjson.Utf8.{Bytes, byte_at}

unfoldable pub is_digit : ℕ → Bool
is_digit character = leb b'0' character && leb character b'9'

-- The number that digits spell, behind the number `n`.
abbrev pub read_digits : ℕ → Bytes → ℕ
read_digits n [] = n
read_digits n (c ∷ cs) = read_digits (10 * n + (c - b'0')) cs

abbrev pub negated : ℕ → ℤ
negated zero = pos 0
negated (suc n) = negsuc n

-- `std::from_chars` of the text of an integer; `none` is `std::errc::result_out_of_range`.
unfoldable pub signed_from_chars : Bytes → Option ℤ
signed_from_chars [] = none
signed_from_chars (c ∷ cs) =
    if c == b'-'
    then if leb (read_digits 0 cs) (2 ^ 63) then some (negated (read_digits 0 cs)) else none
    else if ltb (read_digits 0 (c ∷ cs)) (2 ^ 63)
    then some (pos (read_digits 0 (c ∷ cs)))
    else none

unfoldable pub unsigned_from_chars : Bytes → Option ℕ
unsigned_from_chars cs = if ltb (read_digits 0 cs) (2 ^ 64) then some (read_digits 0 cs) else none

module _ (input : Bytes) where
  -- `position_ < input_.size() && is_digit(input_[position_])`
  abbrev pub digit_at : ℕ → Bool
  digit_at position = ltb position (length input) && is_digit (byte_at input position)

  unfoldable pub digits_end_loop : ℕ → ℕ → ℕ
  digits_end_loop zero position = position
  digits_end_loop (suc rounds) position = elim (digit_at position) [
    | true ↦ digits_end_loop rounds (position + 1)
    | false ↦ position
  ]

  -- The loops over digits. Each round moves the position below the input's size.
  unfoldable pub digits_end : ℕ → ℕ
  digits_end position = digits_end_loop (length input) position

  -- The parts of a number; the state is the position. Each says whether its sign is there.
  unfoldable pub scan_minus : Op ℕ Bool
  scan_minus position =
      if byte_at input position == b'-'
      then if position + 1 == length input
        then (err (error_at parse_invalid_number (position + 1)), position + 1)
        else (ok true, position + 1)
      else (ok false, position)

  unfoldable pub scan_integer : Op ℕ (Unit {0})
  scan_integer position =
      if byte_at input position == b'0'
      then if digit_at (position + 1)
        then (err (error_at parse_invalid_number (position + 1)), position + 1)
        else (ok tt, position + 1)
      else if leb b'1' (byte_at input position) && leb (byte_at input position) b'9'
      then (ok tt, digits_end position)
      else (err (error_at parse_invalid_number position), position)

  -- At least one digit must follow.
  unfoldable pub scan_digits : Op ℕ (Unit {0})
  scan_digits position =
      if digit_at position
      then (ok tt, digits_end position)
      else (err (error_at parse_invalid_number position), position)

  unfoldable pub scan_fraction : Op ℕ Bool
  scan_fraction position =
      if ltb position (length input) && byte_at input position == b'.'
      then (scan_digits >>= λ _ p. (ok true, p)) (position + 1)
      else (ok false, position)

  abbrev pub is_sign : ℕ → Bool
  is_sign character = character == b'+' || character == b'-'

  unfoldable pub scan_exponent : Op ℕ Bool
  scan_exponent position =
      if ltb position (length input)
        && (byte_at input position == b'e' || byte_at input position == b'E')
      then (scan_digits >>= λ _ p. (ok true, p)) (
          if ltb (position + 1) (length input) && is_sign (byte_at input (position + 1))
          then position + 2
          else position + 1)
      else (ok false, position)

  -- Whether the number is negative, and whether it is a floating point number.
  unfoldable pub scan_number : Op ℕ (Bool × Bool)
  scan_number = scan_minus >>= λ negative.
      scan_integer
      >> (scan_fraction >>= λ fraction.
          scan_exponent >>= λ exponent p. (ok (negative, fraction || exponent), p))
