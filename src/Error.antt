-- ===== src/Error.antt =====
-- include/slabjson/error.hpp: the error codes, and an error with the offset where it arose.
use slabjson.Prelude.{ℕ, Bool}

pub data ErrorCode : Type 0 where
  no_error invalid_argument invalid_handle type_mismatch not_found already_attached cross_slab :
      ErrorCode
  cycle_detected invalid_utf8 non_finite_number : ErrorCode
  out_of_memory string_capacity_exceeded parser_depth_exceeded output_capacity_exceeded : ErrorCode
  parse_unexpected_end parse_unexpected_token parse_invalid_string parse_invalid_number : ErrorCode
  parse_invalid_escape parse_invalid_unicode_escape parse_trailing_characters : ErrorCode
  internal_error : ErrorCode

pub record Error : Type 0 where
  pub code : ErrorCode
  pub offset : ℕ

abbrev pub error_at : ErrorCode → ℕ → Error
error_at c k = record { code = c; offset = k }

-- `Error{}`
abbrev pub no_error_yet : Error
no_error_yet = error_at no_error 0

-- `code == ErrorCode::Ok`
abbrev pub is_ok : ErrorCode → Bool
is_ok no_error = Bool.true
is_ok _ = Bool.false
