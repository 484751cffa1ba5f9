-- ===== src/Parse.antt =====
-- src/parse.cpp and include/slabjson/parse.hpp: a document from its JSON text.
pub mod Strings
pub mod Numbers
pub mod Values
pub mod Slices
pub mod Helpers
pub mod Escapes
pub mod Pieces
pub mod Scan
pub mod Errors
pub mod Text
pub mod Positions
pub mod Stops
pub mod Digits
pub mod Parsed
pub mod Scalars
pub mod Texts
pub mod Open
pub mod Arrays
pub mod Objects
pub mod Whole
pub mod Document
use slabjson.Prelude.{
  ℕ, ◌+◌, ◌-◌, ◌≤◌, Bool, true, false, Option, ltb, leb, ◌==◌, ◌||◌, if◌then◌else◌, length,
}
use slabjson.Error.{error_at, invalid_argument, parse_unexpected_end, parse_trailing_characters}
use slabjson.Result.{Result, Outcome, Op, ok, err}
use slabjson.Utf8.{Bytes}
use slabjson.Slab.{Slab, Value, checkpoint, rollback}
use slabjson.Parse.Values.{Parser, Options, skip_whitespace, parse_value}

-- `kMaxParserDepth`
abbrev pub max_parser_depth : ℕ
max_parser_depth = 32

-- Whether the input, which lies at the address `start`, shares an address with the slab's storage.
unfoldable pub overlaps_slab : Slab → ℕ → Bytes → Bool
overlaps_slab s start input =
    if length input == 0 || s.capacity == 0
    then false
    else if leb start s.start
    then ltb (s.start - start) (length input)
    else ltb (start - s.start) s.capacity

module _ (double_from_chars : Bytes → Option ℕ) (input : Bytes) (options : Options) where
  -- What `run` does behind the value: the white space, and the check that this is all.
  unfoldable pub finish : Slab → Value → Op Parser Value
  finish start value p =
      let q = if options.allow_trailing_whitespace then (skip_whitespace input p).1 else p in
      if q.position == length input then (ok value, q) else (
        err (error_at parse_trailing_characters q.position),
        record q { slab = rollback (checkpoint start) q.slab },
      )

  -- What `run` does with the result of the value. The slab at the start has the checkpoint.
  unfoldable pub settle : Slab → Outcome Parser Value → Outcome Slab Value
  settle start (err e, p) = (err e, rollback (checkpoint start) p.slab)
  settle start (ok value, p) = ((finish start value p).0, (finish start value p).1.slab)

  -- `run` behind its checks of the arguments.
  unfoldable pub run_checked : Op Slab Value
  run_checked s =
      let p = (skip_whitespace input (record { slab = s; position = 0 })).1 in
      if p.position == length input
      then (err (error_at parse_unexpected_end p.position), s)
      else settle s
          (parse_value input double_from_chars options.max_depth (options.max_depth + 1) 0 p)

  -- `Parser{slab, input, options}.run()`
  unfoldable pub parse : ℕ → Op Slab Value
  parse start s =
      if s.valid
      then if ltb max_parser_depth options.max_depth
        then (err (error_at invalid_argument 0), s)
        else if overlaps_slab s start input
        then (err (error_at invalid_argument 0), s)
        else run_checked s
      else (err (error_at invalid_argument 0), s)
