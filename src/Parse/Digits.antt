-- ===== src/Parse/Digits.antt =====
-- The scan of a number in src/parse.cpp ends behind it, in the input.
use slabjson.Prelude.{
  ℕ, ◌+◌, ◌≤◌, ◌<◌, ◌≡◌, refl, ◌⊎◌, inl, inr, true, false, ◌&&◌, ◌||◌, ltb, leb, ◌==◌, length,
  arith, Bool-cases,
}
use slabjson.Error.{Error, error_at, parse_invalid_number}
use slabjson.Result.{Outcome, Op, ok, err, ◌>>=◌}
use slabjson.Utf8.{Bytes, byte_at}
use slabjson.Parse.Numbers.{
  is_digit, is_sign, digit_at, digits_end, scan_minus, scan_integer, scan_digits, scan_fraction,
  scan_exponent, scan_number,
}
use slabjson.Parse.Errors.{OfInput}
use slabjson.Parse.Positions.{digits_end-lt}

module _ (input : Bytes) where
  -- A part of a number ends at `low` or behind it, with `left` characters to come in the input; or
  -- its error lies in the input.
  abbrev pub Scans : {A : Type 0} → ℕ → ℕ → Outcome ℕ A → Type 0
  Scans {A} low left r =
      ((a : A) × (next : ℕ) × (low ≤ next) × (next + left ≤ length input) × (r ≡ (ok a, next)))
      ⊎ ((e : Error) × (next : ℕ) × OfInput input e × (r ≡ (err e, next)))

  bind-Scans :
      {A B : Type 0} (m : Op ℕ A) (k : A → Op ℕ B) (position low left : ℕ) {more : ℕ}
      → Scans more left (m position)
      → ((a : A) (next : ℕ) → more ≤ next → next + left ≤ length input → Scans low 0 (k a next))
      → Scans low 0 ((m >>= k) position)
  bind-Scans m k position low left (inr (e, next, o, q)) h = inr (e, next, o, rw q)
  bind-Scans m k position low left (inl (a, next, f, w, q)) h = rw q (h a next f w)

  scan_minus-Scans :
      (position : ℕ) → position < length input → Scans position 1 (scan_minus input position)
  unfolding scan_minus
  scan_minus-Scans position l = elim (Bool-cases (byte_at input position == b'-')) [
    | inr plus ↦ inl (false, position, omega arith, omega arith, rw (plus, scan_minus))
    | inl minus ↦ elim (Bool-cases (position + 1 == length input)) [
      | inl end ↦ inr (
        error_at parse_invalid_number (position + 1),
        position + 1,
        (omega arith, λ c. cc),
        rw (minus, scan_minus) (rw end),
      )
      | inr more ↦
          inl (true, position + 1, omega arith, ground arith, rw (minus, scan_minus) (rw more))
    ]
  ]

  invalid :
      (position : ℕ)
      → position ≤ length input
      → OfInput input (error_at parse_invalid_number position)
  invalid position l = (l, λ c. cc)

  scan_digits-Scans :
      (position : ℕ) → position ≤ length input → Scans (position + 1) 0 (scan_digits input position)
  unfolding scan_digits
  scan_digits-Scans position l = elim (Bool-cases (digit_at input position)) [
    | inr d ↦
        inr (
          error_at parse_invalid_number position,
          position,
          invalid position l,
          rw (d, scan_digits),
        )
    | inl d ↦
        let (f, w) = digits_end-lt input position (ground arith) (ground arith) in
        inl (tt, digits_end input position, omega arith, omega arith, rw (d, scan_digits))
  ]

  one_to_nine-digit : (c : ℕ) → (leb b'1' c && leb c b'9') ≡ true → is_digit c ≡ true
  unfolding is_digit
  one_to_nine-digit c h = ground arith

  scan_integer-Scans :
      (position : ℕ)
      → position < length input
      → Scans (position + 1) 0 (scan_integer input position)
  unfolding scan_integer
  scan_integer-Scans position l = elim (Bool-cases (byte_at input position == b'0')) [
    | inl z ↦ elim (Bool-cases (digit_at input (position + 1))) [
      | inl d ↦ inr (
        error_at parse_invalid_number (position + 1),
        position + 1,
        invalid (position + 1) (omega arith),
        rw (z, scan_integer) (rw d),
      )
      | inr d ↦ inl (tt, position + 1, omega arith, omega arith, rw (z, scan_integer) (rw d))
    ]
    | inr z ↦
        elim (Bool-cases (leb b'1' (byte_at input position) && leb (byte_at input position) b'9')) [
          | inr d ↦ inr (
            error_at parse_invalid_number position,
            position,
            invalid position (omega arith),
            rw (z, scan_integer) (rw d),
          )
          | inl d ↦
              let (f, w) =
                digits_end-lt input position l (one_to_nine-digit (byte_at input position) d) in
              inl (
                tt,
                digits_end input position,
                omega arith,
                omega arith,
                rw (z, scan_integer) (rw d),
              )
        ]
  ]

  past-Scans :
      (position start : ℕ)
      → position ≤ start
      → start ≤ length input
      → Scans position 0 ((scan_digits input >>= λ _ p. (ok true, p)) start)
  past-Scans position start h l =
      bind-Scans (scan_digits input) (λ _ p. (ok true, p)) start position 0
        (scan_digits-Scans start l) (λ a next f w. inl (true, next, omega arith, w, refl))

  scan_fraction-Scans :
      (position : ℕ) → position ≤ length input → Scans position 0 (scan_fraction input position)
  unfolding scan_fraction
  scan_fraction-Scans position l =
      elim (Bool-cases (ltb position (length input) && byte_at input position == b'.')) [
        | inr d ↦ inl (false, position, omega arith, omega arith, rw (d, scan_fraction))
        | inl d ↦
            rw (d, scan_fraction) (past-Scans position (position + 1) (omega arith) (ground arith))
      ]

  scan_exponent-Scans :
      (position : ℕ) → position ≤ length input → Scans position 0 (scan_exponent input position)
  unfolding scan_exponent
  scan_exponent-Scans position l =
      elim (Bool-cases (
        ltb position (length input)
        && (byte_at input position == b'e' || byte_at input position == b'E'))) [
          | inr d ↦ inl (false, position, omega arith, omega arith, rw (d, scan_exponent))
          | inl d ↦
              elim (Bool-cases (
                ltb (position + 1) (length input)
                && is_sign input (byte_at input (position + 1)))) [
                  | inl sign ↦
                      rw (d, scan_exponent)
                        (rw sign (past-Scans position (position + 2) (omega arith) (ground arith)))
                  | inr sign ↦
                      rw (d, scan_exponent)
                        (rw sign (past-Scans position (position + 1) (omega arith) (ground arith)))
                ]
        ]

  -- A number takes at least one character, and its errors lie in the input.
  pub scan_number-Scans :
      (position : ℕ) → position < length input → Scans (position + 1) 0 (scan_number input position)
  unfolding scan_number
  scan_number-Scans position l =
      bind-Scans (scan_minus input) _ position (position + 1) 1 {more = position}
        (scan_minus-Scans position l)
        (λ negative p f w.
          bind-Scans (scan_integer input) _ p (position + 1) 0 (scan_integer-Scans p (omega arith))
            (λ _ q g v.
              bind-Scans (scan_fraction input) _ q (position + 1) 0
                (scan_fraction-Scans q (omega arith))
                (λ fraction r h x.
                  bind-Scans (scan_exponent input) _ r (position + 1) 0
                    (scan_exponent-Scans r (omega arith))
                    (λ exponent t i y.
                      inl ((negative, fraction || exponent), t, omega arith, omega arith, refl)))))
