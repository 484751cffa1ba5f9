-- ===== src/Parse/Positions.antt =====
-- How src/parse.cpp moves its position: forward, and never out of the input.
use slabjson.Prelude.{
  ℕ, zero, suc, ◌+◌, ◌≤◌, ◌<◌, ◌≡◌, refl, ◌⊎◌, inl, inr, true, ◌&&◌, [], ◌∷◌, ltb, leb, ◌==◌,
  length, arith, Bool-cases,
}
use slabjson.Error.{Error, error_at, parse_unexpected_end}
use slabjson.Result.{Op, ok, err, Result-cases, ◌>>◌}
use slabjson.Utf8.{Bytes, byte_at}
use slabjson.Parse.Numbers.{is_digit, digit_at, digits_end_loop, digits_end}
use slabjson.Parse.Values.{
  Parser, is_whitespace, whitespace_loop, skip_whitespace, more_input, literal_loop,
  consume_literal,
}
use slabjson.Parse.Errors.{OfInput}

module _ (input : Bytes) where
  whitespace_loop-le :
      (rounds position : ℕ)
      → position ≤ length input
      → (position ≤ whitespace_loop input rounds position)
        × (whitespace_loop input rounds position ≤ length input)
  unfolding whitespace_loop
  whitespace_loop-le zero position h = (omega arith, h)
  whitespace_loop-le (suc rounds) position h =
      elim (Bool-cases (ltb position (length input) && is_whitespace (byte_at input position))) [
        | inr e ↦ ground arith
        | inl e ↦ ground (arith, whitespace_loop-le rounds (position + 1) (ground arith))
      ]

  -- The parser has moved forward and has not changed its slab.
  pub record Moved (p q : Parser) : Type 0 where
    pub slab_kept : q.slab ≡ p.slab
    pub forward : p.position ≤ q.position
    pub within : q.position ≤ length input

  pub skip_whitespace-Moved :
      (p : Parser) → p.position ≤ length input → Moved p (skip_whitespace input p).1
  unfolding skip_whitespace
  skip_whitespace-Moved p h =
      let (forward, within) = whitespace_loop-le (length input) p.position h in
      record { slab_kept = refl; forward = forward; within = within }

  -- The white space ends at a character, or the input ends.
  pub skip-Moved :
      {A : Type 0} (k : Op Parser A) (p : Parser)
      → p.position ≤ length input
      → ((q : Parser) × Moved p q
          × (q.position < length input)
          × ((skip_whitespace input >> more_input input >> k) p ≡ k q))
        ⊎ ((e : Error) × (q : Parser) × OfInput input e
            × Moved p q
            × ((skip_whitespace input >> more_input input >> k) p ≡ (err e, q)))
  unfolding skip_whitespace
  skip-Moved k p h =
      let m = skip_whitespace-Moved p h in
      elim (Bool-cases (whitespace_loop input (length input) p.position == length input)) [
        | inl e ↦ inr (
          error_at parse_unexpected_end (whitespace_loop input (length input) p.position),
          record p { position = whitespace_loop input (length input) p.position },
          (m.within, λ c. cc),
          m,
          rw e,
        )
        | inr e ↦ inl (
          record p { position = whitespace_loop input (length input) p.position },
          m,
          ground (arith, m.within),
          rw e,
        )
      ]

  literal_loop-OfInput :
      (position index : ℕ) (cs : Bytes) {e : Error}
      → literal_loop input position index cs ≡ err e
      → OfInput input e
  unfolding literal_loop
  literal_loop-OfInput position index [] h = absurd (cc)
  literal_loop-OfInput position index (c ∷ cs) {e} h =
      elim (Bool-cases (leb (length input) (position + index))) [
        | inl out ↦ ground arith
        | inr inside ↦ elim (Bool-cases (byte_at input (position + index) == c)) [
          | inl same ↦ literal_loop-OfInput position (index + 1) cs (ground arith)
          | inr other ↦ ground arith
        ]
      ]

  literal_loop-le :
      (position index : ℕ) (cs : Bytes)
      → position + index ≤ length input
      → literal_loop input position index cs ≡ ok tt
      → position + index + length cs ≤ length input
  unfolding literal_loop
  literal_loop-le position index [] l h = omega arith
  literal_loop-le position index (c ∷ cs) l h =
      elim (Bool-cases (leb (length input) (position + index))) [
        | inl out ↦ absurd (ground arith)
        | inr inside ↦ elim (Bool-cases (byte_at input (position + index) == c)) [
          | inr other ↦ absurd (ground arith)
          | inl same ↦
              let rest = literal_loop-le position (index + 1) cs (ground arith) (ground arith) in
              omega (arith, rest)
        ]
      ]

  pub consume_literal-Moved :
      (literal : Bytes) (p : Parser)
      → p.position ≤ length input
      → ((q : Parser) × Moved p q
          × (q.position ≡ p.position + length literal)
          × (consume_literal input literal p ≡ (ok tt, q)))
        ⊎ ((e : Error) × OfInput input e × (consume_literal input literal p ≡ (err e, p)))
  unfolding consume_literal
  consume_literal-Moved literal p h =
      elim (Result-cases (literal_loop input p.position 0 literal)) [
        | inr (e, q) ↦ inr (e, literal_loop-OfInput p.position 0 literal q, rw (q, consume_literal))
        | inl (u, q) ↦
            let l = literal_loop-le p.position 0 literal (omega arith) q in
            inl (
              record p { position = p.position + length literal },
              record { slab_kept = refl; forward = omega arith; within = omega (arith, l) },
              refl,
              rw (q, consume_literal),
            )
      ]

  digits_end_loop-le :
      (rounds position : ℕ)
      → position ≤ length input
      → (position ≤ digits_end_loop input rounds position)
        × (digits_end_loop input rounds position ≤ length input)
  unfolding digits_end_loop
  digits_end_loop-le zero position h = (omega arith, h)
  digits_end_loop-le (suc rounds) position h = elim (Bool-cases (digit_at input position)) [
    | inr e ↦ ground arith
    | inl e ↦ ground (arith, digits_end_loop-le rounds (position + 1) (ground arith))
  ]

  pub digits_end-lt :
      (position : ℕ)
      → position < length input
      → is_digit (byte_at input position) ≡ true
      → (position < digits_end input position) × (digits_end input position ≤ length input)
  unfolding digits_end digits_end_loop
  digits_end-lt position h d = elim (ℕ-cases (length input)) [
    | inl e ↦ absurd (omega arith)
    | inr (n, e) ↦
        let rest = digits_end_loop-le n (position + 1) (omega arith) in
        rw (e, digits_end) (ground (arith, rest))
  ]
    where
      ℕ-cases : (n : ℕ) → (n ≡ 0) ⊎ ((m : ℕ) × (n ≡ suc m))
      ℕ-cases zero = inl refl
      ℕ-cases (suc n) = inr (n, refl)
