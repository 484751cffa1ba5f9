-- ===== src/Parse/Stops.antt =====
-- Where the loops over white space and over digits in src/parse.cpp end.
use slabjson.Prelude.{
  ℕ, zero, suc, ◌+◌, ◌≤◌, ◌<◌, ◌≡◌, refl, sym, subst, ◌↔◌, ◌⊎◌, inl, inr, true, false, ◌&&◌, ltb,
  length, arith, Bool-cases, ℕ_discrete,
}
use slabjson.Result.{ok}
use slabjson.Utf8.{Bytes, byte_at}
use slabjson.Parse.Numbers.{is_digit, digit_at, digits_end_loop, digits_end}
use slabjson.Parse.Values.{Parser, is_whitespace, whitespace_loop, skip_whitespace}

-- The white space of JSON (RFC 8259, section 2).
abbrev pub IsWhitespace : ℕ → Type 0
IsWhitespace c = (c ≡ 0x20) ⊎ ((c ≡ 0x09) ⊎ ((c ≡ 0x0a) ⊎ (c ≡ 0x0d)))

abbrev pub IsDecimalDigit : ℕ → Type 0
IsDecimalDigit c = (b'0' ≤ c) × (c ≤ b'9')

-- From `start` all characters up to `stop` are of the kind, and there another one is, or the end.
pub record Stops (Kind : ℕ → Type 0) (input : Bytes) (start stop : ℕ) : Type 0 where
  pub forward : start ≤ stop
  pub within : stop ≤ length input
  pub passed : (i : ℕ) → start ≤ i → i < stop → Kind (byte_at input i)
  pub stopped : (stop ≡ length input) ⊎ (¬ (Kind (byte_at input stop)))

is_whitespace_iff : (c : ℕ) → (is_whitespace c ≡ true) ↔ IsWhitespace c
unfolding is_whitespace
is_whitespace_iff c = ground arith

is_digit_iff : (c : ℕ) → (is_digit c ≡ true) ↔ IsDecimalDigit c
unfolding is_digit
is_digit_iff c = ground arith

module _ {Kind : ℕ → Type 0} (input : Bytes) where
  here-Stops :
      (position : ℕ)
      → position ≤ length input
      → (position ≡ length input) ⊎ (¬ (Kind (byte_at input position)))
      → Stops Kind input position position
  here-Stops position l stopped = record {
    forward = omega arith;
    within = l;
    passed = λ i h k. absurd (omega arith);
    stopped = stopped;
  }

  next-Stops :
      (position stop : ℕ)
      → Kind (byte_at input position)
      → Stops Kind input (position + 1) stop
      → Stops Kind input position stop
  next-Stops position stop first s = record {
    forward = omega (arith, s.forward);
    within = s.within;
    passed = λ i h k. elim (ℕ_discrete i position) [
      | yes e ↦ subst (λ j. Kind (byte_at input j)) (sym e) first
      | no other ↦ s.passed i (omega arith) k
    ];
    stopped = s.stopped;
  }

module _ (input : Bytes) where
  whitespace_loop-Stops :
      (rounds position : ℕ)
      → position ≤ length input
      → length input ≤ position + rounds
      → Stops IsWhitespace input position (whitespace_loop input rounds position)
  unfolding whitespace_loop
  whitespace_loop-Stops zero position l r = here-Stops input position l (inl (omega arith))
  whitespace_loop-Stops (suc rounds) position l r =
      elim (Bool-cases (ltb position (length input) && is_whitespace (byte_at input position))) [
        | inr e ↦ rw (e, whitespace_loop) (here-Stops input position l (ended e))
        | inl e ↦
            rw (e, whitespace_loop)
              (next-Stops input position (whitespace_loop input rounds (position + 1))
                ((is_whitespace_iff (byte_at input position)).0 (ground arith))
                (whitespace_loop-Stops rounds (position + 1) (ground arith) (omega arith)))
      ]
    where
      ended :
          (ltb position (length input) && is_whitespace (byte_at input position)) ≡ false
          → (position ≡ length input) ⊎ (¬ (IsWhitespace (byte_at input position)))
      ended e = elim (Bool-cases (is_whitespace (byte_at input position))) [
        | inl space ↦ inl (ground arith)
        | inr other ↦ inr (λ w. absurd (cc ((is_whitespace_iff (byte_at input position)).1 w)))
      ]

  -- From a position in the input or at its end, `skip_whitespace` moves over white space only (RFC
  -- 8259), and ends at the first other character or at the end of the input. The slab stays as it
  -- is, and the loop never runs out of rounds.
  pub skip_whitespace-Stops :
      (p : Parser)
      → p.position ≤ length input
      → ((skip_whitespace input p).0 ≡ ok tt)
        × ((skip_whitespace input p).1.slab ≡ p.slab)
        × Stops IsWhitespace input p.position (skip_whitespace input p).1.position
  unfolding skip_whitespace
  skip_whitespace-Stops p l =
      (refl, refl, whitespace_loop-Stops (length input) p.position l (omega arith))

  digits_end_loop-Stops :
      (rounds position : ℕ)
      → position ≤ length input
      → length input ≤ position + rounds
      → Stops IsDecimalDigit input position (digits_end_loop input rounds position)
  unfolding digits_end_loop
  digits_end_loop-Stops zero position l r = here-Stops input position l (inl (omega arith))
  digits_end_loop-Stops (suc rounds) position l r = elim (Bool-cases (digit_at input position)) [
    | inr e ↦ rw (e, digits_end_loop) (here-Stops input position l (ended e))
    | inl e ↦
        rw (e, digits_end_loop)
          (next-Stops input position (digits_end_loop input rounds (position + 1))
            ((is_digit_iff (byte_at input position)).0 (ground arith))
            (digits_end_loop-Stops rounds (position + 1) (ground arith) (omega arith)))
  ]
    where
      ended :
          digit_at input position ≡ false
          → (position ≡ length input) ⊎ (¬ (IsDecimalDigit (byte_at input position)))
      ended e = elim (Bool-cases (is_digit (byte_at input position))) [
        | inl digit ↦ inl (ground arith)
        | inr other ↦ inr (λ w. absurd (cc ((is_digit_iff (byte_at input position)).1 w)))
      ]

  -- From a position in the input or at its end, the loop over digits moves over decimal digits
  -- only, and ends at the first other character or at the end of the input: it never runs out of
  -- rounds.
  pub digits_end-Stops :
      (position : ℕ)
      → position ≤ length input
      → Stops IsDecimalDigit input position (digits_end input position)
  unfolding digits_end
  digits_end-Stops position l = digits_end_loop-Stops (length input) position l (omega arith)
