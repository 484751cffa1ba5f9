-- ===== src/Serialize/Instances.antt =====
-- The three writers of src/serialize.cpp keep their contract.
use slabjson.Prelude.{
  ℕ, ◌≤◌, ◌≡◌, refl, subst, [], ◌∷◌, ◌++◌, length, length-append, arith, sub_size-eq,
}
use slabjson.Utf8.{Bytes}
use slabjson.Serialize.Writers.{
  size_max, CountingWriter, count_more, count_char, counting, CheckedWriter, check_char, check_text,
  check_repeated, checked, UncheckedWriter, put_char, put_text, put_repeated, unchecked,
}
use slabjson.Serialize.Emits.{Appends, Lawful, length-repeated}
use slabjson.Serialize.Memory.{
  Holding, copied-Holding, filled-Holding, copy_bytes-nil, fill_bytes-zero,
}
use slabjson.Json.{repeated}

abbrev pub Counted : CountingWriter → Bytes → Type 0
Counted w xs = (w.position ≡ length xs) × (length xs ≤ size_max)

pub count_more-Appends :
    (ys : Bytes) → Appends Counted (Unit {0}) size_max (count_more (length ys)) ys
unfolding count_more
count_more-Appends ys w xs (e, l) = (
  λ h. (
    record { position = length (xs ++ ys) },
    ground (arith, length-append xs ys, sub_size-eq size_max w.position),
    (refl, omega (arith, length-append xs ys)),
  ),
  λ h _. ground (arith, sub_size-eq size_max w.position),
)

pub count_char-Appends : (c : ℕ) → Appends Counted (Unit {0}) size_max (count_char c) (c ∷ [])
unfolding count_char
count_char-Appends c w xs (e, l) = (
  λ h. (
    record { position = length (xs ++ (c ∷ [])) },
    ground (arith, length-append xs (c ∷ [])),
    (refl, omega (arith, length-append xs (c ∷ []))),
  ),
  λ h _. ground arith,
)

abbrev pub counting_lawful : Lawful counting
counting_lawful = record {
  Written = Counted;
  Checks = Unit {0};
  limit = size_max;
  limit_le = omega arith;
  char_lem = count_char-Appends;
  text_lem = count_more-Appends;
  repeated_lem = λ c n h.
      subst (λ k. Appends Counted (Unit {0}) size_max (count_more k) (repeated c n))
        (length-repeated c n) (count_more-Appends (repeated c n));
  within = λ w xs h. h.1;
  size_lem = λ w xs h. h.0;
}

module _ (memory : ℕ → ℕ) (limit : ℕ) (small : limit ≤ size_max) where
  abbrev pub Held : CheckedWriter → Bytes → Type 0
  Held w xs = (w.limit ≡ limit) × Holding memory w.output w.position limit xs

  pub check_char-Appends : (c : ℕ) → Appends Held (Unit {0}) limit (check_char c) (c ∷ [])
  unfolding check_char
  check_char-Appends c w xs (l, h) = (
    λ room. (
      (check_char c w).1,
      ground arith,
      ground (arith, copied-Holding memory limit small xs (c ∷ []) w.output w.position h room),
    ),
    λ over _. ground arith,
  )

  pub check_text-Appends : (ys : Bytes) → Appends Held (Unit {0}) limit (check_text ys) ys
  unfolding check_text
  check_text-Appends ys w xs (l, h) = (
    λ room. (
      (check_text ys w).1,
      ground (arith, sub_size-eq limit w.position),
      ground (
        arith,
        sub_size-eq limit w.position,
        length-append xs ys,
        copied-Holding memory limit small xs ys w.output w.position h room,
        copy_bytes-nil w.position ys w.output,
      ),
    ),
    λ over _. ground (arith, sub_size-eq limit w.position),
  )

  pub check_repeated-Appends :
      (c n : ℕ) → Appends Held (Unit {0}) limit (check_repeated c n) (repeated c n)
  unfolding check_repeated
  check_repeated-Appends c n w xs (l, h) = (
    λ room. (
      (check_repeated c n w).1,
      ground (arith, sub_size-eq limit w.position, length-repeated c n),
      ground (
        arith,
        sub_size-eq limit w.position,
        length-append xs (repeated c n),
        length-repeated c n,
        filled-Holding memory limit small xs c n w.output w.position h,
        fill_bytes-zero w.position c w.output,
      ),
    ),
    λ over _. ground (arith, sub_size-eq limit w.position, length-repeated c n),
  )

  abbrev pub checked_lawful : Lawful checked
  checked_lawful = record {
    Written = Held;
    Checks = Unit {0};
    limit = limit;
    limit_le = small;
    char_lem = check_char-Appends;
    text_lem = check_text-Appends;
    repeated_lem = λ c n h. check_repeated-Appends c n;
    within = λ w xs h. h.1.1;
    size_lem = λ w xs h. h.1.0;
  }

module _ (memory : ℕ → ℕ) where
  abbrev pub Put : UncheckedWriter → Bytes → Type 0
  Put w xs = Holding memory w.output w.position size_max xs

  pub put_char-Appends : (c : ℕ) → Appends Put ⊥ size_max (put_char c) (c ∷ [])
  unfolding put_char
  put_char-Appends c w xs h = (
    λ room. (
      (put_char c w).1,
      refl,
      copied-Holding memory size_max (omega arith) xs (c ∷ []) w.output w.position h room,
    ),
    λ over no_check. absurd no_check,
  )

  pub put_text-Appends : (ys : Bytes) → Appends Put ⊥ size_max (put_text ys) ys
  unfolding put_text
  put_text-Appends ys w xs h = (
    λ room. (
      (put_text ys w).1,
      ground arith,
      ground (
        arith,
        length-append xs ys,
        copied-Holding memory size_max (omega arith) xs ys w.output w.position h room,
        copy_bytes-nil w.position ys w.output,
      ),
    ),
    λ over no_check. absurd no_check,
  )

  pub put_repeated-Appends : (c n : ℕ) → Appends Put ⊥ size_max (put_repeated c n) (repeated c n)
  unfolding put_repeated
  put_repeated-Appends c n w xs h = (
    λ room. (
      (put_repeated c n w).1,
      ground arith,
      ground (
        arith,
        length-append xs (repeated c n),
        length-repeated c n,
        filled-Holding memory size_max (omega arith) xs c n w.output w.position h,
        fill_bytes-zero w.position c w.output,
      ),
    ),
    λ over no_check. absurd no_check,
  )

  abbrev pub unchecked_lawful : Lawful unchecked
  unchecked_lawful = record {
    Written = Put;
    Checks = ⊥;
    limit = size_max;
    limit_le = omega arith;
    char_lem = put_char-Appends;
    text_lem = put_text-Appends;
    repeated_lem = λ c n h. put_repeated-Appends c n;
    within = λ w xs h. h.1;
    size_lem = λ w xs h. h.0;
  }
