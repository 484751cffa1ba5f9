-- ===== src/Parse/Slices.antt =====
-- Parts of the input of src/parse.cpp.
use slabjson.Prelude.{
  ℕ, zero, suc, ◌+◌, ◌-◌, ◌≤◌, ◌<◌, ◌≡◌, refl, sym, ap, ◌∙◌, [], ◌∷◌, ◌++◌, length, drop,
  length-drop, arith,
}
use slabjson.Utf8.{Bytes, byte_at}
use slabjson.Utf8.Sequence.{At, byte_first}
use slabjson.Parse.Strings.{take, slice}

-- What the input holds from a position on.
pub drop-At : (input : Bytes) (n : ℕ) → n ≤ length input → At input n (drop n input)
drop-At input n h = record {
  measured = omega (arith, length-drop n input);
  reads = reads_drop n input;
}
  where
    reads_drop : (n : ℕ) (xs : Bytes) (i : ℕ) → byte_at xs (n + i) ≡ byte_at (drop n xs) i
    reads_drop zero xs i = ap (byte_at xs) (omega arith)
    reads_drop (suc n) [] i = refl
    reads_drop (suc n) (x ∷ xs) i =
        let e : suc n + i ≡ suc (n + i) = omega arith in ap (byte_at (x ∷ xs)) e ∙ reads_drop n xs i

pub take-append : (xs ys : Bytes) → take (length xs) (xs ++ ys) ≡ xs
take-append [] ys = refl
take-append (x ∷ xs) ys = ap (λ t. x ∷ t) (take-append xs ys)

drop_nil : (n : ℕ) → drop n [] ≡ (let xs : Bytes = [] in xs)
drop_nil zero = refl
drop_nil (suc n) = refl

take_nil : (n : ℕ) → take n [] ≡ []
take_nil zero = refl
take_nil (suc n) = refl

drop-drop : (m n : ℕ) (xs : Bytes) → drop m (drop n xs) ≡ drop (n + m) xs
drop-drop m zero xs = ap (λ k. drop k xs) (omega arith)
drop-drop m (suc n) [] = drop_nil m ∙ sym (drop_nil (suc n + m))
drop-drop m (suc n) (x ∷ xs) =
    let e : suc (n + m) ≡ suc n + m = omega arith in drop-drop m n xs ∙ ap (λ k. drop k (x ∷ xs)) e

take-take : (m n : ℕ) (xs : Bytes) → take m xs ++ take n (drop m xs) ≡ take (m + n) xs
take-take zero n xs = ap (λ k. take k xs) (omega arith)
take-take (suc m) n [] = take_nil n ∙ sym (take_nil (suc m + n))
take-take (suc m) n (x ∷ xs) =
    let e : suc (m + n) ≡ suc m + n = omega arith in
    ap (λ t. x ∷ t) (take-take m n xs) ∙ ap (λ k. take k (x ∷ xs)) e

pub slice-append :
    (xs : Bytes) (a b c : ℕ) → a ≤ b → b ≤ c → slice xs a b ++ slice xs b c ≡ slice xs a c
slice-append xs a b c h k =
    let e : a + (b - a) ≡ b = omega arith in
    let f : b - a + (c - b) ≡ c - a = omega arith in
    ap (λ t. slice xs a b ++ take (c - b) t) (sym (drop-drop (b - a) a xs ∙ ap (λ n. drop n xs) e))
    ∙ take-take (b - a) (c - b) (drop a xs)
    ∙ ap (λ n. take n (drop a xs)) f

pub slice-nil : (xs : Bytes) (a : ℕ) → slice xs a a ≡ []
slice-nil xs a = let e : a - a ≡ 0 = omega arith in ap (λ n. take n (drop a xs)) e

pub slice_lem :
    (input : Bytes) (start n : ℕ) → slice input start (start + n) ≡ take n (drop start input)
slice_lem input start n =
    let e : start + n - start ≡ n = omega arith in ap (λ k. take k (drop start input)) e

take_first :
    (n : ℕ) (rest : Bytes)
    → 0 < length rest
    → take (suc n) rest ≡ byte_at rest 0 ∷ take n (drop 1 rest)
take_first n [] h = absurd (omega arith)
take_first n (c ∷ cs) h = refl

-- The bytes at `n` positions from `start + index` on.
abbrev pub bytes_at : Bytes → ℕ → ℕ → ℕ → Bytes
bytes_at input start index zero = []
bytes_at input start index (suc n) =
    byte_at input (start + index) ∷ bytes_at input start (index + 1) n

bytes_at_lem :
    (input : Bytes) (start index n : ℕ)
    → start + index + n ≤ length input
    → take n (drop (start + index) input) ≡ bytes_at input start index n
bytes_at_lem input start index zero h = refl
bytes_at_lem input start index (suc n) h =
    let at = drop-At input (start + index) (omega arith) in
    let e : start + index + 1 ≡ start + (index + 1) = omega arith in
    take_first n (drop (start + index) input) (omega (arith, at.measured))
    ∙ ap (λ b. b ∷ take n (drop 1 (drop (start + index) input))) (sym (byte_first at))
    ∙ ap (λ xs. byte_at input (start + index) ∷ take n xs)
        (drop-drop 1 (start + index) input ∙ ap (λ k. drop k input) e)
    ∙ ap (λ xs. byte_at input (start + index) ∷ xs)
        (bytes_at_lem input start (index + 1) n (omega arith))

pub slice-bytes :
    (input : Bytes) (start n : ℕ)
    → start + n ≤ length input
    → slice input start (start + n) ≡ bytes_at input start 0 n
slice-bytes input start n h =
    let e : start ≡ start + 0 = omega arith in
    slice_lem input start n
    ∙ ap (λ k. take n (drop k input)) e
    ∙ bytes_at_lem input start 0 n (omega arith)
