-- ===== src/Serialize/Emits.antt =====
-- What src/serialize.cpp may rely on of a writer, and what an operation appends through it.
use slabjson.Prelude.{
  ℕ, zero, suc, dec_lt, ◌+◌, ◌≤◌, ◌<◌, ◌≡◌, refl, sym, ap, subst, ◌∙◌, ◌⊎◌, inl, inr, Bool, true,
  false, [], ◌∷◌, ◌++◌, append_assoc, append-nil, length, length-append, arith,
}
use slabjson.Error.{error_at, output_capacity_exceeded}
use slabjson.Result.{Outcome, Op, ok, err, pure, and_then, ◌>>◌}
use slabjson.Utf8.{Bytes}
use slabjson.Serialize.Writers.{Writer, size_max}
use slabjson.Serialize.Text.{attempt}
use slabjson.Json.{repeated}

-- An append of `ys`: what fits below the limit is written behind the rest, in order. A writer that
-- checks refuses anything else and stays as it is.
abbrev pub Appends :
    {W : Type 0} → (W → Bytes → Type 0) → Type 0 → ℕ → (W → Bool × W) → Bytes → Type 0
Appends {W} Written Checks limit put ys =
    (w : W) (xs : Bytes)
    → Written w xs
    → (length xs + length ys ≤ limit → (w' : W) × (put w ≡ (true, w')) × Written w' (xs ++ ys))
      × (limit < length xs + length ys → Checks → put w ≡ (false, w))

-- The contract of a writer. `Written w xs` says that `w` has taken the bytes `xs`.
pub record Lawful {W : Type 0} (writer : Writer W) : Type 1 where
  pub Written : W → Bytes → Type 0
  pub Checks : Type 0
  pub limit : ℕ
  pub limit_le : limit ≤ size_max
  pub char_lem : (c : ℕ) → Appends Written Checks limit (writer.append_char c) (c ∷ [])
  pub text_lem : (ys : Bytes) → Appends Written Checks limit (writer.append ys) ys
  pub repeated_lem :
      (c n : ℕ)
      → n ≤ size_max
      → Appends Written Checks limit (writer.append_repeated c n) (repeated c n)
  pub within : (w : W) (xs : Bytes) → Written w xs → length xs ≤ limit
  pub size_lem : (w : W) (xs : Bytes) → Written w xs → writer.size w ≡ length xs

pub length-repeated : (c n : ℕ) → length (repeated c n) ≡ n
length-repeated c zero = refl
length-repeated c (suc n) = ap suc (length-repeated c n)

module _ {W : Type 0} {writer : Writer W} (law : Lawful writer) where
  open law use {Written, Checks, limit}

  -- The run stops for want of room, behind a first part of the text.
  abbrev pub Stops : {A : Type 0} → Outcome W A → Bytes → Type 0
  Stops r text =
      (w : W) × (zs : Bytes) × (rest : Bytes) × (r ≡ (err (error_at output_capacity_exceeded 0), w))
      × Written w zs
      × (zs ++ rest ≡ text)

  -- The run ends with the text written if there is room, and results in what `v` says of the text.
  abbrev pub Ends : {A : Type 0} → (Bytes → A) → Bytes → Outcome W A → Type 0
  Ends v text r =
      ((length text ≤ limit) × (w : W) × (r ≡ (ok (v text), w)) × Written w text)
      ⊎ ((limit < length text) × (Checks → Stops r text))

  -- From any text on, the run appends `ys`.
  abbrev pub EmitsAs : {A : Type 0} → (Bytes → A) → Op W A → Bytes → Type 0
  EmitsAs v m ys = (w : W) (xs : Bytes) → Written w xs → Ends v (xs ++ ys) (m w)

  abbrev pub done : Bytes → Unit {0}
  done _ = tt

  abbrev pub Emits : Op W (Unit {0}) → Bytes → Type 0
  Emits = EmitsAs done

  Stops->> :
      {A : Type 0} (m : Op W (Unit {0})) (n : Op W A) (w : W) (xs ys zs : Bytes)
      → Stops (m w) (xs ++ ys)
      → Stops ((m >> n) w) (xs ++ (ys ++ zs))
  Stops->> m n w xs ys zs (w', us, rest, e, k, q) = (
    w',
    us,
    rest ++ zs,
    rw (e, ◌>>◌),
    k,
    sym (append_assoc us rest zs) ∙ ap (λ ts. ts ++ zs) q ∙ append_assoc xs ys zs,
  )

  attempt-Emits :
      (put : W → Bool × W) (ys : Bytes)
      → Appends Written Checks limit put ys
      → Emits (attempt put) ys
  attempt-Emits put ys p w xs k = elim (dec_lt limit (length (xs ++ ys))) [
    | yes over ↦
        inr (
          over,
          λ c. (w, xs, ys, rw ((p w xs k).1 (omega (arith, length-append xs ys)) c), k, refl),
        )
    | no room ↦
        let (w', e, k') = (p w xs k).0 (omega (arith, length-append xs ys)) in
        inl (omega arith, w', rw e, k')
  ]

  pub char-Emits : (c : ℕ) → Emits (attempt (writer.append_char c)) (c ∷ [])
  char-Emits c = attempt-Emits (writer.append_char c) (c ∷ []) (law.char_lem c)

  pub text-Emits : (ys : Bytes) → Emits (attempt (writer.append ys)) ys
  text-Emits ys = attempt-Emits (writer.append ys) ys (law.text_lem ys)

  pub repeated-Emits :
      (c n : ℕ) → n ≤ size_max → Emits (attempt (writer.append_repeated c n)) (repeated c n)
  repeated-Emits c n h =
      attempt-Emits (writer.append_repeated c n) (repeated c n) (law.repeated_lem c n h)

  pub >>-EmitsAs :
      {A : Type 0} (v : Bytes → A) (m : Op W (Unit {0})) (n : Op W A) (ys zs : Bytes)
      → Emits m ys
      → EmitsAs v n zs
      → EmitsAs v (m >> n) (ys ++ zs)
  >>-EmitsAs v m n ys zs hm hn w xs k = elim (hm w xs k) [
    | inr (over, stop) ↦ inr (
      omega (arith, length-append (xs ++ ys) zs, ap length (append_assoc xs ys zs)),
      λ c. Stops->> m n w xs ys zs (stop c),
    )
    | inl (room, w', e, k') ↦
        subst (λ t. Ends v t ((m >> n) w)) (append_assoc xs ys zs)
          (subst (λ r. Ends v ((xs ++ ys) ++ zs) (and_then r (λ _. n))) (sym e)
            (hn w' (xs ++ ys) k'))
  ]

  pub pure-Emits : Emits (pure tt) []
  pure-Emits w xs k =
      subst (λ t. Ends done t (pure tt w)) (sym (append-nil xs))
        (inl (law.within w xs k, w, refl, k))
