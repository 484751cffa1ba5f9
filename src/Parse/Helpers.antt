-- ===== src/Parse/Helpers.antt =====
-- The bytes that the helpers of src/parse.cpp read and write: hexadecimal digits, encoded code points
-- and parts of the input.
use slabjson.Prelude.{
  ℕ, ◌+◌, ◌*◌, ◌≤◌, ◌<◌, ◌≡◌, refl, sym, ap, subst, ◌∙◌, ◌⊎◌, inl, inr, true, false, none, some, [],
  ◌∷◌, ◌++◌, append-nil, append_assoc, List, ltb, ◌==◌, ◌||◌, if◌then◌else◌, length, arith,
  Option-cases,
}
use slabjson.Result.{ok}
use slabjson.Utf8.{Bytes, byte_at}
use slabjson.Utf8.Encoding.{IsScalar, AllScalar, IsUtf8, encode, encode_all}
use slabjson.Json.Spells.{HexDigit, Hex4, hex4}
use slabjson.Slab.{string_flags}
use slabjson.Parse.Slices.{slice-bytes, bytes_at}
use slabjson.Parse.Strings.{
  hex_value, slice, utf8_length, encode_utf8, is_high_surrogate, is_low_surrogate, surrogate_pair,
  hex4_loop, parse_hex4, hex4_unchecked_loop, parse_hex4_unchecked, unchecked_utf8_length,
}

hex_value_cases : (c : ℕ) → (hex_value c ≡ none) ⊎ ((d : ℕ) × (hex_value c ≡ some d) × HexDigit c d)
unfolding hex_value
hex_value_cases c = elim (Option-cases (hex_value c)) [
  | inl e ↦ inl e
  | inr (d, e) ↦ inr (d, e, ground arith)
]

-- The checked loop accepts four hexadecimal digits, which the other loop reads alike.
pub parse_hex4-agree :
    (input : Bytes) (offset : ℕ) {v : ℕ}
    → parse_hex4 input offset ≡ ok v
    → (parse_hex4_unchecked input offset ≡ v)
      × (v < 65536)
      × (offset + 4 ≤ length input)
      × Hex4 (slice input offset (offset + 4)) v
unfolding parse_hex4 parse_hex4_unchecked hex4_loop hex4_unchecked_loop
parse_hex4-agree input offset {v} h = elim (hex_value_cases (byte_at input (offset + 0))) [
  | inl e ↦ absurd (ground arith)
  | inr (a, ea, la) ↦ elim (hex_value_cases (byte_at input (offset + (0 + 1)))) [
    | inl e ↦ absurd (ground arith)
    | inr (b, eb, lb) ↦ elim (hex_value_cases (byte_at input (offset + (0 + 1 + 1)))) [
      | inl e ↦ absurd (ground arith)
      | inr (c, ec, lc) ↦ elim (hex_value_cases (byte_at input (offset + (0 + 1 + 1 + 1)))) [
        | inl e ↦ absurd (ground arith)
        | inr (d, ed, ld) ↦
            let value : v ≡ ((a * 16 + b) * 16 + c) * 16 + d = ground arith in
            let room : offset + 4 ≤ length input = ground arith in
            (
              ground arith,
              ground arith,
              room,
              subst (λ xs. Hex4 xs v) (sym (slice-bytes input offset 4 room))
                  (subst (Hex4 (bytes_at input offset 0 4)) (sym value) (hex4 la lb lc ld)),
            )
      ]
    ]
  ]
]

pub encode_utf8-eq : (c : ℕ) → encode_utf8 c ≡ encode c
unfolding encode_utf8 encode
encode_utf8-eq c = ground arith

pub utf8_length-eq : (c : ℕ) → utf8_length c ≡ length (encode c)
unfolding utf8_length encode
utf8_length-eq c = ground arith

pub encode-IsUtf8 : (c : ℕ) → IsScalar c → IsUtf8 (encode c)
unfolding encode_all
encode-IsUtf8 c s = (c ∷ [], (s, tt), sym (append-nil (encode c)))

AllScalar-append : (cs ds : List ℕ) → AllScalar cs → AllScalar ds → AllScalar (cs ++ ds)
AllScalar-append [] ds h k = k
AllScalar-append (c ∷ cs) ds (s, h) k = (s, AllScalar-append cs ds h k)

encode_all-append : (cs ds : List ℕ) → encode_all (cs ++ ds) ≡ encode_all cs ++ encode_all ds
unfolding encode_all
encode_all-append [] ds = refl
encode_all-append (c ∷ cs) ds =
    ap (λ t. encode c ++ t) (encode_all-append cs ds)
    ∙ sym (append_assoc (encode c) (encode_all cs) (encode_all ds))

pub append-IsUtf8 : (xs ys : Bytes) → IsUtf8 xs → IsUtf8 ys → IsUtf8 (xs ++ ys)
append-IsUtf8 xs ys (cs, h, e) (ds, k, q) =
    (cs ++ ds, AllScalar-append cs ds h k, cc (encode_all-append cs ds))

-- Only these code points need an escape, and all their bytes or none tell.
pub string_flags-encode :
    (c : ℕ) → string_flags (encode c) ≡ (if c == b'"' || (c == b'\\' || ltb c 0x20) then 1 else 0)
unfolding encode string_flags
string_flags-encode c = ground arith

pub string_flags-append :
    (xs ys : Bytes)
    → string_flags (xs ++ ys) ≡ (if string_flags xs == 0 then string_flags ys else 1)
unfolding string_flags
string_flags-append [] ys = refl
string_flags-append (x ∷ xs) ys = ground (arith, string_flags-append xs ys)

pub surrogate_pair-IsScalar :
    (high low : ℕ)
    → is_high_surrogate high ≡ true
    → is_low_surrogate low ≡ true
    → IsScalar (surrogate_pair high low)
surrogate_pair-IsScalar high low h l = ground arith

pub plain-IsScalar :
    (c : ℕ) → c < 65536 → is_high_surrogate c ≡ false → is_low_surrogate c ≡ false → IsScalar c
plain-IsScalar c l h k = ground arith

pub unchecked_utf8_length-encode :
    (c : ℕ) (tail : Bytes)
    → IsScalar c
    → unchecked_utf8_length (byte_at (encode c ++ tail) 0) ≡ length (encode c)
unfolding unchecked_utf8_length encode
unchecked_utf8_length-encode c tail s = ground arith
