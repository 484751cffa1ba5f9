-- ===== src/Utf8/Encoding.antt =====
-- UTF-8 as the Unicode standard defines it: the bytes of a sequence of scalar values. This is what
-- include/slabjson/detail/utf8.hpp is to recognise.
use slabjson.Prelude.{
  ℕ, ◌+◌, ◌-◌, ◌*◌, ◌/◌, ◌%◌, ◌≤◌, ◌<◌, ◌≡◌, ◌⊎◌, List, [], ◌∷◌, ◌++◌, leb, if◌then◌else◌, length,
  arith,
}
use slabjson.Utf8.{Bytes}

-- A code point that is no surrogate.
abbrev pub IsScalar : ℕ → Type 0
IsScalar c = (c < 0x110000) × ((c < 0xd800) ⊎ (0xdfff < c))

unfoldable pub encode : ℕ → Bytes
encode c =
    if leb c 0x7f
    then c ∷ []
    else if leb c 0x7ff
    then (0xc0 + c / 64) ∷ (0x80 + c % 64) ∷ []
    else if leb c 0xffff
    then (0xe0 + c / 4096) ∷ (0x80 + c / 64 % 64) ∷ (0x80 + c % 64) ∷ []
    else (0xf0 + c / 262144) ∷ (0x80 + c / 4096 % 64) ∷ (0x80 + c / 64 % 64) ∷ (0x80 + c % 64) ∷ []

unfoldable pub encode_all : List ℕ → Bytes
encode_all [] = []
encode_all (c ∷ cs) = encode c ++ encode_all cs

abbrev pub AllScalar : List ℕ → Type 0
AllScalar [] = Unit {0}
AllScalar (c ∷ cs) = IsScalar c × AllScalar cs

-- The bytes are UTF-8.
abbrev pub IsUtf8 : Bytes → Type 0
IsUtf8 value = (cs : List ℕ) × AllScalar cs × (value ≡ encode_all cs)

pub encode_pos : (c : ℕ) → 0 < length (encode c)
unfolding encode
encode_pos c = ground arith

pub encode_ascii : (c : ℕ) → c < 0x80 → encode c ≡ c ∷ []
unfolding encode
encode_ascii c l = ground arith

pub two_bytes :
    (a b : ℕ) (rest : Bytes)
    → 0xc2 ≤ a
    → a ≤ 0xdf
    → 0x80 ≤ b
    → b ≤ 0xbf
    → a ∷ b ∷ rest ≡ encode ((a - 0xc0) * 64 + (b - 0x80)) ++ rest
unfolding encode
two_bytes a b rest p q r s = ground arith

pub three_bytes :
    (a b c : ℕ) (rest : Bytes)
    → 0xe0 ≤ a
    → a ≤ 0xef
    → 0x80 ≤ b
    → b ≤ 0xbf
    → 0x80 ≤ c
    → c ≤ 0xbf
    → (0xe0 < a) ⊎ (0xa0 ≤ b)
    → a ∷ b ∷ c ∷ rest ≡ encode ((a - 0xe0) * 4096 + (b - 0x80) * 64 + (c - 0x80)) ++ rest
unfolding encode
three_bytes a b c rest p q r s t u v = ground arith

pub four_bytes :
    (a b c d : ℕ) (rest : Bytes)
    → 0xf0 ≤ a
    → a ≤ 0xf4
    → 0x80 ≤ b
    → b ≤ 0xbf
    → 0x80 ≤ c
    → c ≤ 0xbf
    → 0x80 ≤ d
    → d ≤ 0xbf
    → (0xf0 < a) ⊎ (0x90 ≤ b)
    → a ∷ b ∷ c ∷ d ∷ rest
      ≡ encode ((a - 0xf0) * 262144 + (b - 0x80) * 4096 + (c - 0x80) * 64 + (d - 0x80)) ++ rest
unfolding encode
four_bytes a b c d rest p q r s t u v w x = ground arith
