-- ===== src/Json/Spells.antt =====
-- The strings of JSON (RFC 8259, section 7), and the escapes that `write_string` of
-- src/serialize.cpp makes.
use slabjson.Prelude.{
  ℕ, ◌+◌, ◌-◌, ◌*◌, ◌/◌, ◌%◌, ◌≤◌, ◌<◌, ◌≡◌, ◌≢◌, ◌⊎◌, inl, inr, refl, subst, [], ◌∷◌, ◌++◌, arith,
  Option, some, none, ℕ_discrete, dec_lt, if◌then◌else◌, ◌==◌,
}
use slabjson.Utf8.{Bytes}
use slabjson.Utf8.Encoding.{IsScalar, encode, encode_ascii}
use slabjson.Serialize.Text.{escape_of, hex_digit}

-- The byte that a short escape stands for, by the letter behind the backslash.
abbrev pub short_escape : ℕ → Option ℕ
short_escape letter =
    if letter == b'"'
    then some 0x22
    else if letter == b'\\'
    then some 0x5c
    else if letter == b'/'
    then some 0x2f
    else if letter == b'b'
    then some 0x08
    else if letter == b'f'
    then some 0x0c
    else if letter == b'n'
    then some 0x0a
    else if letter == b'r'
    then some 0x0d
    else if letter == b't'
    then some 0x09
    else none

-- A hexadecimal digit, and its value.
abbrev pub HexDigit : ℕ → ℕ → Type 0
HexDigit c digit =
    ((digit < 10) × (c ≡ b'0' + digit))
    ⊎ ((10 ≤ digit) × (digit < 16) × ((c ≡ b'a' + (digit - 10)) ⊎ (c ≡ b'A' + (digit - 10))))

-- Four hexadecimal digits, and their value.
pub data Hex4 : Bytes → ℕ → Type 0 where
  hex4 :
      {a b c d w x y z : ℕ}
      → HexDigit a w
      → HexDigit b x
      → HexDigit c y
      → HexDigit d z
      → Hex4 (a ∷ b ∷ c ∷ d ∷ []) (((w * 16 + x) * 16 + y) * 16 + z)

-- Characters that stand for themselves.
abbrev pub AllPlain : Bytes → Type 0
AllPlain [] = Unit {0}
AllPlain (c ∷ cs) = (0x20 ≤ c) × (c ≢ b'"') × (c ≢ b'\\') × AllPlain cs

-- Plain characters or one escape, and the bytes that they stand for.
pub data SpellsPiece : Bytes → Bytes → Type 0 where
  plain : {cs : Bytes} → AllPlain cs → SpellsPiece cs cs
  short : {letter c : ℕ} → short_escape letter ≡ some c → SpellsPiece (b'\\' ∷ letter ∷ []) (c ∷ [])
  unicode :
      {digits : Bytes} {c : ℕ}
      → Hex4 digits c
      → IsScalar c
      → SpellsPiece (b'\\' ∷ b'u' ∷ digits) (encode c)
  pair :
      {first second : Bytes} {high low : ℕ}
      → Hex4 first high
      → 0xd800 ≤ high
      → high ≤ 0xdbff
      → Hex4 second low
      → 0xdc00 ≤ low
      → low ≤ 0xdfff
      → SpellsPiece
          (b'\\' ∷ b'u' ∷ first ++ b'\\' ∷ b'u' ∷ second)
          (encode (0x10000 + (high - 0xd800) * 1024 + (low - 0xdc00)))

-- The characters between the quotation marks spell the bytes.
pub data Spells : Bytes → Bytes → Type 0 where
  finished : Spells [] []
  behind :
      {cs value rest others : Bytes}
      → SpellsPiece cs value
      → Spells rest others
      → Spells (cs ++ rest) (value ++ others)

hex_digit-HexDigit : (d : ℕ) → d < 16 → HexDigit (hex_digit d) d
hex_digit-HexDigit d h = ground arith

zero-HexDigit : HexDigit b'0' 0
zero-HexDigit = inl (omega arith, refl)

-- The escape of a control character.
control-Spells :
    (c : ℕ) {rest others : Bytes}
    → c < 0x20
    → Spells rest others
    → Spells
        (b'\\' ∷ b'u' ∷ b'0' ∷ b'0' ∷ hex_digit (c / 16 % 16) ∷ hex_digit (c % 16) ∷ rest)
        (c ∷ others)
control-Spells c {rest} {others} l s =
    let digits : Hex4 (b'0' ∷ b'0' ∷ hex_digit (c / 16 % 16) ∷ hex_digit (c % 16) ∷ []) c =
      subst (Hex4 (b'0' ∷ b'0' ∷ hex_digit (c / 16 % 16) ∷ hex_digit (c % 16) ∷ [])) (omega arith) (
        hex4 zero-HexDigit zero-HexDigit (hex_digit-HexDigit (c / 16 % 16) (omega arith))
          (hex_digit-HexDigit (c % 16) (omega arith))) in
    subst
      (λ v.
        Spells (b'\\' ∷ b'u' ∷ b'0' ∷ b'0' ∷ hex_digit (c / 16 % 16) ∷ hex_digit (c % 16) ∷ rest)
          (v ++ others))
      (encode_ascii c (omega arith)) (behind (unicode digits (omega arith, inl (omega arith))) s)

-- A text with the escape that the code has for each byte that needs one.
abbrev pub escaped : Bytes → Bytes
escaped [] = []
escaped (c ∷ cs) = elim (escape_of c) [ [] ↦ c ∷ escaped cs | e ∷ es ↦ (e ∷ es) ++ escaped cs ]

-- How the code writes a byte.
abbrev Written : ℕ → Bytes → Type 0
Written c e =
    ((e ≡ []) × (0x20 ≤ c) × (c ≢ b'"') × (c ≢ b'\\'))
    ⊎ ((letter : ℕ) × (short_escape letter ≡ some c) × (e ≡ b'\\' ∷ letter ∷ []))
    ⊎ ((c < 0x20)
        × (e ≡ b'\\' ∷ b'u' ∷ b'0' ∷ b'0' ∷ hex_digit (c / 16 % 16) ∷ hex_digit (c % 16) ∷ []))

escape_of-Written : (c : ℕ) → Written c (escape_of c)
unfolding escape_of
escape_of-Written c = elim (ℕ_discrete c b'"') [
  | yes e ↦ inr (inl (b'"', ground arith, ground arith))
  | no a ↦ elim (ℕ_discrete c b'\\') [
    | yes e ↦ inr (inl (b'\\', ground arith, ground arith))
    | no b ↦ elim (ℕ_discrete c 8) [
      | yes e ↦ inr (inl (b'b', ground arith, ground arith))
      | no d ↦ elim (ℕ_discrete c 12) [
        | yes e ↦ inr (inl (b'f', ground arith, ground arith))
        | no f ↦ elim (ℕ_discrete c 10) [
          | yes e ↦ inr (inl (b'n', ground arith, ground arith))
          | no g ↦ elim (ℕ_discrete c 13) [
            | yes e ↦ inr (inl (b'r', ground arith, ground arith))
            | no h ↦ elim (ℕ_discrete c 9) [
              | yes e ↦ inr (inl (b't', ground arith, ground arith))
              | no i ↦ elim (dec_lt c 0x20) [
                | yes l ↦ inr (inr (l, ground arith))
                | no l ↦ inl (ground arith, omega arith, a, b)
              ]
            ]
          ]
        ]
      ]
    ]
  ]
]

-- The escapes that the serializer makes of any bytes are characters of a JSON string that spells
-- these bytes: none is a bare quotation mark or a control character.
pub escaped-Spells : (value : Bytes) → Spells (escaped value) value
escaped-Spells [] = finished
escaped-Spells (c ∷ cs) = elim (escape_of-Written c) [
  | inl (e, printing, quote, slash) ↦
      rw (e, escaped)
        (behind {cs = c ∷ []} (plain (printing, quote, slash, tt)) (escaped-Spells cs))
  | inr (inl (letter, known, e)) ↦ rw (e, escaped) (behind (short known) (escaped-Spells cs))
  | inr (inr (control, e)) ↦ rw (e, escaped) (control-Spells c control (escaped-Spells cs))
]
