-- ===== src/Json.antt =====
-- The values that a document stands for, and their texts: the description that src/serialize.cpp
-- and src/parse.cpp are held against.
pub mod Denotes
pub mod Total
pub mod Spells
use slabjson.Prelude.{
  ℕ, zero, suc, ◌+◌, ◌-◌, ◌*◌, ◌/◌, ◌%◌, ◌^◌, Bool, true, false, Option, none, some, [], ◌∷◌, ◌++◌,
  ltb, ◌==◌, if◌then◌else◌, ℤ, pos, negsuc,
}
use slabjson.Utf8.{Bytes}
use slabjson.Document.Scalar.{Scalar, text, boolean, signed, unsigned, floating, nothing}

-- The members of an object have keys, the items of an array have none.
abbrev pub Label : Bool → Type 0
Label true = Bytes
Label false = Unit {0}

mutual
  pub data Json : Type 0 where
    leaf : Scalar → Json
    container : (is_object : Bool) → Entries is_object → Json

  pub data Entries : Bool → Type 0 where
    no_entries : {is_object : Bool} → Entries is_object
    entry : {is_object : Bool} → Label is_object → Json → Entries is_object → Entries is_object

-- The letter of the short escape for a byte.
abbrev pub escape_letter : ℕ → Option ℕ
escape_letter c =
    if c == 0x08
    then some b'b'
    else if c == 0x09
    then some b't'
    else if c == 0x0a
    then some b'n'
    else if c == 0x0c
    then some b'f'
    else if c == 0x0d
    then some b'r'
    else if c == 0x22
    then some b'"'
    else if c == 0x5c
    then some b'\\'
    else none

abbrev pub hex_letter : ℕ → ℕ
hex_letter digit = if ltb digit 10 then b'0' + digit else b'a' + (digit - 10)

-- A byte inside quotation marks: its short escape, or that of a control character, or the byte.
abbrev pub spelled : ℕ → Bytes
spelled c = elim (escape_letter c) [
  | some letter ↦ b'\\' ∷ letter ∷ []
  | none ↦
      if ltb c 0x20
      then b'\\' ∷ b'u' ∷ b'0' ∷ b'0' ∷ hex_letter (c / 16) ∷ hex_letter (c % 16) ∷ []
      else c ∷ []
]

abbrev pub spelling : Bytes → Bytes
spelling [] = []
spelling (c ∷ cs) = spelled c ++ spelling cs

abbrev pub quoted : Bytes → Bytes
quoted value = (b'"' ∷ []) ++ (spelling value ++ (b'"' ∷ []))

abbrev pub repeated : ℕ → ℕ → Bytes
repeated c zero = []
repeated c (suc n) = c ∷ repeated c n

-- The decimal digits of a number, at most as many as `places`.
abbrev pub numeral_to : ℕ → ℕ → Bytes
numeral_to zero n = []
numeral_to (suc places) n =
    if ltb n 10 then (b'0' + n) ∷ [] else numeral_to places (n / 10) ++ ((b'0' + n % 10) ∷ [])

-- A number of 64 bits has 20 digits at most.
abbrev pub numeral : ℕ → Bytes
numeral n = numeral_to 20 n

abbrev pub signed_numeral : ℤ → Bytes
signed_numeral (pos n) = numeral n
signed_numeral (negsuc n) = b'-' ∷ numeral (n + 1)

-- How a text is laid out: on one line, or with line breaks and that many spaces for each level.
pub data Layout : Type 0 where
  compact : Layout
  indented : ℕ → Layout

abbrev pub line_break : Layout → ℕ → Bytes
line_break compact depth = []
line_break (indented spaces) depth = (10 ∷ []) ++ repeated b' ' (depth * spaces)

abbrev pub colon : Layout → Bytes
colon compact = b':' ∷ []
colon (indented spaces) = b':' ∷ b' ' ∷ []

-- The text of a double, where there is one. The pattern with only the sign set is negative zero.
abbrev pub double_text : (ℕ → Option Bytes) → ℕ → Bytes
double_text to_chars d = elim (d == 2 ^ 63) [
  | true ↦ b'-' ∷ b'0' ∷ b'.' ∷ b'0' ∷ []
  | false ↦ elim (to_chars d) [ none ↦ [] | some t ↦ t ]
]

abbrev pub scalar_text : (ℕ → Option Bytes) → Scalar → Bytes
scalar_text to_chars nothing = b'n' ∷ b'u' ∷ b'l' ∷ b'l' ∷ []
scalar_text to_chars (boolean true) = b't' ∷ b'r' ∷ b'u' ∷ b'e' ∷ []
scalar_text to_chars (boolean false) = b'f' ∷ b'a' ∷ b'l' ∷ b's' ∷ b'e' ∷ []
scalar_text to_chars (signed i) = signed_numeral i
scalar_text to_chars (unsigned u) = numeral u
scalar_text to_chars (floating d) = double_text to_chars d
scalar_text to_chars (text t) = quoted t

abbrev pub open_bracket : Bool → ℕ
open_bracket is_object = if is_object then b'{' else b'['

abbrev pub close_bracket : Bool → ℕ
close_bracket is_object = if is_object then b'}' else b']'

abbrev pub label_text : Layout → (is_object : Bool) → Label is_object → Bytes
label_text layout true key = quoted key ++ colon layout
label_text layout false _ = []

module _ (to_chars : ℕ → Option Bytes) (layout : Layout) where
  -- The text of a value at a depth, and what follows the entries that are done.
  unfoldable mutual
    pub print : ℕ → Json → Bytes
    print depth (leaf v) = scalar_text to_chars v
    print depth (container b no_entries) = (open_bracket b ∷ []) ++ (close_bracket b ∷ [])
    print depth (container b (entry l j es)) =
        (open_bracket b ∷ [])
        ++ (line_break layout (suc depth)
            ++ (label_text layout b l ++ (print (suc depth) j ++ print_entries b depth es)))

    pub print_entries : (is_object : Bool) → ℕ → Entries is_object → Bytes
    print_entries b depth no_entries = line_break layout depth ++ (close_bracket b ∷ [])
    print_entries b depth (entry l j es) =
        (b',' ∷ [])
        ++ (line_break layout (suc depth)
            ++ (label_text layout b l ++ (print (suc depth) j ++ print_entries b depth es)))
