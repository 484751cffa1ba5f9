-- ===== src/Serialize/Steps.antt =====
-- The steps of `Serializer::write` (src/serialize.cpp) at a node of a document.
use slabjson.Prelude.{
  ℕ, suc, ◌*◌, ◌<◌, ◌^◌, ◌≡◌, refl, sym, ap, subst, ◌∙◌, inl, inr, Bool, true, false, Option, some,
  [], ◌∷◌, ◌++◌, append_assoc, append-nil, arith, Bool-cases, ◌==◌, sub_size, sub_size-eq,
  if◌then◌else◌,
}
use slabjson.Utf8.{Bytes}
use slabjson.Utf8.Encoding.{IsUtf8, encode_all}
use slabjson.Slab.{
  Slab, Node, StringRef, string_flags, is_finite, signed_value, unsigned_value, double_value,
  signed_integer, unsigned_integer, floating_point, view_string,
}
use slabjson.Value.{node_number_kind, double_of}
use slabjson.Document.{KeyFits}
use slabjson.Serialize.Writers.{Writer}
use slabjson.Serialize.Text.{
  attempt, write_number, negative_zero, negative_zero_text, decimal, signed_decimal,
}
use slabjson.Serialize.Graph.{Serializer, new_line, member_prefix, write_member_prefix, last_line}
use slabjson.Serialize.Emits.{Lawful, Emits, text-Emits, char-Emits, pure-Emits, >>-EmitsAs, done}
use slabjson.Serialize.Digits.{decimal-numeral, signed_decimal-numeral}
use slabjson.Serialize.Texts.{write_string-Emits, write_indent-Emits}
use slabjson.Json.{
  repeated, Layout, compact, indented, line_break, Label, label_text, double_text, colon, quoted,
  numeral, signed_numeral,
}
use slabjson.Json.Denotes.{Labels}

abbrev pub layout_of : Serializer → Layout
layout_of z = if z.pretty then indented z.indent_spaces else compact

-- What the slab relies on of `std::to_chars`: each finite double has a text.
abbrev pub Formats : (ℕ → Option Bytes) → Type 0
Formats to_chars = (d : ℕ) → is_finite d ≡ true → (t : Bytes) × (to_chars d ≡ some t)

-- A key is UTF-8 with its flags, also if there is none.
pub KeyFits-text :
    (s : Slab) (r : StringRef) (flags : ℕ)
    → KeyFits s r flags
    → IsUtf8 (view_string s r) × (flags ≡ string_flags (view_string s r))
unfolding view_string string_flags encode_all
KeyFits-text s r flags (inl (e, k)) = ground (arith, nothing_there)
  where
    nothing_there : IsUtf8 []
    nothing_there = ([], tt, refl)
KeyFits-text s r flags (inr t) = (t.utf8, t.flagged)

module _ {W : Type 0} {writer : Writer W} (law : Lawful writer) (to_chars : ℕ → Option Bytes) where
  pub signed-Emits :
      (n : Node) (i : _)
      → n.aux ≡ signed_integer
      → n.payload ≡ signed_value i
      → Emits law (write_number writer to_chars n) (signed_numeral i)
  unfolding write_number node_number_kind
  signed-Emits n i k p =
      rw (k, p)
        (subst (Emits law (attempt (writer.append (signed_decimal i)))) (signed_decimal-numeral i)
          (text-Emits law (signed_decimal i)))

  pub unsigned-Emits :
      (n : Node) (u : ℕ)
      → n.aux ≡ unsigned_integer
      → n.payload ≡ unsigned_value u
      → Emits law (write_number writer to_chars n) (numeral u)
  unfolding write_number node_number_kind
  unsigned-Emits n u k p =
      rw (k, p)
        (subst (Emits law (attempt (writer.append (decimal u)))) (decimal-numeral u)
          (text-Emits law (decimal u)))

  double-Emits :
      Formats to_chars
      → (n : Node) → n.aux ≡ floating_point
      → is_finite (double_of n.payload) ≡ true
      → Emits law (write_number writer to_chars n) (double_text to_chars (double_of n.payload))
  unfolding write_number node_number_kind
  double-Emits formats n k f = elim (Bool-cases (double_of n.payload == negative_zero)) [
    | inl sign ↦ rw (k, f, sign, write_number, double_text) (text-Emits law negative_zero_text)
    | inr other ↦
        let (t, e) = formats (double_of n.payload) f in
        rw (k, f, other, e, write_number, double_text) (text-Emits law t)
  ]

  pub floating-Emits :
      Formats to_chars
      → (n : Node) (d : ℕ) → n.aux ≡ floating_point
      → n.payload ≡ double_value d
      → is_finite d ≡ true
      → Emits law (write_number writer to_chars n) (double_text to_chars d)
  floating-Emits formats n d k p f =
      let e : double_of n.payload ≡ d = ap double_of p in
      subst (λ x. Emits law (write_number writer to_chars n) (double_text to_chars x)) e
        (double-Emits formats n k (ap is_finite e ∙ f))

  module _ (utf8 graph : Bool) (s : Slab) (z : Serializer) where
    pub new_line-Emits :
        (depth : ℕ)
        → Emits law (new_line writer to_chars utf8 graph s z depth) (line_break (layout_of z) depth)
    unfolding new_line
    new_line-Emits depth = elim (Bool-cases z.pretty) [
      | inl pretty ↦
          rw (pretty, new_line)
            (>>-EmitsAs law (done law) _ _ (10 ∷ []) (repeated b' ' (depth * z.indent_spaces))
              (char-Emits law 10) (write_indent-Emits law z.indent_spaces depth))
      | inr plain ↦ rw (plain, new_line) (pure-Emits law)
    ]

    write_member_prefix-Emits :
        (n : Node)
        → KeyFits s n.key n.key_flags
        → Emits law
            (write_member_prefix writer to_chars utf8 graph s z n)
            (quoted (view_string s n.key) ++ colon (layout_of z))
    unfolding write_member_prefix
    write_member_prefix-Emits n fits =
        let (valid, flagged) = KeyFits-text s n.key n.key_flags fits in
        let key = quoted (view_string s n.key) in
        let with_colon =
          >>-EmitsAs law (done law) _ _ key (b':' ∷ [])
            (write_string-Emits law n.key_flags utf8 (view_string s n.key) valid flagged)
            (char-Emits law b':') in
        elim (Bool-cases z.pretty) [
          | inl pretty ↦
              rw (pretty, write_member_prefix)
                (subst (Emits law _) (append_assoc key (b':' ∷ []) (b' ' ∷ [])) (
                  >>-EmitsAs law (done law) _ _ (key ++ (b':' ∷ [])) (b' ' ∷ []) with_colon
                    (char-Emits law b' ')))
          | inr plain ↦
              rw (plain, write_member_prefix)
                (subst (Emits law _) (append-nil (key ++ (b':' ∷ []))) (
                  >>-EmitsAs law (done law) _ _ (key ++ (b':' ∷ [])) [] with_colon
                    (pure-Emits law)))
        ]

    pub member_prefix-Emits :
        (b : Bool) (l : Label b) (n : Node)
        → Labels b l s n
        → KeyFits s n.key n.key_flags
        → Emits law
            (member_prefix writer to_chars utf8 graph s z b n)
            (label_text (layout_of z) b l)
    unfolding member_prefix
    member_prefix-Emits true l n e fits =
        subst
          (λ k.
            Emits law (write_member_prefix writer to_chars utf8 graph s z n)
              (quoted k ++ colon (layout_of z)))
          e (write_member_prefix-Emits n fits)
    member_prefix-Emits false l n e fits = pure-Emits law

    last_line-pretty :
        (depth : ℕ)
        → suc depth < 2 ^ 64
        → z.pretty ≡ true
        → last_line writer to_chars utf8 graph s z (suc depth)
          ≡ new_line writer to_chars utf8 graph s z depth
    unfolding last_line
    last_line-pretty depth small pretty =
        let e : sub_size (suc depth) 1 ≡ depth =
          omega (arith, sub_size-eq (suc depth) 1 (omega arith) small) in
        ground (arith, ap (new_line writer to_chars utf8 graph s z) e)

    pub last_line-Emits :
        (depth : ℕ)
        → suc depth < 2 ^ 64
        → Emits law
            (last_line writer to_chars utf8 graph s z (suc depth))
            (line_break (layout_of z) depth)
    last_line-Emits depth small = elim (Bool-cases z.pretty) [
      | inl pretty ↦
          subst (λ m. Emits law m (line_break (layout_of z) depth))
            (sym (last_line-pretty depth small pretty)) (new_line-Emits depth)
      | inr plain ↦ unfold last_line in rw (plain, last_line) (pure-Emits law)
    ]
