-- ===== src/Serialize/Run.antt =====
-- The loops of `Serializer::write` (src/serialize.cpp) append the text of the value that a node
-- denotes.
use slabjson.Prelude.{
  ℕ, suc, ◌<◌, ◌^◌, ◌≡◌, ◌≢◌, sym, ap, subst, ◌∙◌, inr, Bool, true, Option, [], ◌∷◌, ◌++◌,
  append_assoc, List, ◌∈◌, length, arith, sub_size-eq,
}
use slabjson.Prelude.Walk.{Walk-length, Walk-Distinct, visit as step}
use slabjson.Result.{Op, ◌>>◌}
use slabjson.Utf8.{Bytes}
use slabjson.Slab.{
  Slab, Node, StringRef, ValueType, string_value, double_value, floating_point, is_finite,
  view_string,
}
use slabjson.Document.{NodeFits, PayloadFits, NumberFits, Text}
use slabjson.Document.Scalar.{Scalar, text, boolean, signed, unsigned, floating, nothing}
use slabjson.Document.Reads.{Holds}
use slabjson.Forest.{Kids, Ancestry, parent_of, next_of}
use slabjson.Forest.Basic.{id_ne_invalid}
use slabjson.Serialize.Writers.{Writer}
use slabjson.Serialize.Text.{attempt}
use slabjson.Serialize.Graph.{
  Serializer, new_line, member_prefix, last_line, visit, climb, opening, closing, null_text,
  bool_text,
}
use slabjson.Serialize.Emits.{Lawful, Emits, EmitsAs, text-Emits, char-Emits, >>-EmitsAs, done}
use slabjson.Serialize.Texts.{write_string-Emits}
use slabjson.Serialize.Steps.{
  layout_of, Formats, signed-Emits, unsigned-Emits, floating-Emits, new_line-Emits,
  member_prefix-Emits, last_line-Emits,
}
use slabjson.Serialize.Moves.{
  AtWork, visit-null, visit-bool, visit-number, visit-string, visit-empty, visit-full, climb-last,
  climb-next,
}
use slabjson.Json.{
  quoted, Json, Entries, Label, leaf, container, no_entries, entry, print, print_entries,
  scalar_text, label_text, line_break,
}
use slabjson.Json.Denotes.{container_type, Denotes, DenotesEntries, Labels}

-- The rounds up to the one that is left with `fuel`.
unfoldable mutual
  pub after : Json → ℕ → ℕ
  after (leaf v) fuel = suc fuel
  after (container b no_entries) fuel = suc fuel
  after (container b (entry l j es)) fuel = suc (after j (after_entries b es fuel))

  pub after_entries : (is_object : Bool) → Entries is_object → ℕ → ℕ
  after_entries b no_entries fuel = suc fuel
  after_entries b (entry l j es) fuel = suc (after j (after_entries b es fuel))

-- At the node `id`, whose ancestors from itself up are `above`, with the root of the value among
-- them.
pub record Inside (s : Slab) (z : Serializer) (id depth : ℕ) (above : List ℕ) : Type 0 where
  pub id_lt : id < s.node_count
  pub ancestry : Ancestry s id above
  pub root_above : z.root_id ∈ above
  pub depth_lt : depth < length above

double-finite :
    (s : Slab) (n : Node) (d : ℕ)
    → NodeFits s n
    → n.type ≡ ValueType.number
    → n.aux ≡ floating_point
    → n.payload ≡ double_value d
    → is_finite d ≡ true
double-finite s n d fits e k p =
    let (d', q, f) =
      subst (λ a. NumberFits a n.payload) k
        (subst (λ t. PayloadFits s t n.aux n.payload n.value_flags) e fits.payload) in
    ap is_finite (cc) ∙ f

string-Text :
    (s : Slab) (n : Node) (r : StringRef)
    → NodeFits s n
    → n.type ≡ ValueType.string
    → n.payload ≡ string_value r
    → Text s r n.value_flags
string-Text s n r fits e p =
    let (r', q, t) = subst (λ t. PayloadFits s t n.aux n.payload n.value_flags) e fits.payload in
    subst (λ r. Text s r n.value_flags) (cc) t

module _ {W : Type 0} {writer : Writer W} (law : Lawful writer) {to_chars : ℕ → Option Bytes}
    (formats : Formats to_chars) (utf8 graph : Bool) {s : Slab} {kids : Kids} {z : Serializer}
    (work : AtWork s kids z) (v : Bytes → ℕ) where
  abbrev going : ℕ → ℕ → ℕ → Op W ℕ
  going = visit writer to_chars utf8 graph s z

  abbrev backing : ℕ → ℕ → ℕ → Op W ℕ
  backing = climb writer to_chars utf8 graph s z

  before_rest :
      (m : Op W _) {n n' : Op W ℕ} (xs rest : Bytes)
      → n' ≡ (m >> n)
      → Emits law m xs
      → EmitsAs law v n rest
      → EmitsAs law v n' (xs ++ rest)
  before_rest m {n} xs rest e hm hn =
      subst (λ k. EmitsAs law v k (xs ++ rest)) (sym e) (>>-EmitsAs law v m n xs rest hm hn)

  leaf-Emits :
      (x : Scalar) (id depth fuel : ℕ) (rest : Bytes)
      → id < s.node_count
      → Holds x s (s.nodes id)
      → EmitsAs law v (backing fuel id depth) rest
      → EmitsAs law v (going (suc fuel) id depth) (scalar_text to_chars x ++ rest)
  leaf-Emits nothing id depth fuel rest h e k =
      before_rest (attempt (writer.append null_text)) null_text rest
        (visit-null work graph writer to_chars utf8 fuel id depth h e) (text-Emits law null_text) k
  leaf-Emits (boolean b) id depth fuel rest h (e, p) k =
      before_rest _ (bool_text b) rest
        (visit-bool work graph writer to_chars utf8 fuel id depth h b e p)
        (text-Emits law (bool_text b)) k
  leaf-Emits (signed i) id depth fuel rest h (e, a, p) k =
      before_rest _ (scalar_text to_chars (signed i)) rest
        (visit-number work graph writer to_chars utf8 fuel id depth h e)
        (signed-Emits law to_chars (s.nodes id) i a p) k
  leaf-Emits (unsigned u) id depth fuel rest h (e, a, p) k =
      before_rest _ (scalar_text to_chars (unsigned u)) rest
        (visit-number work graph writer to_chars utf8 fuel id depth h e)
        (unsigned-Emits law to_chars (s.nodes id) u a p) k
  leaf-Emits (floating d) id depth fuel rest h (e, a, p) k =
      before_rest _ (scalar_text to_chars (floating d)) rest
        (visit-number work graph writer to_chars utf8 fuel id depth h e)
        (floating-Emits law to_chars formats (s.nodes id) d a p
          (double-finite s (s.nodes id) d (work.document.nodes id h) e a p))
        k
  leaf-Emits (text t) id depth fuel rest h (e, r, p, q) k =
      let stored = string-Text s (s.nodes id) r (work.document.nodes id h) e p in
      subst (λ t. EmitsAs law v (going (suc fuel) id depth) (scalar_text to_chars (text t) ++ rest))
        q
        (before_rest _ (quoted (view_string s r)) rest
          (visit-string work graph writer to_chars utf8 fuel id depth h r e p)
          (write_string-Emits law (s.nodes id).value_flags utf8 (view_string s r) stored.utf8
            stored.flagged)
          k)

  -- The texts in the order of the appends, and as the value's text.
  regroup :
      (front label first others rest : Bytes) (c : ℕ)
      → ((c ∷ []) ++ ((front ++ label) ++ (first ++ (others ++ rest))))
        ≡ ((c ∷ []) ++ (front ++ (label ++ (first ++ others)))) ++ rest
  regroup front label first others rest c = simp append_assoc

  regroup_next :
      (front label first others rest : Bytes) (c : ℕ)
      → ((((c ∷ []) ++ front) ++ label) ++ (first ++ (others ++ rest)))
        ≡ ((c ∷ []) ++ (front ++ (label ++ (first ++ others)))) ++ rest
  regroup_next front label first others rest c = simp append_assoc

  Inside-small : {id depth : ℕ} {above : List ℕ} → Inside s z id depth above → suc depth < 2 ^ 64
  Inside-small i =
      omega (
        arith,
        Walk-length i.ancestry,
        work.document.fits.small,
        work.document.fits.room,
        i.depth_lt,
      )

  module _ {p depth : ℕ} {above : List ℕ} (i : Inside s z p depth above) (c : ℕ)
      (h : c < s.node_count) (child : parent_of s c ≡ p) where
    child-Ancestry : Ancestry s c (c ∷ above)
    child-Ancestry =
        step (id_ne_invalid c work.document.fits h) h
          (subst (λ q. Ancestry s q above) (sym child) i.ancestry)

    child-Inside : Inside s z c (suc depth) (c ∷ above)
    child-Inside = record {
      id_lt = h;
      ancestry = child-Ancestry;
      root_above = inr i.root_above;
      depth_lt = omega (arith, i.depth_lt);
    }

    child-ne-root : c ≢ z.root_id
    child-ne-root e = (Walk-Distinct child-Ancestry).0 (subst (λ r. r ∈ above) (sym e) i.root_above)

  new_prefix-Emits :
      (depth : ℕ) (b : Bool) (l : Label b) (c : ℕ)
      → c < s.node_count
      → Labels b l s (s.nodes c)
      → Emits law
          (new_line writer to_chars utf8 graph s z depth
            >> member_prefix writer to_chars utf8 graph s z b (s.nodes c))
          (line_break (layout_of z) depth ++ label_text (layout_of z) b l)
  new_prefix-Emits depth b l c h labelled =
      >>-EmitsAs law (done law) _ _ (line_break (layout_of z) depth) (label_text (layout_of z) b l)
        (new_line-Emits law to_chars utf8 graph s z depth)
        (member_prefix-Emits law to_chars utf8 graph s z b l (s.nodes c) labelled
          (work.document.nodes c h).key)

  mutual
    unfolding print print_entries Denotes DenotesEntries after after_entries

    pub visit-EmitsAs :
        (j : Json) {id depth : ℕ} (fuel : ℕ) {above : List ℕ} (rest : Bytes)
        → Inside s z id depth above
        → Denotes s id j
        → EmitsAs law v (backing fuel id depth) rest
        → EmitsAs law v
            (going (after j fuel) id depth)
            (print to_chars (layout_of z) depth j ++ rest)
    visit-EmitsAs (leaf x) {id} {depth} fuel rest i d k =
        leaf-Emits x id depth fuel rest i.id_lt d k
    visit-EmitsAs (container b no_entries) {id} {depth} fuel rest i (typed, none_left) k =
        before_rest _ (opening b ∷ []) ((closing b ∷ []) ++ rest)
          (visit-empty work graph writer to_chars utf8 fuel id depth i.id_lt b typed none_left)
          (char-Emits law (opening b))
          (>>-EmitsAs law v _ _ (closing b ∷ []) rest (char-Emits law (closing b)) k)
    visit-EmitsAs (container b (entry l j es)) {id} {depth} fuel {above} rest i
          (typed, (h, child, labelled, d, ds)) k =
        let c = (s.nodes id).first_child in
        let others = print_entries to_chars (layout_of z) b depth es in
        let first = print to_chars (layout_of z) (suc depth) j in
        let inner =
          visit-EmitsAs j (after_entries b es fuel) (others ++ rest) (child-Inside i c h child) d
            (climb-EmitsAs b es fuel rest i typed h child ds k) in
        let Text = EmitsAs law v (going (after (container b (entry l j es)) fuel) id depth) in
        subst Text
          (regroup (line_break (layout_of z) (suc depth)) (label_text (layout_of z) b l) first
            others rest (opening b))
          (before_rest _ (opening b ∷ []) _
            (visit-full work graph writer to_chars utf8 _ id depth i.id_lt b typed h child
              ∙ ap
                  (λ n.
                    attempt (writer.append_char (opening b))
                    >> (new_line writer to_chars utf8 graph s z n
                        >> member_prefix writer to_chars utf8 graph s z b (s.nodes c)
                        >> going (after j (after_entries b es fuel)) c n))
                  (omega (arith, Inside-small i)))
            (char-Emits law (opening b))
            (>>-EmitsAs law v _ _
              (line_break (layout_of z) (suc depth) ++ label_text (layout_of z) b l)
              (first ++ (others ++ rest)) (new_prefix-Emits (suc depth) b l c h labelled) inner))

    pub climb-EmitsAs :
        (b : Bool) (es : Entries b) {p c depth : ℕ} (fuel : ℕ) {above : List ℕ} (rest : Bytes)
        → Inside s z p depth above
        → (s.nodes p).type ≡ container_type b
        → c < s.node_count
        → parent_of s c ≡ p
        → DenotesEntries s b p (next_of s c) es
        → EmitsAs law v (backing fuel p depth) rest
        → EmitsAs law v
            (backing (after_entries b es fuel) c (suc depth))
            (print_entries to_chars (layout_of z) b depth es ++ rest)
    climb-EmitsAs b no_entries {p} {c} {depth} fuel {above} rest i typed h child none_left k =
        before_rest _ (line_break (layout_of z) depth ++ (closing b ∷ [])) rest
          (climb-last work graph writer to_chars utf8 fuel c (suc depth) p b h
              (child-ne-root i c h child) i.id_lt child typed none_left
            ∙ ap
                (λ n.
                  last_line writer to_chars utf8 graph s z (suc depth)
                  >> attempt (writer.append_char (closing b))
                  >> backing fuel p n)
                (omega (arith, sub_size-eq (suc depth) 1 (omega arith) (Inside-small i))))
          (>>-EmitsAs law (done law) _ _ (line_break (layout_of z) depth) (closing b ∷ [])
            (last_line-Emits law to_chars utf8 graph s z depth (Inside-small i))
            (char-Emits law (closing b)))
          k
    climb-EmitsAs b (entry l j es) {p} {c} {depth} fuel {above} rest i typed h child
          (h', child', labelled, d, ds) k =
        let next = next_of s c in
        let others = print_entries to_chars (layout_of z) b depth es in
        let first = print to_chars (layout_of z) (suc depth) j in
        let front = line_break (layout_of z) (suc depth) in
        let label = label_text (layout_of z) b l in
        let inner =
          visit-EmitsAs j (after_entries b es fuel) (others ++ rest) (child-Inside i next h' child')
            d (climb-EmitsAs b es fuel rest i typed h' child' ds k) in
        let Text = EmitsAs law v (backing (after_entries b (entry l j es) fuel) c (suc depth)) in
        subst Text (regroup_next front label first others rest b',') (
          before_rest _ (((b',' ∷ []) ++ front) ++ label) (first ++ (others ++ rest))
            (climb-next work graph writer to_chars utf8 _ c (suc depth) p b h
              (child-ne-root i c h child) i.id_lt child typed h' child')
            (>>-EmitsAs law (done law) _ _ ((b',' ∷ []) ++ front) label
              (>>-EmitsAs law (done law) _ _ (b',' ∷ []) front (char-Emits law b',')
                (new_line-Emits law to_chars utf8 graph s z (suc depth)))
              (member_prefix-Emits law to_chars utf8 graph s z b l (s.nodes next) labelled
                (work.document.nodes next h').key))
            inner)
