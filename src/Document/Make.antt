-- ===== src/Document/Make.antt =====
-- The `make_` functions of src/slab.cpp keep the invariant: each adds one root, or changes nothing.
use slabjson.Prelude.{
  ap, ℕ, ◌+◌, ◌*◌, ◌≤◌, ◌≡◌, refl, sym, subst, ◌⊎◌, inl, inr, Bool, true, Bool-cases, ℤ, length,
  arith, none,
}
use slabjson.Error.{Error}
use slabjson.Result.{Outcome, ok, err}
use slabjson.Utf8.{Bytes, invalid_utf8_offset}
use slabjson.Utf8.Encoding.{IsUtf8}
use slabjson.Utf8.Validation.{invalid_utf8_offset-IsUtf8}
use slabjson.Slab.{
  Slab, Node, Handle, make_value, make_null, make_bool, make_int64, make_uint64, make_double,
  make_string, make_object, make_array, is_finite, string_flags,
}
use slabjson.Space.{
  Fits, Grown, Extends-trans, Makes, with_node, with_node-Grown, string_node, with_string,
  make_null-Makes, make_bool-Makes, make_int64-Makes, make_uint64-Makes, make_double-Makes,
  make_double_refused, make_object-Makes, make_array-Makes, make_string-MakesString, string_at,
  copied-Fits, copied-Extends, copied-Stored, view_string-copied, StringRoom, copied,
}
use slabjson.Forest.{Kids, Bare}
use slabjson.Document.{Text, NodeFits, IsDocument}
use slabjson.Document.Preserve.{IsDocument-Grown}

-- The call added one root to the document, or failed and changed nothing.
abbrev pub Grows : Kids → Slab → Outcome Slab Handle → Type 0
Grows kids s r =
    ((n : Node) × Grown s r.1 n
      × Bare n
      × IsDocument r.1 kids
      × (r.0 ≡ ok (make_value s s.node_count)))
    ⊎ ((e : Error) × (r ≡ (err e, s)))

-- A copied string is a text if it was checked.
pub Text-copied :
    (value : Bytes) {s : Slab}
    → Fits s
    → StringRoom s (length value)
    → invalid_utf8_offset value ≡ none
    → Text (copied value s) (string_at s (length value)) (string_flags value)
Text-copied value f room utf8 = record {
  stored = copied-Stored value f room;
  utf8 =
      subst IsUtf8 (sym (view_string-copied value f room))
        ((invalid_utf8_offset-IsUtf8 value).0 utf8);
  flagged = ap string_flags (sym (view_string-copied value f room));
}

module _ {s : Slab} {kids : Kids} (d : IsDocument s kids) where
  Makes-Grows :
      (n : Node) (r : Outcome Slab Handle)
      → Makes n s r
      → Bare n
      → NodeFits (with_node n s) n
      → Grows kids s r
  Makes-Grows n r (inl (v, room, e)) b fit =
      let g = with_node-Grown n d.fits v room in
      subst (Grows kids s) (sym e) (inl (n, g, b, IsDocument-Grown d g b fit, refl))
  Makes-Grows n r (inr (inl (v, full, e))) b fit = inr (_, e)
  Makes-Grows n r (inr (inr (v, e))) b fit = inr (_, e)

  pub make_null-Grows : Grows kids s (make_null s)
  make_null-Grows =
      Makes-Grows _ _ (make_null-Makes d.fits) (refl, refl, refl, refl)
        (record { payload = tt; key = inl (refl, refl) })

  pub make_object-Grows : Grows kids s (make_object s)
  make_object-Grows =
      Makes-Grows _ _ (make_object-Makes d.fits) (refl, refl, refl, refl)
        (record { payload = tt; key = inl (refl, refl) })

  pub make_array-Grows : Grows kids s (make_array s)
  make_array-Grows =
      Makes-Grows _ _ (make_array-Makes d.fits) (refl, refl, refl, refl)
        (record { payload = tt; key = inl (refl, refl) })

  pub make_bool-Grows : (b : Bool) → Grows kids s (make_bool b s)
  make_bool-Grows b =
      Makes-Grows _ _ (make_bool-Makes d.fits b) (refl, refl, refl, refl)
        (record { payload = (b, refl); key = inl (refl, refl) })

  pub make_int64-Grows : (i : ℤ) → Grows kids s (make_int64 i s)
  make_int64-Grows i =
      Makes-Grows _ _ (make_int64-Makes d.fits i) (refl, refl, refl, refl)
        (record { payload = (i, refl); key = inl (refl, refl) })

  pub make_uint64-Grows : (u : ℕ) → Grows kids s (make_uint64 u s)
  make_uint64-Grows u =
      Makes-Grows _ _ (make_uint64-Makes d.fits u) (refl, refl, refl, refl)
        (record { payload = (u, refl); key = inl (refl, refl) })

  pub make_double-Grows : (x : ℕ) → Grows kids s (make_double x s)
  make_double-Grows x = elim (Bool-cases (is_finite x)) [
    | inl h ↦
        Makes-Grows _ _ (make_double-Makes d.fits x h) (refl, refl, refl, refl)
          (record { payload = (x, refl, h); key = inl (refl, refl) })
    | inr h ↦ inr (_, make_double_refused d.fits x h)
  ]

  -- A string's node and its bytes.
  with_string-Grown :
      (value : Bytes)
      → s.valid ≡ true
      → (s.node_count + 1) * 24 + s.string_bytes_used + length value ≤ s.capacity
      → Grown s (with_string d.fits value) (string_node d.fits value)
  with_string-Grown value v room =
      let g = with_node-Grown (string_node d.fits value) d.fits v (omega arith) in
      record {
        extends = Extends-trans g.extends (copied-Extends value g.fits room);
        counted = g.counted;
        node = g.node;
        error_kept = g.error_kept;
        fits = copied-Fits value g.fits room;
        live = v;
      }

  pub make_string-Grows : (value : Bytes) → Grows kids s (make_string value s)
  make_string-Grows value = elim (make_string-MakesString d.fits value) [
    | inl (v, room, utf8, e) ↦
        let g = with_string-Grown value v room in
        let t : Text (with_string d.fits value) (string_at s (length value)) (string_flags value) =
          Text-copied value (with_node-Grown (string_node d.fits value) d.fits v (omega arith)).fits
            room utf8 in
        subst (Grows kids s) (sym e) (
          inl (
            string_node d.fits value,
            g,
            (refl, refl, refl, refl),
            IsDocument-Grown d g (refl, refl, refl, refl)
                (record { payload = (_, refl, t); key = inl (refl, refl) }),
            refl,
          ))
    | inr (inl (v, e)) ↦ inr (_, e)
    | inr (inr (inl (k, u, e))) ↦ inr (_, e)
    | inr (inr (inr (inl (full, e)))) ↦ inr (_, e)
    | inr (inr (inr (inr (full, e)))) ↦ inr (_, e)
  ]
