-- ===== src/Document/Reads.antt =====
-- What the conversions of src/value.cpp return for a value that src/slab.cpp has made.
use slabjson.Prelude.{
  ℕ, ◌^◌, ◌≡◌, sym, ap, subst, ◌∙◌, inl, inr, Bool, true, false, Option, some, none, ltb,
  if◌then◌else◌, ℤ, pos, negsuc, arith, length, Bool-cases,
}
use slabjson.Result.{Outcome, ok}
use slabjson.Utf8.{Bytes}
use slabjson.Slab.{
  Slab, Node, ValueType, NumberKind, signed_integer, unsigned_integer, floating_point, StringRef,
  bool_value, signed_value, unsigned_value, double_value, string_value, view_string, Handle,
  is_finite,
}
use slabjson.Space.{
  Fits, Makes, with_node-Grown, string_node, string_at, view_string-copied, make_null-Makes,
  make_bool-Makes, make_int64-Makes, make_uint64-Makes, make_double-Makes, make_double_refused,
  make_string-MakesString,
}
use slabjson.Value.{
  handle_node, typed_node, as_bool, as_int64, as_uint64, as_string, as_number, as_array, as_object,
  number_kind, is_null, node_number_kind,
}
use slabjson.Document.Scalar.{
  Scalar, text, boolean, signed, unsigned, floating, nothing, make_scalar,
}

-- What each conversion should return.
abbrev pub bool_view : Scalar → Option Bool
bool_view (boolean b) = some b
bool_view _ = none

abbrev pub signed_view : Scalar → Option ℤ
signed_view (signed i) = some i
signed_view (unsigned u) = if ltb u (2 ^ 63) then some (pos u) else none
signed_view _ = none

abbrev pub unsigned_view : Scalar → Option ℕ
unsigned_view (signed (pos n)) = some n
unsigned_view (unsigned u) = some u
unsigned_view _ = none

abbrev pub text_view : Scalar → Option Bytes
text_view (text t) = some t
text_view _ = none

abbrev pub kind_view : Scalar → Option NumberKind
kind_view (signed i) = some signed_integer
kind_view (unsigned u) = some unsigned_integer
kind_view (floating x) = some floating_point
kind_view _ = none

abbrev pub null_view : Scalar → Bool
null_view nothing = true
null_view _ = false

abbrev pub number_view : (ℤ → ℕ) → (ℕ → ℕ) → Scalar → Option ℕ
number_view cast_signed cast_unsigned (signed i) = some (cast_signed i)
number_view cast_signed cast_unsigned (unsigned u) = some (cast_unsigned u)
number_view cast_signed cast_unsigned (floating x) = some x
number_view cast_signed cast_unsigned _ = none

-- The node holds the scalar.
abbrev pub Holds : Scalar → Slab → Node → Type 0
Holds (text t) s n =
    (n.type ≡ ValueType.string)
    × (r : StringRef) × (n.payload ≡ string_value r)
    × (view_string s r ≡ t)
Holds (boolean b) s n = (n.type ≡ ValueType.bool) × (n.payload ≡ bool_value b)
Holds (signed i) s n =
    (n.type ≡ ValueType.number) × (n.aux ≡ signed_integer) × (n.payload ≡ signed_value i)
Holds (unsigned u) s n =
    (n.type ≡ ValueType.number) × (n.aux ≡ unsigned_integer) × (n.payload ≡ unsigned_value u)
Holds (floating x) s n =
    (n.type ≡ ValueType.number) × (n.aux ≡ floating_point) × (n.payload ≡ double_value x)
Holds nothing s n = n.type ≡ ValueType.null

-- The handle reads as the scalar, by every conversion.
pub record ReadsAs (v : Scalar) (s : Slab) (h : Handle) : Type 0 where
  pub reads_bool : as_bool s h ≡ bool_view v
  pub reads_int64 : as_int64 s h ≡ signed_view v
  pub reads_uint64 : as_uint64 s h ≡ unsigned_view v
  pub reads_string : as_string s h ≡ text_view v
  pub reads_kind : number_kind s h ≡ kind_view v
  pub reads_null : is_null s h ≡ null_view v
  pub reads_number :
      (cast_signed : ℤ → ℕ) (cast_unsigned : ℕ → ℕ)
      → as_number cast_signed cast_unsigned s h ≡ number_view cast_signed cast_unsigned v
  pub reads_array : as_array s h ≡ none
  pub reads_object : as_object s h ≡ none

reads_number-Holds :
    (v : Scalar) (s : Slab) (h : Handle) (n : Node) (cast_signed : ℤ → ℕ) (cast_unsigned : ℕ → ℕ)
    → handle_node s h ≡ some n
    → Holds v s n
    → as_number cast_signed cast_unsigned s h ≡ number_view cast_signed cast_unsigned v
unfolding as_number node_number_kind typed_node
reads_number-Holds (text t) s h n f g e k = ground arith
reads_number-Holds (boolean b) s h n f g e k = ground arith
reads_number-Holds (signed i) s h n f g e k = ground arith
reads_number-Holds (unsigned u) s h n f g e k = ground arith
reads_number-Holds (floating x) s h n f g e k = ground arith
reads_number-Holds nothing s h n f g e k = ground arith

reads_others-Holds :
    (v : Scalar) (s : Slab) (h : Handle) (n : Node)
    → handle_node s h ≡ some n
    → Holds v s n
    → (as_bool s h ≡ bool_view v)
      × (as_int64 s h ≡ signed_view v)
      × (as_uint64 s h ≡ unsigned_view v)
      × (as_string s h ≡ text_view v)
      × (number_kind s h ≡ kind_view v)
      × (is_null s h ≡ null_view v)
      × (as_array s h ≡ none)
      × (as_object s h ≡ none)
unfolding as_bool as_int64 as_uint64 as_string number_kind is_null as_array as_object
    node_number_kind typed_node
reads_others-Holds (text t) s h n e k = ground arith
reads_others-Holds (boolean b) s h n e k = ground arith
reads_others-Holds (signed (pos i)) s h n e k = ground arith
reads_others-Holds (signed (negsuc i)) s h n e k = ground arith
reads_others-Holds (unsigned u) s h n e k = ground arith
reads_others-Holds (floating x) s h n e k = ground arith
reads_others-Holds nothing s h n e k = ground arith

pub Holds-ReadsAs :
    (v : Scalar) (s : Slab) (h : Handle) (n : Node)
    → handle_node s h ≡ some n
    → Holds v s n
    → ReadsAs v s h
Holds-ReadsAs v s h n e k =
    let (b, i, u, t, kind, null, a, o) = reads_others-Holds v s h n e k in
    record {
      reads_bool = b;
      reads_int64 = i;
      reads_uint64 = u;
      reads_string = t;
      reads_kind = kind;
      reads_null = null;
      reads_number = λ f g. reads_number-Holds v s h n f g e k;
      reads_array = a;
      reads_object = o;
    }

module _ {s : Slab} (f : Fits s) (h : Handle) where
  -- The node that a successful `make_` function has stored.
  stored_node :
      (n : Node) (r : Outcome Slab Handle) → Makes n s r → r.0 ≡ ok h → r.1.nodes s.node_count ≡ n
  stored_node n r (inl (v, room, e)) made =
      ap (λ r. r.1.nodes s.node_count) e ∙ (with_node-Grown n f v room).node
  stored_node n r (inr (inl (v, full, e))) made = absurd (cc)
  stored_node n r (inr (inr (v, e))) made = absurd (cc)

  pub make_scalar-Holds :
      (v : Scalar)
      → (make_scalar v s).0 ≡ ok h
      → Holds v (make_scalar v s).1 ((make_scalar v s).1.nodes s.node_count)
  unfolding make_scalar
  make_scalar-Holds nothing made = ap (λ n. n.type) (stored_node _ _ (make_null-Makes f) made)
  make_scalar-Holds (boolean b) made =
      let e = stored_node _ _ (make_bool-Makes f b) made in
      (ap (λ n. n.type) e, ap (λ n. n.payload) e)
  make_scalar-Holds (signed i) made =
      let e = stored_node _ _ (make_int64-Makes f i) made in
      (ap (λ n. n.type) e, ap (λ n. n.aux) e, ap (λ n. n.payload) e)
  make_scalar-Holds (unsigned u) made =
      let e = stored_node _ _ (make_uint64-Makes f u) made in
      (ap (λ n. n.type) e, ap (λ n. n.aux) e, ap (λ n. n.payload) e)
  make_scalar-Holds (floating x) made = elim (Bool-cases (is_finite x)) [
    | inl finite ↦
        let e = stored_node _ _ (make_double-Makes f x finite) made in
        (ap (λ n. n.type) e, ap (λ n. n.aux) e, ap (λ n. n.payload) e)
    | inr infinite ↦ absurd (cc (make_double_refused f x infinite))
  ]
  make_scalar-Holds (text value) made = elim (make_string-MakesString f value) [
    | inl (v, room, utf8, e) ↦
        let g = with_node-Grown (string_node f value) f v (omega arith) in
        let Here : Outcome Slab Handle → Type 0 =
          λ r. Holds (text value) r.1 (r.1.nodes s.node_count) in
        subst Here (sym e) (
          ap (λ n. n.type) g.node,
          string_at s (length value),
          ap (λ n. n.payload) g.node,
          view_string-copied value g.fits room,
        )
    | inr (inl (v, e)) ↦ absurd (cc)
    | inr (inr (inl (k, u, e))) ↦ absurd (cc)
    | inr (inr (inr (inl (full, e)))) ↦ absurd (cc)
    | inr (inr (inr (inr (full, e)))) ↦ absurd (cc)
  ]
