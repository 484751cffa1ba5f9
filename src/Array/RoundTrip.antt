-- ===== src/Array/RoundTrip.antt =====
-- An item that an overload of `Array::add` has stored is read back by `at` (src/array.cpp).
use slabjson.Prelude.{
  ℕ, zero, suc, ◌<◌, ◌≡◌, refl, sym, ap, subst, ◌∙◌, inl, inr, Option, some, none, List, [], ◌∷◌,
  ◌++◌, length, ◌==◌, ltb, dec_lt, ℕ_discrete, if◌then◌else◌, arith,
}
use slabjson.Result.{ok}
use slabjson.Slab.{Slab, ValueType, Handle, Value, make_value, no_string}
use slabjson.Value.{handle_node}
use slabjson.Container.Status.{IsLive}
use slabjson.Container.Attach.{attached}
use slabjson.Container.Read.{IsLive-Extends}
use slabjson.Container.Inverse.{builder_add-Attached}
use slabjson.Forest.{Kids, with_child}
use slabjson.Forest.Basic.{node_for_live}
use slabjson.Document.{IsDocument}
use slabjson.Document.Scalar.{Scalar, make_scalar}
use slabjson.Document.Reads.{ReadsAs, Holds, Holds-ReadsAs}
use slabjson.Document.Keeps.{attached-SameStore, attached-Holds, attached_type}
use slabjson.Document.Made.{make_scalar-Made}
use slabjson.Array.{add, at}
use slabjson.Array.Add.{add_item-Adds, add_item-IsDocument}
use slabjson.Array.Build.{add_scalar, add_scalar-builder_add, add_item-Builds}
use slabjson.Array.Read.{value_at, at-kids}

value_at-same :
    (s t : Slab) (xs : List ℕ) (i : ℕ)
    → t.self ≡ s.self
    → t.generation ≡ s.generation
    → value_at t xs i ≡ value_at s xs i
unfolding make_value
value_at-same s t [] i e k = refl
value_at-same s t (x ∷ xs) zero e k = cc
value_at-same s t (x ∷ xs) (suc i) e k = value_at-same s t xs i e k

value_at-append :
    (s : Slab) (xs : List ℕ) (c i : ℕ)
    → i < length xs
    → value_at s (xs ++ (c ∷ [])) i ≡ value_at s xs i
value_at-append s [] c i l = absurd (omega arith)
value_at-append s (x ∷ xs) c zero l = refl
value_at-append s (x ∷ xs) c (suc i) l = value_at-append s xs c i (omega arith)

value_at-last :
    (s : Slab) (xs : List ℕ) (c : ℕ)
    → value_at s (xs ++ (c ∷ [])) (length xs) ≡ some (make_value s c)
value_at-last s [] c = refl
value_at-last s (x ∷ xs) c = value_at-last s xs c

value_at-beyond :
    (s : Slab) (xs : List ℕ) (c i : ℕ) → length xs < i → value_at s (xs ++ (c ∷ [])) i ≡ none
value_at-beyond s [] c zero l = absurd (omega arith)
value_at-beyond s [] c (suc i) l = refl
value_at-beyond s (x ∷ xs) c zero l = absurd (omega arith)
value_at-beyond s (x ∷ xs) c (suc i) l = value_at-beyond s xs c i (omega arith)

-- What `at` returns when `w` is behind `n` items of which `old` tells.
abbrev pub appended : ℕ → (ℕ → Option Value) → Value → ℕ → Option Value
appended n old w i = if ltb i n then old i else if i == n then some w else none

-- After an attachment, the earlier items are where they were, and the child is behind them.
abbrev Appended : Slab → Kids → Handle → Handle → Slab → Type 0
Appended s kids a child t =
    ((i : ℕ) → at t a i ≡ appended (length (kids a.id)) (at s a) child i)
    × ((v : Scalar) → Holds v s (s.nodes child.id) → ReadsAs v t child)

add-Appended :
    {s : Slab} {kids : Kids}
    → IsDocument s kids
    → (a child : Handle) → (add a child s).0 ≡ ok tt
    → Appended s kids a child (add a child s).1
unfolding handle_node make_value
add-Appended {s} {kids} d a child done = elim (add_item-Adds d a child) [
  | inr (e, why, q) ↦ absurd (cc)
  | inl (good, live, at', q) ↦ subst (Appended s kids a child) (sym (ap (λ r. r.1) q)) (
      let t : Slab = attached a.id child.id no_string 0 s in
      let st = attached-SameStore a.id child.id no_string 0 s in
      let doc : IsDocument t (with_child kids a.id child.id) =
        elim (add_item-IsDocument d a child) [
          | inl (_, _, _, doc) ↦
              subst (λ t. IsDocument t (with_child kids a.id child.id)) (ap (λ r. r.1) q) doc
          | inr (e, why, q', _, _) ↦ absurd (cc)
        ] in
      let live' : IsLive t a ValueType.array = (
        live.0,
        (
          st.valid_same ∙ live.1.0,
          live.1.1 ∙ sym st.generation_same,
          omega (arith, st.count_same, live.1.2),
        ),
        attached_type a.id child.id no_string 0 s a.id ∙ live.2,
      ) in
      let items : (i : ℕ) → at t a i ≡ value_at s (kids a.id ++ (child.id ∷ [])) i = λ i.
        at-kids doc a live' i
        ∙ ap (λ xs. value_at t xs i) (ground arith)
        ∙ value_at-same s t (kids a.id ++ (child.id ∷ [])) i st.self_same st.generation_same in
      let there : handle_node t child ≡ some (t.nodes child.id) = ground (
        arith,
        at'.same_slab.0,
        node_for_live t child.id child.generation (st.valid_same ∙ at'.child_live.0)
            (at'.child_live.1 ∙ sym st.generation_same)
            (omega (arith, st.count_same, at'.child_live.2)),
      ) in
      let itself : make_value s child.id ≡ child = cc (at'.same_slab.1, at'.child_live.1) in
      (
        λ i. items i ∙ elim (ℕ_discrete i (length (kids a.id))) [
          | yes e ↦
              ap (value_at s (kids a.id ++ (child.id ∷ []))) e
              ∙ value_at-last s (kids a.id) child.id
              ∙ ap some itself
              ∙ ground arith
          | no ne ↦ elim (dec_lt i (length (kids a.id))) [
            | yes l ↦
                value_at-append s (kids a.id) child.id i l ∙ sym (at-kids d a live i) ∙ ground arith
            | no g ↦ value_at-beyond s (kids a.id) child.id i (omega arith) ∙ ground arith
          ]
        ],
        λ v h.
            Holds-ReadsAs v t child (t.nodes child.id) there
              (attached-Holds a.id child.id no_string 0 s v child.id h),
      ))
]

-- In a document, after a successful `add` of a scalar to an array of the slab, `at` leads to the
-- earlier items as before, behind them to a handle that every conversion reads as that scalar, and
-- from there on nowhere.
pub at-add :
    {s : Slab} {kids : Kids}
    → IsDocument s kids
    → (a : Handle) (v : Scalar) → a.slab ≡ s.self
    → (add_scalar a v s).0 ≡ ok tt
    → (w : Handle) × ReadsAs v (add_scalar a v s).1 w
      × ((i : ℕ) → at (add_scalar a v s).1 a i ≡ appended (length (kids a.id)) (at s a) w i)
at-add {s} {kids} d a v here done = elim (add_item-Builds a d here v) [
  | inr (e, _, q, _, _) ↦ absurd (cc)
  | inl (good, live, _, _, _) ↦
      let q = add_scalar-builder_add a v s in
      let (child, s', made, into, r) =
        builder_add-Attached (λ _. tt) ValueType.array a (make_scalar v) (add a) s tt
          (ap (λ r. r.0) (sym q) ∙ done) in
      let m = make_scalar-Made d v child s' made in
      let (items, reads) = add-Appended m.document a child into in
      let state : (add a child s').1 ≡ (add_scalar a v s).1 = sym (ap (λ x. x.1) (q ∙ r)) in
      let earlier : (i : ℕ) → at s' a i ≡ at s a i = λ i.
        at-kids m.document a (IsLive-Extends m.extends live) i
        ∙ value_at-same s s' (kids a.id) i m.extends.self_kept m.extends.generation_kept
        ∙ sym (at-kids d a live i) in
      (
        child,
        subst (λ t. ReadsAs v t child) state (reads v m.holds),
        λ i.
            ap (λ t. at t a i) (sym state)
            ∙ items i
            ∙ ap
                (λ o.
                  if ltb i (length (kids a.id))
                  then o
                  else if i == length (kids a.id)
                  then some child
                  else none)
                (earlier i),
      )
]
