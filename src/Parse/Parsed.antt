-- ===== src/Parse/Parsed.antt =====
-- What `parse_value` of src/parse.cpp does to the document.
use slabjson.Prelude.{
  ℕ, ◌≤◌, ◌<◌, ◌≡◌, ◌≢◌, refl, sym, ap, subst, ◌∙◌, ◌⊎◌, inl, inr, arith, length,
}
use slabjson.Error.{Error, error_at, internal_error}
use slabjson.Result.{Outcome, Op, ok, err}
use slabjson.Utf8.{Bytes}
use slabjson.Slab.{Slab, Value, make_value, invalid_node_id}
use slabjson.Space.{Extends, Extends-refl}
use slabjson.Forest.{Kids, parent_of}
use slabjson.Document.{IsDocument}
use slabjson.Document.Make.{Grows}
use slabjson.Parse.Values.{Parser, on_slab, with_offset}
use slabjson.Parse.Errors.{OfInput}
use slabjson.Parse.Positions.{Moved}

module _ (input : Bytes) where
  -- A value was parsed: its node is the next one, a root of the document, which keeps all that it held.
  pub record Parsed (kids : Kids) (p : Parser) (value : Value) (q : Parser) : Type 0 where
    pub extends : Extends p.slab q.slab
    pub kids_then : Kids
    pub document : IsDocument q.slab kids_then
    pub kept : (i : ℕ) → i < p.slab.node_count → kids_then i ≡ kids i
    pub handle : value ≡ make_value q.slab p.slab.node_count
    pub grown : p.slab.node_count < q.slab.node_count
    pub root : parent_of q.slab p.slab.node_count ≡ invalid_node_id
    pub forward : p.position < q.position
    pub within : q.position ≤ length input

  -- A value was parsed; or the error is one of the input or of the room, and the slab keeps all that it held.
  abbrev pub Parses : Kids → Parser → Outcome Parser Value → Type 0
  Parses kids p r =
      ((value : Value) × (q : Parser) × Parsed kids p value q × (r ≡ (ok value, q)))
      ⊎ ((e : Error) × (q : Parser) × OfInput input e × Extends p.slab q.slab × (r ≡ (err e, q)))

  -- From an earlier position with the same slab.
  pub Parses-Moved :
      {kids : Kids} {p q : Parser} {r : Outcome Parser Value}
      → Moved input p q
      → Parses kids q r
      → Parses kids p r
  Parses-Moved {p} {q} m (inr (e, t, o, x, k)) =
      inr (e, t, o, subst (λ s. Extends s t.slab) m.slab_kept x, k)
  Parses-Moved {kids} {p} {q} m (inl (value, t, g, k)) = inl (
    value,
    t,
    record {
      extends = subst (λ s. Extends s t.slab) m.slab_kept g.extends;
      kids_then = g.kids_then;
      document = g.document;
      kept = λ i h. g.kept i (subst (λ s. i < s.node_count) (sym m.slab_kept) h);
      handle = g.handle ∙ ap (λ s. make_value t.slab s.node_count) m.slab_kept;
      grown = subst (λ s. s.node_count < t.slab.node_count) m.slab_kept g.grown;
      root = subst (λ s. parent_of t.slab s.node_count ≡ invalid_node_id) m.slab_kept g.root;
      forward = omega (arith, m.forward, g.forward);
      within = g.within;
    },
    k,
  )

  pub make_value_kept : {s t : Slab} (i : ℕ) → Extends s t → make_value s i ≡ make_value t i
  unfolding make_value
  make_value_kept i e = ground (arith, e.self_kept, e.generation_kept)

  -- The making of a value behind its characters.
  pub made-Parses :
      {kids : Kids} {p q : Parser} (m : Op Slab Value)
      → Moved input p q
      → p.position < q.position
      → Grows kids q.slab (m q.slab)
      → ((e : Error) → (m q.slab).0 ≡ err e → e.code ≢ internal_error)
      → Parses kids p (with_offset p.position (on_slab m) q)
  made-Parses {kids} {p} {q} m moved l (inr (e, k)) code = inr (
    error_at e.code p.position,
    q,
    (omega (arith, moved.within, moved.forward), code e (ap (λ r. r.0) k)),
    subst (Extends p.slab) (sym moved.slab_kept) (Extends-refl p.slab),
    rw k,
  )
  made-Parses {kids} {p} {q} m moved l (inl (n, g, b, d, k)) code = inl (
    make_value q.slab q.slab.node_count,
    record q { slab = (m q.slab).1 },
    record {
      extends = subst (λ s. Extends s (m q.slab).1) moved.slab_kept g.extends;
      kids_then = kids;
      document = d;
      kept = λ i h. refl;
      handle =
          make_value_kept q.slab.node_count g.extends
          ∙ ap (λ s. make_value (m q.slab).1 s.node_count) moved.slab_kept;
      grown =
          subst (λ s. s.node_count < (m q.slab).1.node_count) moved.slab_kept
            (omega (arith, g.counted));
      root =
          subst (λ s. parent_of (m q.slab).1 s.node_count ≡ invalid_node_id) moved.slab_kept
            (ap (λ x. x.parent) g.node ∙ b.0);
      forward = l;
      within = moved.within;
    },
    rw k,
  )
