-- ===== src/Document/Preserve.antt =====
-- The invariant is kept when the slab grows by a node, is rolled back, or changes a key.
use slabjson.Prelude.{ℕ, ap, ◌∙◌, ◌<◌, ◌≡◌, refl, sym, subst, inl, inr, dec_lt, arith}
use slabjson.Utf8.Encoding.{IsUtf8}
use slabjson.Slab.{
  Slab, Node, ValueType, NumberKind, Payload, StringRef, string_flags, checkpoint, rollback,
}
use slabjson.Space.{
  Fits, Extends, Grown, Stored-Extends, view_string-Extends, rollback-Fits, rollback-Extends,
}
use slabjson.Forest.{Kids, Bare}
use slabjson.Forest.Basic.{IsForest-Grown, IsForest-extend}
use slabjson.Document.{Text, PayloadFits, NodeFits, IsDocument}

module _ {s s' : Slab} (e : Extends s s') where
  pub Text-Extends : {r : StringRef} {flags : ℕ} → Text s r flags → Text s' r flags
  Text-Extends {r} t = record {
    stored = Stored-Extends e t.stored;
    utf8 = subst IsUtf8 (sym (view_string-Extends r e t.stored)) t.utf8;
    flagged = t.flagged ∙ ap string_flags (sym (view_string-Extends r e t.stored));
  }

  pub PayloadFits-Extends :
      (type : ValueType) (k : NumberKind) (p : Payload) (flags : ℕ)
      → PayloadFits s type k p flags
      → PayloadFits s' type k p flags
  PayloadFits-Extends ValueType.string k p fl (r, q, t) = (r, q, Text-Extends t)
  PayloadFits-Extends ValueType.invalid k p fl h = h
  PayloadFits-Extends ValueType.null k p fl h = h
  PayloadFits-Extends ValueType.bool k p fl h = h
  PayloadFits-Extends ValueType.number k p fl h = h
  PayloadFits-Extends ValueType.array k p fl h = h
  PayloadFits-Extends ValueType.object k p fl h = h

  pub NodeFits-Extends : {n : Node} → NodeFits s n → NodeFits s' n
  NodeFits-Extends {n} h = record {
    payload = PayloadFits-Extends n.type n.aux n.payload n.value_flags h.payload;
    key = elim h.key [ inl q ↦ inl q | inr t ↦ inr (Text-Extends t) ];
  }

-- One more node without links.
pub IsDocument-Grown :
    {s s' : Slab} {kids : Kids} {n : Node}
    → IsDocument s kids
    → Grown s s' n
    → Bare n
    → NodeFits s' n
    → IsDocument s' kids
IsDocument-Grown {s} {s'} {n} d g b fit = record {
  fits = g.fits;
  forest = IsForest-Grown d.forest g b;
  nodes = λ i h. elim (dec_lt i s.node_count) [
    | yes l ↦
        subst (NodeFits s') (sym (g.extends.nodes_kept i l))
          (NodeFits-Extends g.extends (d.nodes i l))
    | no l ↦
        let e : s.node_count ≡ i = omega (arith, g.counted) in
        subst (λ k. NodeFits s' (s'.nodes k)) e (subst (NodeFits s') (sym g.node) fit)
  ];
}

-- The same document: a slab that kept all of `s` and holds no more nodes.
pub IsDocument-same :
    {s s' : Slab} {kids : Kids}
    → IsDocument s kids
    → Extends s s'
    → s'.node_count ≡ s.node_count
    → Fits s'
    → IsDocument s' kids
IsDocument-same {s} {s'} d e c f = record {
  fits = f;
  forest =
      IsForest-extend d.forest s' e.count_le (omega (arith, f.small, f.room)) e.nodes_kept
        (λ i l h. absurd (omega arith));
  nodes = λ i h.
      let l : i < s.node_count = omega arith in
      subst (NodeFits s') (sym (e.nodes_kept i l)) (NodeFits-Extends e (d.nodes i l));
}

-- A document is the same document after any growth of the slab that is rolled back to the
-- checkpoint before it.
pub IsDocument-rollback :
    {s s' : Slab} {kids : Kids}
    → IsDocument s kids
    → Extends s s'
    → IsDocument (rollback (checkpoint s) s') kids
unfolding rollback checkpoint
IsDocument-rollback {s} {s'} d e =
    IsDocument-same d (rollback-Extends e) refl (rollback-Fits d.fits e)
