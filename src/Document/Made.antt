-- ===== src/Document/Made.antt =====
-- What is known of a slab in which `make_` of src/slab.cpp has made a scalar.
use slabjson.Prelude.{◌≡◌, sym, ap, subst, inl, inr}
use slabjson.Result.{Op, ok}
use slabjson.Slab.{Slab, Node, ValueType, Handle, make_value, make_object, make_array}
use slabjson.Space.{Extends, Makes, with_node, update_self, make_object-Makes, make_array-Makes}
use slabjson.Forest.{Kids}
use slabjson.Document.{IsDocument}
use slabjson.Document.Make.{Grows}
use slabjson.Document.Scalar.{Scalar, make_scalar, make_scalar-Grows}
use slabjson.Document.Reads.{Holds, make_scalar-Holds}

pub record Made (s : Slab) (kids : Kids) (v : Scalar) (child : Handle) (s' : Slab) : Type 0 where
  pub new_id : child.id ≡ s.node_count
  pub extends : Extends s s'
  pub document : IsDocument s' kids
  pub holds : Holds v s' (s'.nodes child.id)

pub make_scalar-Made :
    {s : Slab} {kids : Kids}
    → IsDocument s kids
    → (v : Scalar) (child : Handle) (s' : Slab) → make_scalar v s ≡ (ok child, s')
    → Made s kids v child s'
unfolding make_value
make_scalar-Made {s} {kids} d v child s' made = go (make_scalar-Grows d v)
  where
    state : (make_scalar v s).1 ≡ s'
    state = ap (λ r. r.1) made

    go : Grows kids s (make_scalar v s) → Made s kids v child s'
    go (inr (e, q)) = absurd (cc)
    go (inl (n, g, b, doc, e)) =
        let h : make_value s s.node_count ≡ child = cc in
        record {
          new_id = sym (ap (λ h. h.id) h);
          extends = subst (Extends s) state g.extends;
          document = subst (λ t. IsDocument t kids) state doc;
          holds =
              subst (λ i. Holds v s' (s'.nodes i)) (ap (λ h. h.id) h)
                (subst (λ t. Holds v t (t.nodes s.node_count)) state
                  (make_scalar-Holds d.fits child v (ap (λ r. r.0) made)));
        }

-- A `make_` function that stores `n` has made the node.
pub Makes-node :
    {s : Slab} (n : Node) (create : Op Slab Handle)
    → Makes n s (create s)
    → (child : Handle) (s' : Slab) → create s ≡ (ok child, s')
    → s'.nodes child.id ≡ n
unfolding make_value
Makes-node {s} n create (inl (_, _, e)) child s' made =
    let same : make_value s s.node_count ≡ child = cc in
    let id : s.node_count ≡ child.id = ap {A = Handle} (λ h. h.id) same in
    let state : with_node n s ≡ s' = cc in
    subst (λ t. t.nodes child.id ≡ n) state
      (subst (λ i. (with_node n s).nodes i ≡ n) id (update_self s.nodes s.node_count n))
Makes-node n create (inr (inl (_, _, e))) child s' made = absurd (cc)
Makes-node n create (inr (inr (_, e))) child s' made = absurd (cc)

module _ {s : Slab} {kids : Kids} (d : IsDocument s kids) (child : Handle) (s' : Slab) where
  pub made_object : make_object s ≡ (ok child, s') → (s'.nodes child.id).type ≡ ValueType.object
  made_object run =
      ap (λ n. n.type) (Makes-node _ make_object (make_object-Makes d.fits) child s' run)

  pub made_array : make_array s ≡ (ok child, s') → (s'.nodes child.id).type ≡ ValueType.array
  made_array run = ap (λ n. n.type) (Makes-node _ make_array (make_array-Makes d.fits) child s' run)
