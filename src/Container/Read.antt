-- ===== src/Container/Read.antt =====
-- `size`, `empty` and iteration of `Array` and `Object` (src/array.cpp, src/object.cpp), against the
-- list of the container's children.
use slabjson.Prelude.{
  ℕ, zero, suc, ◌+◌, ◌<◌, ◌≡◌, ◌≢◌, refl, sym, ap, subst, ◌∙◌, inl, inr, true, some, List, [], ◌∷◌,
  length, arith,
}
use slabjson.Prelude.Walk.{Walk-length, end_walk, visit}
use slabjson.Slab.{Slab, ValueType, Handle, null_slab}
use slabjson.Space.{Extends}
use slabjson.Value.{handle_node, typed_node}
use slabjson.Container.{size_loop, container_size, Iterator, end_of, begin_of, next}
use slabjson.Container.Status.{IsLive, typed_node_cases}
use slabjson.Forest.{Chain, Kids, next_of}
use slabjson.Forest.Basic.{node_for_live}
use slabjson.Document.{IsDocument}

size_loop-length :
    (s : Slab) (generation fuel child count : ℕ) (xs : List ℕ)
    → s.valid ≡ true
    → generation ≡ s.generation
    → Chain s child xs
    → length xs < fuel
    → size_loop s generation fuel child count ≡ count + length xs
unfolding size_loop
size_loop-length s generation zero child count xs v e w l = absurd (omega arith)
size_loop-length s generation (suc fuel) child count xs v e (end_walk d) l = ground arith
size_loop-length s generation (suc fuel) child count xs v e (visit {xs = ys} d b w) l = ground (
  arith,
  node_for_live s child generation v e b,
  size_loop-length s generation fuel (next_of s child) (count + 1) ys v e w (omega arith),
)

pub typed_node_live :
    (s : Slab) (c : Handle) (type : ValueType)
    → IsLive s c type
    → typed_node s c type ≡ some (s.nodes c.id)
typed_node_live s c type live = elim (typed_node_cases s c type) [
  | inl (_, e) ↦ e
  | inr (dead, _) ↦ absurd (dead live)
]

pub IsLive-Extends :
    {s t : Slab} {c : Handle} {type : ValueType} → Extends s t → IsLive s c type → IsLive t c type
IsLive-Extends {c} x (nz, (v, e, h), k) = (
  nz,
  (x.valid_kept ∙ v, e ∙ sym x.generation_kept, omega (arith, x.count_le)),
  ap (λ n. n.type) (x.nodes_kept c.id h) ∙ k,
)

-- In a document, the size of a live container is the number of its children, so the bound on the
-- loop never cuts it short.
pub container_size-kids :
    {s : Slab} {kids : Kids}
    → IsDocument s kids
    → (type : ValueType) (c : Handle) → IsLive s c type
    → container_size type s c ≡ length (kids c.id)
unfolding container_size
container_size-kids {s} {kids} d type c live =
    let w : Chain s (s.nodes c.id).first_child (kids c.id) = d.forest.chained c.id live.1.2 in
    rw (typed_node_live s c type live, container_size)
      (omega (
        arith,
        size_loop-length s c.generation (s.node_count + 1) (s.nodes c.id).first_child 0 (kids c.id)
            live.1.0 live.1.1 w (omega (arith, Walk-length w)),
      ))

-- What a loop from `it` to `stop` sees.
pub data Visits (s : Slab) (stop : Iterator) : Iterator → List ℕ → Type 0 where
  at_end : {it : Iterator} → it ≡ stop → Visits s stop it []
  at_item :
      {it : Iterator} {xs : List ℕ}
      → it ≢ stop
      → handle_node s it ≡ some (s.nodes it.id)
      → Visits s stop (next s it) xs
      → Visits s stop it (it.id ∷ xs)

Visits-Chain :
    (s : Slab) (c : Handle) (child : ℕ) (xs : List ℕ)
    → c.slab ≢ null_slab
    → s.valid ≡ true
    → c.generation ≡ s.generation
    → Chain s child xs
    → Visits s (end_of c) (record c { id = child }) xs
unfolding end_of next handle_node
Visits-Chain s c child xs nz v e (end_walk d) = at_end (ap (λ i. record c { id = i }) d)
Visits-Chain s c child xs nz v e (visit {xs = ys} d b w) =
    at_item (λ q. d (ap (λ h. h.id) q)) found
      (subst (λ it. Visits s (end_of c) it ys) (sym stepped)
        (Visits-Chain s c (next_of s child) ys nz v e w))
  where
    found : handle_node s (record c { id = child }) ≡ some (s.nodes child)
    found = ground (arith, node_for_live s child c.generation v e b)

    stepped : next s (record c { id = child }) ≡ record c { id = next_of s child }
    stepped = rw (found, next) refl

-- In a document, a loop over a live container from `begin` by `++` sees its children, in order,
-- each with a live handle, and ends at `end`.
pub begin_of-Visits :
    {s : Slab} {kids : Kids}
    → IsDocument s kids
    → (type : ValueType) (c : Handle) → IsLive s c type
    → Visits s (end_of c) (begin_of type s c) (kids c.id)
unfolding begin_of
begin_of-Visits {s} {kids} d type c live =
    rw (typed_node_live s c type live, begin_of)
      (Visits-Chain s c (s.nodes c.id).first_child (kids c.id) live.0 live.1.0 live.1.1
        (d.forest.chained c.id live.1.2))
