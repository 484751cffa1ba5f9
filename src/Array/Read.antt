-- ===== src/Array/Read.antt =====
-- `Array::at` of src/array.cpp, against the list of the array's children.
use slabjson.Prelude.{ℕ, zero, suc, ◌≡◌, true, Option, some, none, List, [], ◌∷◌, arith}
use slabjson.Prelude.Walk.{end_walk, visit}
use slabjson.Slab.{Slab, ValueType, Handle, Value, make_value}
use slabjson.Container.Status.{IsLive}
use slabjson.Container.Read.{typed_node_live}
use slabjson.Forest.{Chain, Kids, next_of}
use slabjson.Forest.Basic.{node_for_live}
use slabjson.Document.{IsDocument}
use slabjson.Array.{at_loop, at}

-- A handle to each node.
abbrev pub value_at : Slab → List ℕ → ℕ → Option Value
value_at s [] index = none
value_at s (x ∷ xs) zero = some (make_value s x)
value_at s (x ∷ xs) (suc index) = value_at s xs index

at_loop-value_at :
    (s : Slab) (generation index child : ℕ) (xs : List ℕ)
    → s.valid ≡ true
    → generation ≡ s.generation
    → Chain s child xs
    → at_loop s generation index child ≡ value_at s xs index
unfolding at_loop
at_loop-value_at s generation zero child [] v e (end_walk d) = ground arith
at_loop-value_at s generation (suc index) child [] v e (end_walk d) = ground arith
at_loop-value_at s generation zero child (x ∷ xs) v e (visit d b w) = ground arith
at_loop-value_at s generation (suc index) child (x ∷ xs) v e (visit d b w) = ground (
  arith,
  node_for_live s child generation v e b,
  at_loop-value_at s generation index (next_of s child) xs v e w,
)

-- In a document, `at` of a live array returns a handle to the child at the index, and nothing
-- beyond the last child.
pub at-kids :
    {s : Slab} {kids : Kids}
    → IsDocument s kids
    → (a : Handle) → IsLive s a ValueType.array
    → (index : ℕ) → at s a index ≡ value_at s (kids a.id) index
unfolding at
at-kids {s} {kids} d a live index =
    rw (typed_node_live s a ValueType.array live, at)
      (at_loop-value_at s a.generation index (s.nodes a.id).first_child (kids a.id) live.1.0
        live.1.1 (d.forest.chained a.id live.1.2))
