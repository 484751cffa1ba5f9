-- ===== src/Forest.antt =====
-- The document that a slab holds: its nodes form a forest, and each container has a list of children.
-- The links of src/slab.cpp, src/array.cpp and src/object.cpp are one representation of it.
pub mod Basic
pub mod Ancestors
pub mod Links
pub mod Attach
pub mod Unlink
pub mod Detach
use slabjson.Prelude.{
  ℕ, zero, suc, ◌+◌, ◌≤◌, ◌<◌, ◌≡◌, ◌≢◌, refl, List, [], ◌∷◌, ◌++◌, ◌==◌, if◌then◌else◌, last_or,
  ◌∈◌,
}
use slabjson.Prelude.Walk.{Walk}
use slabjson.Slab.{Slab, Node, ValueType, array, object, invalid_node_id}

abbrev pub next_of : Slab → ℕ → ℕ
next_of s i = (s.nodes i).next_sibling

abbrev pub parent_of : Slab → ℕ → ℕ
parent_of s i = (s.nodes i).parent

-- From `n` by `next_sibling` through the nodes `xs`.
abbrev pub Chain : Slab → ℕ → List ℕ → Type 0
Chain s = Walk invalid_node_id s.node_count (next_of s)

-- From `n` by `parent` through the nodes `xs` to a root.
abbrev pub Ancestry : Slab → ℕ → List ℕ → Type 0
Ancestry s = Walk invalid_node_id s.node_count (parent_of s)

-- The children of each node, in order.
abbrev pub Kids : Type 0
Kids = ℕ → List ℕ

abbrev pub IsContainer : ValueType → Type 0
IsContainer ValueType.array = Unit {0}
IsContainer ValueType.object = Unit {0}
IsContainer _ = ⊥

pub record IsForest (s : Slab) (kids : Kids) : Type 0 where
  pub beyond : (p : ℕ) → s.node_count ≤ p → kids p ≡ []
  pub chained : (p : ℕ) → p < s.node_count → Chain s (s.nodes p).first_child (kids p)
  pub ended : (p : ℕ) → p < s.node_count → (s.nodes p).last_child ≡ last_or invalid_node_id (kids p)
  pub owned : (p c : ℕ) → p < s.node_count → c ∈ kids p → parent_of s c ≡ p
  pub listed :
      (c : ℕ)
      → c < s.node_count
      → parent_of s c ≢ invalid_node_id
      → (parent_of s c < s.node_count) × (c ∈ kids (parent_of s c))
  pub rooted : (c : ℕ) → c < s.node_count → (xs : List ℕ) × Ancestry s c xs
  pub containing : (p c : ℕ) → p < s.node_count → c ∈ kids p → IsContainer (s.nodes p).type

-- A node without links.
abbrev pub Bare : Node → Type 0
Bare n =
    (n.parent ≡ invalid_node_id)
    × (n.first_child ≡ invalid_node_id)
    × (n.last_child ≡ invalid_node_id)
    × (n.next_sibling ≡ invalid_node_id)

-- The children lists with `c` at the end of those of `p`.
abbrev pub with_child : Kids → ℕ → ℕ → Kids
with_child kids p c i = if i == p then kids p ++ (c ∷ []) else kids i
