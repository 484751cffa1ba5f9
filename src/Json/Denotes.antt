-- ===== src/Json/Denotes.antt =====
-- What a node of a document (include/slabjson/slab.hpp) stands for, read off its links.
use slabjson.Prelude.{ℕ, ◌<◌, ◌≡◌, Bool, true, false}
use slabjson.Slab.{Slab, Node, ValueType, array, object, invalid_node_id, view_string}
use slabjson.Forest.{parent_of, next_of}
use slabjson.Document.Reads.{Holds}
use slabjson.Json.{Label, Json, Entries, leaf, container, no_entries, entry}

abbrev pub container_type : Bool → ValueType
container_type true = object
container_type false = array

abbrev pub Labels : (is_object : Bool) → Label is_object → Slab → Node → Type 0
Labels true key s n = view_string s n.key ≡ key
Labels false _ s n = Unit {0}

module _ (s : Slab) where
  unfoldable mutual
    pub Denotes : ℕ → Json → Type 0
    Denotes id (leaf v) = Holds v s (s.nodes id)
    Denotes id (container b es) =
        ((s.nodes id).type ≡ container_type b) × DenotesEntries b id (s.nodes id).first_child es

    -- The entries of the container `parent` from the child `id` on.
    pub DenotesEntries : (is_object : Bool) → ℕ → ℕ → Entries is_object → Type 0
    DenotesEntries b parent id no_entries = id ≡ invalid_node_id
    DenotesEntries b parent id (entry l j es) =
        (id < s.node_count)
        × (parent_of s id ≡ parent)
        × Labels b l s (s.nodes id)
        × Denotes id j
        × DenotesEntries b parent (next_of s id) es
