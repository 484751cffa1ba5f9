-- ===== src/Serialize/Graph.antt =====
-- src/serialize.cpp: the walk of `Serializer::write` over the nodes below a value. Its two instances
-- differ in what they check: the UTF-8 of texts and the links of the nodes.
use slabjson.Prelude.{
  ℕ, zero, suc, ◌+◌, ◌*◌, ◌%◌, ◌^◌, Bool, true, false, not, ◌&&◌, Option, none, some, [], ◌∷◌, ◌==◌,
  if◌then◌else◌, sub_size,
}
use slabjson.Error.{error_at, internal_error, invalid_handle}
use slabjson.Result.{Op, ok, pure, fail, ◌>>◌}
use slabjson.Utf8.{Bytes}
use slabjson.Slab.{
  ValueType, array, object, type_eq, invalid_node_id, Slab, Node, node_for, view_string, null_slab,
}
use slabjson.Value.{bool_of, string_of}
use slabjson.Serialize.Writers.{Writer}
use slabjson.Serialize.Text.{attempt, write_string, write_number, write_indent}

pub record Serializer : Type 0 where
  pub slab : ℕ
  pub root_id : ℕ
  pub generation : ℕ
  pub pretty : Bool
  pub indent_spaces : ℕ

abbrev pub null_text : Bytes
null_text = b'n' ∷ b'u' ∷ b'l' ∷ b'l' ∷ []

abbrev pub bool_text : Bool → Bytes
bool_text true = b't' ∷ b'r' ∷ b'u' ∷ b'e' ∷ []
bool_text false = b'f' ∷ b'a' ∷ b'l' ∷ b's' ∷ b'e' ∷ []

abbrev pub opening : Bool → ℕ
opening is_object = if is_object then b'{' else b'['

abbrev pub closing : Bool → ℕ
closing is_object = if is_object then b'}' else b']'

abbrev pub is_object_type : ValueType → Bool
is_object_type type = type_eq type object

-- `ValidateGraph ? node_for(id, generation_) : node_at_unchecked(id)`
unfoldable pub fetch : Bool → Slab → Serializer → ℕ → Option Node
fetch graph s z id = if graph then node_for s id z.generation else some (s.nodes id)

-- A child or a sibling, with the check of its parent.
unfoldable pub fetch_child : Bool → Slab → Serializer → ℕ → ℕ → Option Node
fetch_child graph s z parent_id id = elim (fetch graph s z id) [
  | none ↦ none
  | some n ↦ if graph && not (n.parent == parent_id) then none else some n
]

-- The node that the inner loop has come from, with the check that it has a parent.
unfoldable pub fetch_inner : Bool → Slab → Serializer → ℕ → Option Node
fetch_inner graph s z id = elim (fetch graph s z id) [
  | none ↦ none
  | some n ↦ if graph && n.parent == invalid_node_id then none else some n
]

-- Its parent, with the check that it is a container.
unfoldable pub fetch_parent : Bool → Slab → Serializer → ℕ → Option Node
fetch_parent graph s z id = elim (fetch graph s z id) [
  | none ↦ none
  | some n ↦
      if graph && (not (type_eq n.type array) && not (type_eq n.type object)) then none else some n
]

-- `++depth` and `depth - 1`
abbrev pub deeper : ℕ → ℕ
deeper depth = (depth + 1) % 2 ^ 64

abbrev pub shallower : ℕ → ℕ
shallower depth = sub_size depth 1

module _ {W : Type 0} (writer : Writer W) (to_chars : ℕ → Option Bytes) (utf8 graph : Bool)
    (s : Slab) (z : Serializer) where
  -- `if (pretty_)`: a line break and the indentation.
  unfoldable pub new_line : ℕ → Op W (Unit {0})
  new_line depth = elim z.pretty [
    | false ↦ pure tt
    | true ↦ attempt (writer.append_char 10) >> attempt (write_indent writer z.indent_spaces depth)
  ]

  unfoldable pub write_member_prefix : Node → Op W (Unit {0})
  write_member_prefix child =
      write_string writer child.key_flags utf8 (view_string s child.key)
      >> attempt (writer.append_char b':')
      >> elim z.pretty [ false ↦ pure tt | true ↦ attempt (writer.append_char b' ') ]

  -- `if (is_object)`
  unfoldable pub member_prefix : Bool → Node → Op W (Unit {0})
  member_prefix is_object child = elim is_object [
    | false ↦ pure tt
    | true ↦ write_member_prefix child
  ]

  -- The line break before a closing bracket. At depth 0 there is none.
  unfoldable pub last_line : ℕ → Op W (Unit {0})
  last_line depth = elim z.pretty [
    | false ↦ pure tt
    | true ↦ elim (depth == 0) [
      | true ↦ fail (error_at internal_error 0)
      | false ↦ new_line (shallower depth)
    ]
  ]

  -- The case of a container: `empty` goes on behind one without children, `full` with the first child.
  unfoldable pub enter : Bool → ℕ → ℕ → Node → Op W ℕ → Op W ℕ → Op W ℕ
  enter is_object current depth n empty full =
      attempt (writer.append_char (opening is_object)) >> elim (n.first_child == invalid_node_id) [
        | true ↦ attempt (writer.append_char (closing is_object)) >> empty
        | false ↦ elim (fetch_child graph s z current n.first_child) [
          | none ↦ fail (error_at internal_error 0)
          | some child ↦ new_line (deeper depth) >> member_prefix is_object child >> full
        ]
      ]

  -- The outer loop comes to a node in `visit`; the inner loop is `climb`. A document takes `2 * node_count` rounds at most (Serialize/Rounds.antt).
  unfoldable mutual
    pub visit : ℕ → ℕ → ℕ → Op W ℕ
    visit zero current depth = fail (error_at internal_error 0)
    visit (suc fuel) current depth = elim (fetch graph s z current) [
      | none ↦ fail (error_at internal_error 0)
      | some n ↦ elim n.type [
        | ValueType.invalid ↦ fail (error_at invalid_handle 0)
        | ValueType.null ↦ attempt (writer.append null_text) >> (λ w. climb fuel current depth w)
        | ValueType.bool ↦
            attempt (writer.append (bool_text (bool_of n.payload)))
            >> (λ w. climb fuel current depth w)
        | ValueType.number ↦ write_number writer to_chars n >> (λ w. climb fuel current depth w)
        | ValueType.string ↦
            write_string writer n.value_flags utf8 (view_string s (string_of n.payload))
            >> (λ w. climb fuel current depth w)
        | ValueType.array ↦
            enter false current depth n (λ w. climb fuel current depth w)
              (λ w. visit fuel n.first_child (deeper depth) w)
        | ValueType.object ↦
            enter true current depth n (λ w. climb fuel current depth w)
              (λ w. visit fuel n.first_child (deeper depth) w)
      ]
    ]

    pub climb : ℕ → ℕ → ℕ → Op W ℕ
    climb zero current depth = fail (error_at internal_error 0)
    climb (suc fuel) current depth = elim (current == z.root_id) [
      | true ↦ λ w. (ok (writer.size w), w)
      | false ↦ elim (fetch_inner graph s z current) [
        | none ↦ fail (error_at internal_error 0)
        | some n ↦ elim (fetch_parent graph s z n.parent) [
          | none ↦ fail (error_at internal_error 0)
          | some parent ↦ elim (n.next_sibling == invalid_node_id) [
            | true ↦
                last_line depth
                >> attempt (writer.append_char (closing (is_object_type parent.type)))
                >> (λ w. climb fuel n.parent (shallower depth) w)
            | false ↦ elim (fetch_child graph s z n.parent n.next_sibling) [
              | none ↦ fail (error_at internal_error 0)
              | some sibling ↦
                  attempt (writer.append_char b',')
                  >> new_line depth
                  >> member_prefix (is_object_type parent.type) sibling
                  >> (λ w. visit fuel n.next_sibling depth w)
            ]
          ]
        ]
      ]
    ]

  -- The rounds that are enough for a document.
  abbrev pub rounds : ℕ
  rounds = 2 * s.node_count

  unfoldable pub write : Op W ℕ
  write = elim (z.slab == null_slab) [
    | true ↦ fail (error_at invalid_handle 0)
    | false ↦ elim graph [
      | false ↦ visit rounds z.root_id 0
      | true ↦ elim (node_for s z.root_id z.generation) [
        | none ↦ fail (error_at invalid_handle 0)
        | some _ ↦ visit rounds z.root_id 0
      ]
    ]
  ]
