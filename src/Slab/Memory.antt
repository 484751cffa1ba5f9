-- ===== src/Slab/Memory.antt =====
-- src/slab.cpp: the storage of a slab, its errors, its nodes and its strings.
use slabjson.Prelude.{
  ℕ, zero, suc, ◌+◌, ◌-◌, ◌*◌, ◌%◌, ◌^◌, Bool, true, false, ◌&&◌, ◌||◌, Option, none, some, [], ◌∷◌,
  min, ltb, leb, ◌==◌, if◌then◌else◌, length, sub_size,
}
use slabjson.Error.{
  Error, error_at, no_error_yet, is_ok, invalid_argument, out_of_memory, string_capacity_exceeded,
  invalid_utf8,
}
use slabjson.Result.{Result, Op, ok, err, pure, fail, ◌>>=◌}
use slabjson.Utf8.{Bytes, byte_at, invalid_utf8_offset}
use slabjson.Slab.Data.{
  ValueType, max_storage_bytes, node_size, node_align, StringRef, StoredString, Node, new_node,
  Slab, Checkpoint,
}

-- `std::align(8, 24, start, size)`: the bytes to skip, if a node fits behind them.
abbrev pub align_pad : ℕ → ℕ
align_pad start = (node_align - start % node_align) % node_align

unfoldable pub initialize : ℕ → ℕ → Slab → Slab
initialize start size s =
    let cleared : Slab = record s {
      start = 0;
      capacity = 0;
      string_bytes_used = 0;
      node_count = 0;
      error = no_error_yet;
      valid = false;
    } in
    let available = min (size - align_pad start) max_storage_bytes in
    if size == 0
    then cleared
    else if ltb size (align_pad start + node_size)
    then cleared
    else if ltb available node_size
    then cleared
    else record cleared { start = start + align_pad start; capacity = available; valid = true }

-- The constructor, on a slab with the fields' initial values.
unfoldable pub construct : ℕ → ℕ → Slab → Slab
construct = initialize

unfoldable pub status : Slab → Result (Unit {0})
status s = if is_ok s.error.code then ok tt else err s.error

unfoldable pub clear_error : Slab → Slab
clear_error s = record s { error = no_error_yet }

unfoldable pub next_generation : ℕ → ℕ
next_generation g = if (g + 1) % 2 ^ 32 == 0 then 1 else (g + 1) % 2 ^ 32

unfoldable pub reset : Slab → Slab
reset s = record (clear_error (record s { string_bytes_used = 0; node_count = 0 })) {
  generation = next_generation s.generation;
}

unfoldable pub used_bytes : Slab → ℕ
used_bytes s = s.node_count * node_size + s.string_bytes_used

abbrev pub capacity_bytes : Slab → ℕ
capacity_bytes s = s.capacity

unfoldable pub remaining_bytes : Slab → ℕ
remaining_bytes s = sub_size s.capacity (used_bytes s)

-- The first error stays until it is cleared.
unfoldable pub record_error : Error → Slab → Error × Slab
record_error e s = if is_ok s.error.code then (e, record s { error = e }) else (s.error, s)

unfoldable pub checkpoint : Slab → Checkpoint
checkpoint s = record { string_bytes_used = s.string_bytes_used; node_count = s.node_count }

unfoldable pub rollback : Checkpoint → Slab → Slab
rollback c s = record s { string_bytes_used = c.string_bytes_used; node_count = c.node_count }

-- A null pointer is `none`.
unfoldable pub node_for : Slab → ℕ → ℕ → Option Node
node_for s id generation =
    if s.valid && (generation == s.generation && ltb id s.node_count)
    then some (s.nodes id)
    else none

abbrev pub update : (ℕ → Node) → ℕ → Node → ℕ → Node
update nodes id n i = if i == id then n else nodes i

-- A write through the pointer to the node `id`.
unfoldable pub modify : ℕ → (Node → Node) → Slab → Slab
modify id f s = record s { nodes = update s.nodes id (f (s.nodes id)) }

unfoldable pub can_allocate_node : Slab → Bool
can_allocate_node s =
    s.valid && leb ((s.node_count + 1) * node_size) (sub_size s.capacity s.string_bytes_used)

unfoldable pub allocate_node : ValueType → Op Slab ℕ
allocate_node type s =
    if s.valid
    then if can_allocate_node s
      then (
        ok s.node_count,
        record s {
          nodes = update s.nodes s.node_count (record new_node { type = type });
          node_count = (s.node_count + 1) % 2 ^ 16;
        },
      )
      else (err (error_at out_of_memory 0), s)
    else (err (error_at invalid_argument 0), s)

unfoldable pub allocate_string : ℕ → Op Slab StringRef
allocate_string length s =
    if s.valid
    then if ltb 65535 length
      then (err (error_at string_capacity_exceeded 0), s)
      else if ltb (sub_size (sub_size s.capacity s.string_bytes_used) (s.node_count * node_size))
          length
      then (err (error_at string_capacity_exceeded 0), s)
      else (
        ok (record {
          offset = sub_size (sub_size s.capacity s.string_bytes_used) length % 2 ^ 16;
          length = length % 2 ^ 16;
        }),
        record s { string_bytes_used = s.string_bytes_used + length },
      )
    else (err (error_at invalid_argument 0), s)

-- `std::memmove(storage + offset, value.data(), value.size())`
unfoldable pub copy_bytes : ℕ → Bytes → (ℕ → ℕ) → ℕ → ℕ
copy_bytes offset value bytes i =
    if leb offset i && ltb i (offset + length value) then byte_at value (i - offset) else bytes i

unfoldable pub copy_string_trusted : Bytes → Op Slab StringRef
copy_string_trusted value = do
  ref ← allocate_string (length value)
  λ s. (ok ref, record s { bytes = copy_bytes ref.offset value s.bytes })

unfoldable pub string_flags : Bytes → ℕ
string_flags [] = 0
string_flags (byte ∷ rest) =
    if byte == b'"' || (byte == b'\\' || ltb byte 0x20) then 1 else string_flags rest

unfoldable pub string_needs_json_escape : ℕ → Bool
string_needs_json_escape flags = if flags % 2 == 0 then false else true

unfoldable pub store_string_with_flags : Bytes → Op Slab StoredString
store_string_with_flags value = elim (invalid_utf8_offset value) [
  | some k ↦ fail (error_at invalid_utf8 k)
  | none ↦ do
    ref ← copy_string_trusted value
    pure (record { ref = ref; flags = string_flags value })
]

-- The bytes from `offset` on.
abbrev pub read_bytes : (ℕ → ℕ) → ℕ → ℕ → Bytes
read_bytes bytes offset zero = []
read_bytes bytes offset (suc n) = bytes offset ∷ read_bytes bytes (offset + 1) n

unfoldable pub view_string : Slab → StringRef → Bytes
view_string s ref =
    if ltb s.capacity ref.offset || ltb (s.capacity - ref.offset) ref.length
    then []
    else read_bytes s.bytes ref.offset ref.length
