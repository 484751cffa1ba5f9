-- ===== src/Space/Bounds.antt =====
-- The bounds on the fields of a slab (src/slab.cpp): nodes from the front and strings from the back
-- share the storage and never meet.
use slabjson.Prelude.{ℕ, ◌+◌, ◌-◌, ◌*◌, ◌^◌, ◌≤◌, ◌<◌, ◌≡◌, arith, sub_size, sub_size-eq}
use slabjson.Slab.{
  Slab, initialize, reset, next_generation, clear_error, used_bytes, remaining_bytes,
}

pub record Fits (s : Slab) : Type 0 where
  pub small : s.capacity ≤ 65535
  pub room : s.node_count * 24 + s.string_bytes_used ≤ s.capacity
  pub generation_pos : 0 < s.generation
  pub generation_small : s.generation < 2 ^ 32

module _ {s : Slab} (f : Fits s) where
  pub free-eq : sub_size s.capacity s.string_bytes_used ≡ s.capacity - s.string_bytes_used
  free-eq = sub_size-eq s.capacity s.string_bytes_used (omega arith) (omega arith)

  -- The free space between the nodes and the strings.
  pub between-eq :
      (n : ℕ)
      → n * 24 + s.string_bytes_used ≤ s.capacity
      → sub_size (sub_size s.capacity s.string_bytes_used) (n * 24)
        ≡ s.capacity - s.string_bytes_used - n * 24
  between-eq n h =
      rw free-eq
        (sub_size-eq (s.capacity - s.string_bytes_used) (n * 24) (omega arith) (omega arith))

  pub remaining_bytes-eq : remaining_bytes s ≡ s.capacity - used_bytes s
  unfolding remaining_bytes used_bytes
  remaining_bytes-eq = sub_size-eq s.capacity (used_bytes s) (omega arith) (omega arith)

pub initialize-Fits :
    (start size : ℕ) (s : Slab)
    → 0 < s.generation
    → s.generation < 2 ^ 32
    → Fits (initialize start size s)
unfolding initialize
initialize-Fits start size s low high = ground arith

pub reset-Fits : {s : Slab} → Fits s → Fits (reset s)
unfolding reset clear_error next_generation
reset-Fits f = ground arith
