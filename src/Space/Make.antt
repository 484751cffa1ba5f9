-- ===== src/Space/Make.antt =====
-- The `make_` functions of src/slab.cpp: each adds one node without links, or changes nothing.
use slabjson.Prelude.{
  ℕ, ◌+◌, ◌*◌, ◌≤◌, ◌≡◌, ◌≢◌, refl, ◌⊎◌, inl, inr, Bool, true, false, fun_ext, arith, length, none,
  some, ℤ,
}
use slabjson.Error.{
  error_at, out_of_memory, invalid_argument, string_capacity_exceeded, invalid_utf8,
  non_finite_number,
}
use slabjson.Result.{Outcome, ok, err, and_then}
use slabjson.Utf8.{Bytes, invalid_utf8_offset}
use slabjson.Slab.{
  Slab, Node, ValueType, null, bool, number, string, array, object, signed_integer,
  unsigned_integer, floating_point, bool_value, signed_value, unsigned_value, double_value,
  string_value, new_node, update, modify, allocate_node, string_flags, Handle, make_value,
  make_object_handle, make_array_handle, is_finite, set_node_number_kind, make_null, make_bool,
  make_double, make_int64, make_uint64, store_payload, make_string, make_object, make_array,
}
use slabjson.Space.Bounds.{Fits, between-eq}
use slabjson.Space.Growth.{Extends}
use slabjson.Space.Allocate.{
  NodeRoom, allocated, allocated-Fits, string_at, copied, can_allocate_node_iff,
  allocate_node-Allocates, copy_string_trusted-Copies,
}

-- The slab with the node added.
abbrev pub with_node : Node → Slab → Slab
with_node n s = record s { nodes = update s.nodes s.node_count n; node_count = s.node_count + 1 }

pub update-update :
    (nodes : ℕ → Node) (i : ℕ) (a b : Node) → update (update nodes i a) i b ≡ update nodes i b
update-update nodes i a b = fun_ext λ j. ground arith

pub update_self : (nodes : ℕ → Node) (i : ℕ) (a : Node) → update nodes i a i ≡ a
update_self nodes i a = ground arith

pub update_ne : (nodes : ℕ → Node) (i j : ℕ) (a : Node) → j ≢ i → update nodes i a j ≡ nodes j
update_ne nodes i j a d = ground arith

pub record Grown (s s' : Slab) (n : Node) : Type 0 where
  pub extends : Extends s s'
  pub counted : s'.node_count ≡ s.node_count + 1
  pub node : s'.nodes s.node_count ≡ n
  pub error_kept : s'.error ≡ s.error
  pub fits : Fits s'
  pub live : s.valid ≡ true

pub with_node-Grown :
    (n : Node) {s : Slab} → Fits s → s.valid ≡ true → NodeRoom s → Grown s (with_node n s) n
with_node-Grown n {s} f v r = record {
  extends = record {
    self_kept = refl;
    start_kept = refl;
    capacity_kept = refl;
    generation_kept = refl;
    valid_kept = refl;
    count_le = omega arith;
    used_le = omega arith;
    nodes_kept = λ i h. ground arith;
    bytes_kept = λ i h. refl;
  };
  counted = refl;
  node = update_self s.nodes s.node_count n;
  error_kept = refl;
  fits = record {
    small = f.small;
    room = r;
    generation_pos = f.generation_pos;
    generation_small = f.generation_small;
  };
  live = v;
}

-- How a `make_` function ends that stores the node `n`.
abbrev pub Makes : Node → Slab → Outcome Slab Handle → Type 0
Makes n s r =
    ((s.valid ≡ true) × NodeRoom s × (r ≡ (ok (make_value s s.node_count), with_node n s)))
    ⊎ (((s.valid ≡ true) × (¬ (NodeRoom s)) × (r ≡ (err (error_at out_of_memory 0), s)))
        ⊎ ((s.valid ≡ false) × (r ≡ (err (error_at invalid_argument 0), s))))

module _ {s : Slab} (f : Fits s) where
  pub make_null-Makes : Makes new_node s (make_null s)
  unfolding make_null make_value
  make_null-Makes = ground (arith, allocate_node-Allocates null f)

  pub make_object-Makes : Makes (record new_node { type = object }) s (make_object s)
  unfolding make_object make_object_handle make_value
  make_object-Makes = ground (arith, allocate_node-Allocates object f)

  pub make_array-Makes : Makes (record new_node { type = array }) s (make_array s)
  unfolding make_array make_array_handle make_value
  make_array-Makes = ground (arith, allocate_node-Allocates array f)

  pub fill-Makes :
      (type : ValueType) (g : Node → Node)
      → Makes
          (g (record new_node { type = type }))
          s
          (and_then (allocate_node type s) (λ id s'. (ok (make_value s' id), modify id g s')))
  unfolding make_value modify
  fill-Makes type g = ground (
    arith,
    allocate_node-Allocates type f,
    update_self s.nodes s.node_count (record new_node { type = type }),
    update-update s.nodes s.node_count (record new_node { type = type })
        (g (record new_node { type = type })),
  )

  pub make_bool-Makes :
      (b : Bool) → Makes (record new_node { type = bool; payload = bool_value b }) s (make_bool b s)
  unfolding make_bool
  make_bool-Makes b = fill-Makes bool _

  pub make_int64-Makes :
      (i : ℤ)
      → Makes
          (record new_node { type = number; aux = signed_integer; payload = signed_value i })
          s
          (make_int64 i s)
  unfolding make_int64 set_node_number_kind
  make_int64-Makes i = fill-Makes number _

  pub make_uint64-Makes :
      (u : ℕ)
      → Makes
          (record new_node { type = number; aux = unsigned_integer; payload = unsigned_value u })
          s
          (make_uint64 u s)
  unfolding make_uint64 set_node_number_kind
  make_uint64-Makes u = fill-Makes number _

  pub make_double-Makes :
      (d : ℕ)
      → is_finite d ≡ true
      → Makes
          (record new_node { type = number; aux = floating_point; payload = double_value d })
          s
          (make_double d s)
  unfolding make_double set_node_number_kind
  make_double-Makes d h = rw (h, make_double) (fill-Makes number _)

  pub make_double_refused :
      (d : ℕ) → is_finite d ≡ false → make_double d s ≡ (err (error_at non_finite_number 0), s)
  unfolding make_double
  make_double_refused d h = rw h

  -- The node of a string, and the slab with both.
  abbrev pub string_node : Bytes → Node
  string_node value = record new_node {
    type = string;
    value_flags = string_flags value;
    payload = string_value (string_at s (length value));
  }

  abbrev pub with_string : Bytes → Slab
  with_string value = copied value (with_node (string_node value) s)

  -- Room for a node and the string.
  abbrev pub BothRoom : Bytes → Type 0
  BothRoom value = (s.node_count + 1) * 24 + s.string_bytes_used + length value ≤ s.capacity

  pub store_payload-allocated :
      (value : Bytes)
      → s.valid ≡ true
      → BothRoom value
      → store_payload value s.node_count (allocated string s)
        ≡ (ok (make_value s s.node_count), with_string value)
  unfolding store_payload make_value modify
  store_payload-allocated value v r = ground (
    arith,
    copy_string_trusted-Copies value (allocated-Fits string f (omega arith)),
    update_self s.nodes s.node_count (record new_node { type = string }),
    update-update s.nodes s.node_count (record new_node { type = string }) (string_node value),
  )

  -- How `make_string` ends. There is no internal error, and no branch leaves a node behind.
  abbrev pub MakesString : Bytes → Outcome Slab Handle → Type 0
  MakesString value r =
      ((s.valid ≡ true)
        × BothRoom value
        × (invalid_utf8_offset value ≡ none)
        × (r ≡ (ok (make_value s s.node_count), with_string value)))
      ⊎ (((s.valid ≡ false) × (r ≡ (err (error_at invalid_argument 0), s)))
          ⊎ (((k : ℕ) × (invalid_utf8_offset value ≡ some k)
                × (r ≡ (err (error_at invalid_utf8 k), s)))
              ⊎ (((¬ (NodeRoom s)) × (r ≡ (err (error_at out_of_memory 0), s)))
                  ⊎ ((¬ (BothRoom value)) × (r ≡ (err (error_at string_capacity_exceeded 0), s))))))

  -- Within the bounds of a slab, `make_string` stores a checked text behind one new node, exactly
  -- if the slab is valid, the text is UTF-8 and both fit; otherwise it fails with the error of the
  -- condition that does not hold and changes nothing, so it never leaves a node behind.
  pub make_string-MakesString : (value : Bytes) → MakesString value (make_string value s)
  unfolding make_string
  make_string-MakesString value = elim (can_allocate_node_iff f) [
    | inl (can, v, r) ↦ ground (
      arith,
      between-eq f (s.node_count + 1) r,
      allocate_node-Allocates string f,
      store_payload-allocated value v,
    )
    | inr (cannot, why) ↦ ground arith
  ]
