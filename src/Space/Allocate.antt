-- ===== src/Space/Allocate.antt =====
-- `allocate_node`, `allocate_string` and `copy_string_trusted` of src/slab.cpp, on every branch.
use slabjson.Prelude.{
  ℕ, suc, ◌+◌, ◌-◌, ◌*◌, ◌≤◌, ◌<◌, ◌≡◌, refl, ap, subst, ◌⊎◌, inl, inr, true, false, [], ◌∷◌, arith,
  sub_size-eq, length,
}
use slabjson.Error.{error_at, out_of_memory, invalid_argument, string_capacity_exceeded}
use slabjson.Result.{Outcome, ok, err}
use slabjson.Utf8.{Bytes, byte_at}
use slabjson.Slab.{
  Slab, ValueType, StringRef, new_node, update, allocate_node, can_allocate_node, allocate_string,
  copy_bytes, copy_string_trusted, read_bytes, view_string,
}
use slabjson.Space.Bounds.{Fits, free-eq, between-eq}
use slabjson.Space.Growth.{Extends, Stored, view_string-Extends}

-- Room for one more node.
abbrev pub NodeRoom : Slab → Type 0
NodeRoom s = (s.node_count + 1) * 24 + s.string_bytes_used ≤ s.capacity

-- The slab with one more node.
abbrev pub allocated : ValueType → Slab → Slab
allocated type s = record s {
  nodes = update s.nodes s.node_count (record new_node { type = type });
  node_count = s.node_count + 1;
}

pub can_allocate_node_iff :
    {s : Slab}
    → Fits s
    → ((can_allocate_node s ≡ true) × (s.valid ≡ true) × NodeRoom s)
      ⊎ ((can_allocate_node s ≡ false) × ((s.valid ≡ false) ⊎ ¬ (NodeRoom s)))
unfolding can_allocate_node
can_allocate_node_iff {s} f = ground (arith, free-eq f)

-- What `allocate_node` returns: a node exactly if the slab is valid and has room for it.
abbrev pub Allocates : ValueType → Slab → Outcome Slab ℕ → Type 0
Allocates type s r =
    ((s.valid ≡ true) × NodeRoom s × (r ≡ (ok s.node_count, allocated type s)))
    ⊎ (((s.valid ≡ true) × (¬ (NodeRoom s)) × (r ≡ (err (error_at out_of_memory 0), s)))
        ⊎ ((s.valid ≡ false) × (r ≡ (err (error_at invalid_argument 0), s))))

-- Within the bounds of a slab, `allocate_node` returns the next number and counts it, without
-- wrapping, exactly if the slab is valid and has room for a node; it fails and changes nothing
-- otherwise.
pub allocate_node-Allocates :
    (type : ValueType) {s : Slab} → Fits s → Allocates type s (allocate_node type s)
unfolding allocate_node
allocate_node-Allocates type {s} f = ground (arith, can_allocate_node_iff f)

pub allocated-Fits : (type : ValueType) {s : Slab} → Fits s → NodeRoom s → Fits (allocated type s)
allocated-Fits type f r = record {
  small = f.small;
  room = r;
  generation_pos = f.generation_pos;
  generation_small = f.generation_small;
}

-- Room for a string of `n` bytes.
abbrev pub StringRoom : Slab → ℕ → Type 0
StringRoom s n = s.node_count * 24 + s.string_bytes_used + n ≤ s.capacity

abbrev pub string_at : Slab → ℕ → StringRef
string_at s n = record { offset = s.capacity - s.string_bytes_used - n; length = n }

abbrev pub AllocatesString : ℕ → Slab → Outcome Slab StringRef → Type 0
AllocatesString n s r =
    ((s.valid ≡ true)
      × StringRoom s n
      × (r ≡ (ok (string_at s n), record s { string_bytes_used = s.string_bytes_used + n })))
    ⊎ (((s.valid ≡ true)
          × (¬ (StringRoom s n))
          × (r ≡ (err (error_at string_capacity_exceeded 0), s)))
        ⊎ ((s.valid ≡ false) × (r ≡ (err (error_at invalid_argument 0), s))))

-- Within the bounds of a slab, `allocate_string` takes the bytes below the strings, without
-- truncating the offset or the length, exactly if the slab is valid and they fit behind the nodes;
-- it fails and changes nothing otherwise.
pub allocate_string-AllocatesString :
    (n : ℕ) {s : Slab} → Fits s → AllocatesString n s (allocate_string n s)
unfolding allocate_string
allocate_string-AllocatesString n {s} f = ground (
  arith,
  free-eq f,
  between-eq f s.node_count f.room,
  sub_size-eq (s.capacity - s.string_bytes_used) n,
)

abbrev pub copied : Bytes → Slab → Slab
copied value s = record s {
  string_bytes_used = s.string_bytes_used + length value;
  bytes = copy_bytes (s.capacity - s.string_bytes_used - length value) value s.bytes;
}

abbrev pub Copies : Bytes → Slab → Outcome Slab StringRef → Type 0
Copies value s r =
    ((s.valid ≡ true)
      × StringRoom s (length value)
      × (r ≡ (ok (string_at s (length value)), copied value s)))
    ⊎ (((s.valid ≡ true)
          × (¬ (StringRoom s (length value)))
          × (r ≡ (err (error_at string_capacity_exceeded 0), s)))
        ⊎ ((s.valid ≡ false) × (r ≡ (err (error_at invalid_argument 0), s))))

pub copy_string_trusted-Copies :
    (value : Bytes) {s : Slab} → Fits s → Copies value s (copy_string_trusted value s)
unfolding copy_string_trusted
copy_string_trusted-Copies value {s} f =
    ground (arith, allocate_string-AllocatesString (length value) f)

-- The copy is read back, whatever was there before.
read_bytes-copy :
    (value rest : Bytes) (k o : ℕ) (bytes : ℕ → ℕ)
    → ((i : ℕ) → i < length rest → byte_at value (k + i) ≡ byte_at rest i)
    → k + length rest ≤ length value
    → read_bytes (copy_bytes o value bytes) (o + k) (length rest) ≡ rest
unfolding copy_bytes
read_bytes-copy value [] k o bytes h l = refl
read_bytes-copy value (x ∷ rest) k o bytes h l = ground (
  arith,
  h 0 (omega arith),
  byte_at_offset,
  same_offset,
  read_bytes-copy value rest (k + 1) o bytes (λ i m. next i m) (omega arith),
)
  where
    same_offset : o + k + 1 ≡ o + (k + 1)
    same_offset = omega arith

    byte_at_offset : byte_at value (o + k - o) ≡ x
    byte_at_offset = subst (λ i. byte_at value i ≡ x) (omega arith) (h 0 (omega arith))

    next : (i : ℕ) → i < length rest → byte_at value (k + 1 + i) ≡ byte_at rest i
    next i m = subst (λ j. byte_at value j ≡ byte_at rest i) (omega arith) (h (suc i) (omega arith))

module _ (value : Bytes) {s : Slab} (f : Fits s) (r : StringRoom s (length value)) where
  pub copied-Fits : Fits (copied value s)
  copied-Fits = record {
    small = f.small;
    room = omega (arith, f.room);
    generation_pos = f.generation_pos;
    generation_small = f.generation_small;
  }

  pub copied-Extends : Extends s (copied value s)
  unfolding copy_bytes
  copied-Extends = record {
    self_kept = refl;
    start_kept = refl;
    capacity_kept = refl;
    generation_kept = refl;
    valid_kept = refl;
    count_le = omega arith;
    used_le = omega arith;
    nodes_kept = λ i h. refl;
    bytes_kept = λ i h. ground (arith, f.room);
  }

  pub copied-Stored : Stored (copied value s) (string_at s (length value))
  copied-Stored = record { above = omega (arith, f.room); within = omega (arith, f.room) }

  -- Within the bounds of a slab with room for it, a copied text is read back as it was.
  pub view_string-copied : view_string (copied value s) (string_at s (length value)) ≡ value
  unfolding view_string
  view_string-copied = ground (
    arith,
    f.room,
    at_zero,
    read_bytes-copy value value 0 o s.bytes (λ i m. same i) (omega arith),
  )
    where
      o : ℕ
      o = s.capacity - s.string_bytes_used - length value

      at_zero : o + 0 ≡ o
      at_zero = omega arith

      same : (i : ℕ) → byte_at value (0 + i) ≡ byte_at value i
      same i = ap (byte_at value) (omega arith)

-- Within the bounds of a slab, after a successful `copy_string_trusted` the returned reference
-- reads as the copied text, and every text that was stored before reads as before.
pub view_string-copy_string_trusted :
    (value : Bytes) {s s' : Slab} {ref : StringRef}
    → Fits s
    → copy_string_trusted value s ≡ (ok ref, s')
    → (view_string s' ref ≡ value)
      × ((r : StringRef) → Stored s r → view_string s' r ≡ view_string s r)
view_string-copy_string_trusted value {s} {s'} {ref} f run =
    elim (copy_string_trusted-Copies value f) [
      | inr (inl (_, full, e)) ↦ absurd (cc)
      | inr (inr (_, e)) ↦ absurd (cc)
      | inl (_, room, e) ↦
          let same : copied value s ≡ s' = cc in
          let at : string_at s (length value) ≡ ref = cc in
          (
            subst (λ t. view_string t ref ≡ value) same
                (subst (λ r. view_string (copied value s) r ≡ value) at
                  (view_string-copied value f room)),
            λ r stored.
                subst (λ t. view_string t r ≡ view_string s r) same
                  (view_string-Extends r (copied-Extends value f room) stored),
          )
    ]
