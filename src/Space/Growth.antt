-- ===== src/Space/Growth.antt =====
-- A slab that has only grown: what was stored before is still there.
use slabjson.Prelude.{ℕ, zero, suc, ◌+◌, ◌≤◌, ◌<◌, ◌≡◌, refl, ◌∙◌, arith}
use slabjson.Slab.{Slab, StringRef, read_bytes, view_string, rollback, checkpoint}
use slabjson.Space.Bounds.{Fits}

pub record Extends (s s' : Slab) : Type 0 where
  pub self_kept : s'.self ≡ s.self
  pub start_kept : s'.start ≡ s.start
  pub capacity_kept : s'.capacity ≡ s.capacity
  pub generation_kept : s'.generation ≡ s.generation
  pub valid_kept : s'.valid ≡ s.valid
  pub count_le : s.node_count ≤ s'.node_count
  pub used_le : s.string_bytes_used ≤ s'.string_bytes_used
  pub nodes_kept : (i : ℕ) → i < s.node_count → s'.nodes i ≡ s.nodes i
  pub bytes_kept : (i : ℕ) → s.capacity ≤ i + s.string_bytes_used → s'.bytes i ≡ s.bytes i

pub Extends-refl : (s : Slab) → Extends s s
Extends-refl s = record {
  self_kept = refl;
  start_kept = refl;
  capacity_kept = refl;
  generation_kept = refl;
  valid_kept = refl;
  count_le = omega arith;
  used_le = omega arith;
  nodes_kept = λ i h. refl;
  bytes_kept = λ i h. refl;
}

pub Extends-trans : {s t u : Slab} → Extends s t → Extends t u → Extends s u
Extends-trans {s} {t} {u} e k = record {
  self_kept = k.self_kept ∙ e.self_kept;
  start_kept = k.start_kept ∙ e.start_kept;
  capacity_kept = k.capacity_kept ∙ e.capacity_kept;
  generation_kept = k.generation_kept ∙ e.generation_kept;
  valid_kept = k.valid_kept ∙ e.valid_kept;
  count_le = omega (arith, e.count_le, k.count_le);
  used_le = omega (arith, e.used_le, k.used_le);
  nodes_kept = λ i h. k.nodes_kept i (omega (arith, e.count_le)) ∙ e.nodes_kept i h;
  bytes_kept = λ i h. k.bytes_kept i (omega (arith, e.used_le, e.capacity_kept)) ∙ e.bytes_kept i h;
}

-- A reference to bytes of the string area.
pub record Stored (s : Slab) (r : StringRef) : Type 0 where
  pub above : s.capacity ≤ r.offset + s.string_bytes_used
  pub within : r.offset + r.length ≤ s.capacity

pub read_bytes-agree :
    (f g : ℕ → ℕ) (n k : ℕ) → ((i : ℕ) → k ≤ i → f i ≡ g i) → read_bytes f k n ≡ read_bytes g k n
read_bytes-agree f g zero k h = refl
read_bytes-agree f g (suc n) k h =
    cc (h k (omega arith), read_bytes-agree f g n (k + 1) (λ i l. h i (omega arith)))

-- A stored text reads the same after any growth of the slab.
pub view_string-Extends :
    {s s' : Slab} (r : StringRef) → Extends s s' → Stored s r → view_string s' r ≡ view_string s r
unfolding view_string
view_string-Extends {s} {s'} r e st = ground (
  arith,
  e.capacity_kept,
  read_bytes-agree s'.bytes s.bytes r.length r.offset
      (λ i l. e.bytes_kept i (omega (arith, st.above))),
)

pub Stored-Extends : {s s' : Slab} {r : StringRef} → Extends s s' → Stored s r → Stored s' r
Stored-Extends e st = record {
  above = omega (arith, e.capacity_kept, e.used_le, st.above);
  within = omega (arith, e.capacity_kept, st.within);
}

-- Back to a checkpoint: growth since then is undone, and earlier content is kept.
pub rollback-Extends : {s s' : Slab} → Extends s s' → Extends s (rollback (checkpoint s) s')
unfolding rollback checkpoint
rollback-Extends {s} {s'} e = record {
  self_kept = e.self_kept;
  start_kept = e.start_kept;
  capacity_kept = e.capacity_kept;
  generation_kept = e.generation_kept;
  valid_kept = e.valid_kept;
  count_le = omega arith;
  used_le = omega arith;
  nodes_kept = e.nodes_kept;
  bytes_kept = e.bytes_kept;
}

pub rollback-Fits : {s s' : Slab} → Fits s → Extends s s' → Fits (rollback (checkpoint s) s')
unfolding rollback checkpoint
rollback-Fits {s} {s'} f e = record {
  small = omega (arith, f.small, e.capacity_kept);
  room = omega (arith, f.room, e.capacity_kept);
  generation_pos = omega (arith, f.generation_pos, e.generation_kept);
  generation_small = omega (arith, f.generation_small, e.generation_kept);
}
