-- ===== src/Document/Begin.antt =====
-- The empty documents after `initialize` and `reset`, and the handles from before (src/slab.cpp).
use slabjson.Prelude.{ℕ, ◌+◌, ◌%◌, ◌^◌, ◌≤◌, ◌<◌, ◌≡◌, ◌≢◌, refl, ◌⊎◌, true, false, none, arith}
use slabjson.Slab.{
  Slab, Handle, initialize, reset, next_generation, clear_error, node_for, align_pad,
}
use slabjson.Space.{Fits, initialize-Fits, reset-Fits, Extends}
use slabjson.Value.{handle_node}
use slabjson.Forest.Basic.{no_kids, empty-IsForest}
use slabjson.Document.{IsDocument}

-- Within the bounds of a slab, `reset` gives the empty document.
pub reset-IsDocument : {s : Slab} → Fits s → IsDocument (reset s) no_kids
unfolding reset clear_error
reset-IsDocument {s} f = record {
  fits = reset-Fits f;
  forest = empty-IsForest _ refl;
  nodes = λ i h. elim h [ ];
}

next_generation-ne : (g : ℕ) → 0 < g → g < 2 ^ 32 → next_generation g ≢ g
unfolding next_generation
next_generation-ne g low high = ground arith

-- A handle of the generation before a `reset` designates nothing in any slab that has grown from
-- the reset one.
pub handle_node-stale :
    {s t : Slab} (h : Handle)
    → Fits s
    → Extends (reset s) t
    → h.generation ≡ s.generation
    → handle_node t h ≡ none
unfolding handle_node node_for reset clear_error
handle_node-stale {s} {t} h f x e =
    ground (
      arith,
      x.generation_kept,
      next_generation-ne s.generation f.generation_pos f.generation_small,
    )

initialize-empty : (start size : ℕ) (s : Slab) → (initialize start size s).node_count ≡ 0
unfolding initialize
initialize-empty start size s = ground arith

-- For a generation of 32 bits that is not zero, `initialize` gives an empty document. The slab is
-- valid, its storage aligned and within the buffer, if a node fits behind the alignment, and
-- invalid if not.
pub initialize-IsDocument :
    (start size : ℕ) (s : Slab)
    → 0 < s.generation
    → s.generation < 2 ^ 32
    → IsDocument (initialize start size s) no_kids
      × ((((initialize start size s).valid ≡ true)
            × (align_pad start + 24 ≤ size)
            × ((initialize start size s).start % 8 ≡ 0)
            × (start ≤ (initialize start size s).start)
            × ((initialize start size s).start + (initialize start size s).capacity ≤ start + size))
          ⊎ (((initialize start size s).valid ≡ false) × (size < align_pad start + 24)))
unfolding initialize
initialize-IsDocument start size s low high = (
  record {
    fits = initialize-Fits start size s low high;
    forest = empty-IsForest (initialize start size s) (initialize-empty start size s);
    nodes = λ i h. absurd (omega (arith, initialize-empty start size s));
  },
  ground arith,
)
