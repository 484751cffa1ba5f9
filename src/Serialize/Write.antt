-- ===== src/Serialize/Write.antt =====
-- `Serializer::write` of src/serialize.cpp over any writer that keeps its contract.
use slabjson.Prelude.{
  ℕ, suc, ◌-◌, ◌*◌, ◌<◌, ◌≡◌, ◌≢◌, refl, sym, ap, subst, Bool, Option, List, [], ◌∷◌, append-nil,
  inl, ◌∈◌, length, arith,
}
use slabjson.Prelude.Walk.{first_mem}
use slabjson.Result.{ok}
use slabjson.Utf8.{Bytes}
use slabjson.Slab.{Slab, Value, null_slab}
use slabjson.Document.{IsDocument}
use slabjson.Forest.{Kids}
use slabjson.Forest.Ancestors.{LiveAt}
use slabjson.Forest.Basic.{id_ne_invalid, node_for_live}
use slabjson.Serialize.{serializer}
use slabjson.Serialize.Writers.{Writer}
use slabjson.Serialize.Graph.{Serializer, write, visit, climb}
use slabjson.Serialize.Emits.{Lawful, EmitsAs, Ends}
use slabjson.Serialize.Steps.{Formats, layout_of}
use slabjson.Serialize.Moves.{AtWork, climb-end}
use slabjson.Serialize.Run.{Inside, visit-EmitsAs}
use slabjson.Serialize.Rounds.{size, after-eq, size-le}
use slabjson.Json.{Json, print}
use slabjson.Json.Denotes.{Denotes}

-- The handle designates a node of the document, which stands for the value `j`.
pub record Stands (s : Slab) (kids : Kids) (value : Value) (j : Json) : Type 0 where
  pub document : IsDocument s kids
  pub owner : value.slab ≢ null_slab
  pub live : LiveAt s value.id value.generation
  pub denotes : Denotes s value.id j

mem-pos : (a : ℕ) (xs : List ℕ) → a ∈ xs → 0 < length xs
mem-pos a [] m = absurd m
mem-pos a (x ∷ xs) m = omega arith

module _ {s : Slab} {kids : Kids} {value : Value} {j : Json} (stands : Stands s kids value j)
    (pretty : Bool) (indent_spaces : ℕ) where
  abbrev z : Serializer
  z = serializer value pretty indent_spaces

  work : AtWork s kids z
  work = record { document = stands.document; valid = stands.live.0; fresh = stands.live.1 }

  root_Inside : (above : List ℕ) × Inside s z value.id 0 above
  root_Inside =
      let (above, w) = stands.document.forest.rooted value.id stands.live.2 in
      let m = first_mem w (id_ne_invalid value.id stands.document.fits stands.live.2) in
      (
        above,
        record {
          id_lt = stands.live.2;
          ancestry = w;
          root_above = m;
          depth_lt = mem-pos value.id above m;
        },
      )

  module _ {W : Type 0} {writer : Writer W} (law : Lawful writer) {to_chars : ℕ → Option Bytes}
      (formats : Formats to_chars) (utf8 graph : Bool) where
    end-EmitsAs :
        (fuel : ℕ)
        → EmitsAs law length (climb writer to_chars utf8 graph s z (suc fuel) value.id 0) []
    end-EmitsAs fuel =
        subst (λ m. EmitsAs law length m [])
          (sym (climb-end work graph writer to_chars utf8 fuel value.id 0 refl)) at_end
      where
        at_end : EmitsAs law length (λ w. (ok (writer.size w), w)) []
        at_end w xs k =
            subst (λ t. Ends law length t (ok (writer.size w), w)) (sym (append-nil xs))
              (inl (law.within w xs k, w, ap (λ n. (ok n, w)) (law.size_lem w xs k), k))

    visit_root-EmitsAs :
        EmitsAs law length
          (visit writer to_chars utf8 graph s z (2 * s.node_count) value.id 0)
          (print to_chars (layout_of z) 0 j)
    visit_root-EmitsAs =
        let (above, i) = root_Inside in
        let left = 2 * s.node_count - 2 * size j in
        let run =
          visit-EmitsAs law formats utf8 graph work length j (suc left) [] i stands.denotes
            (end-EmitsAs left) in
        let enough =
          size-le stands.document.fits j value.id stands.live.2 i.ancestry stands.denotes in
        subst
          (λ n.
            EmitsAs law length (visit writer to_chars utf8 graph s z n value.id 0)
              (print to_chars (layout_of z) 0 j))
          (omega (arith, after-eq j (suc left), enough))
          (subst (EmitsAs law length _) (append-nil (print to_chars (layout_of z) 0 j)) run)

    write-visit :
        write writer to_chars utf8 graph s z
        ≡ visit writer to_chars utf8 graph s z (2 * s.node_count) value.id 0
    unfolding write
    write-visit =
        ground (
          arith,
          node_for_live s value.id value.generation stands.live.0 stands.live.1 stands.live.2,
        )

    -- Over any writer that keeps the contract of writers, with or without the checks of texts and
    -- of links, `write` at a live node of a document that stands for a value appends the text of
    -- that value, as the recursive printer has it, and returns its length, if the text fits below
    -- the writer's limit. If it does not fit, a writer that checks makes `write` stop with
    -- `output_capacity_exceeded` behind a first part of the text. The loops never run out of
    -- rounds. Each finite double has a text.
    pub write-Ends :
        (w : W)
        → law.Written w []
        → Ends law length
            (print to_chars (layout_of z) 0 j)
            (write writer to_chars utf8 graph s z w)
    write-Ends w k =
        subst (λ m. Ends law length (print to_chars (layout_of z) 0 j) (m w)) (sym write-visit)
          (visit_root-EmitsAs w [] k)
