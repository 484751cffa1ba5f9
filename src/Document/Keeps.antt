-- ===== src/Document/Keeps.antt =====
-- The content of the nodes through the growth of the slab and through attachments (src/slab.cpp).
use slabjson.Prelude.{ℕ, ◌≡◌, subst, ◌∙◌, ◌==◌, if◌then◌else◌}
use slabjson.Slab.{Slab, Node, ValueType, NumberKind, Payload, StringRef, string_value}
use slabjson.Space.{Extends, view_string-Extends}
use slabjson.Container.Attach.{attached}
use slabjson.Forest.Links.{append_type, append_key, append_payload, append_aux}
use slabjson.Document.{Text, PayloadFits, NodeFits}
use slabjson.Document.Change.{
  SameStore, modify-SameStore, append-SameStore, view_string-SameStore, set_key_links,
  set_key_content,
}
use slabjson.Document.Scalar.{Scalar, text, boolean, signed, unsigned, floating, nothing}
use slabjson.Document.Reads.{Holds}

pub SameStore-trans : {s t u : Slab} → SameStore s t → SameStore t u → SameStore s u
SameStore-trans {s} {t} {u} e k = record {
  self_same = k.self_same ∙ e.self_same;
  start_same = k.start_same ∙ e.start_same;
  capacity_same = k.capacity_same ∙ e.capacity_same;
  bytes_same = k.bytes_same ∙ e.bytes_same;
  used_same = k.used_same ∙ e.used_same;
  count_same = k.count_same ∙ e.count_same;
  generation_same = k.generation_same ∙ e.generation_same;
  error_same = k.error_same ∙ e.error_same;
  valid_same = k.valid_same ∙ e.valid_same;
}

module _ (p c : ℕ) (r : StringRef) (flags : ℕ) (s : Slab) where
  pub attached-SameStore : SameStore s (attached p c r flags s)
  attached-SameStore = SameStore-trans (modify-SameStore s c _) (append-SameStore _ p c)

  pub attached_key :
      (i : ℕ) → ((attached p c r flags s).nodes i).key ≡ (if i == c then r else (s.nodes i).key)
  attached_key i = append_key _ p c i ∙ (set_key_content s c r flags i).4

  pub attached_type : (i : ℕ) → ((attached p c r flags s).nodes i).type ≡ (s.nodes i).type
  attached_type i = append_type _ p c i ∙ (set_key_links s c r flags i).0

  attached_aux : (i : ℕ) → ((attached p c r flags s).nodes i).aux ≡ (s.nodes i).aux
  attached_aux i = append_aux _ p c i ∙ (set_key_content s c r flags i).0

  attached_payload : (i : ℕ) → ((attached p c r flags s).nodes i).payload ≡ (s.nodes i).payload
  attached_payload i = append_payload _ p c i ∙ (set_key_content s c r flags i).1

  -- An attachment leaves the content of every node as it is.
  pub attached-Holds :
      (v : Scalar) (i : ℕ)
      → Holds v s (s.nodes i)
      → Holds v (attached p c r flags s) ((attached p c r flags s).nodes i)
  attached-Holds (text t) i (k, q, e, w) = (
    attached_type i ∙ k,
    q,
    attached_payload i ∙ e,
    view_string-SameStore attached-SameStore q ∙ w,
  )
  attached-Holds (boolean b) i (k, e) = (attached_type i ∙ k, attached_payload i ∙ e)
  attached-Holds (signed x) i (k, a, e) =
      (attached_type i ∙ k, attached_aux i ∙ a, attached_payload i ∙ e)
  attached-Holds (unsigned x) i (k, a, e) =
      (attached_type i ∙ k, attached_aux i ∙ a, attached_payload i ∙ e)
  attached-Holds (floating x) i (k, a, e) =
      (attached_type i ∙ k, attached_aux i ∙ a, attached_payload i ∙ e)
  attached-Holds nothing i k = attached_type i ∙ k

stored_view :
    {s : Slab} (type : ValueType) (kind : NumberKind) (p : Payload) (q : StringRef) (flags : ℕ)
    → PayloadFits s type kind p flags
    → type ≡ ValueType.string
    → p ≡ string_value q
    → Text s q flags
stored_view {s} ValueType.string kind p q flags (r, e, t) k w = subst (λ x. Text s x flags) (cc) t
stored_view ValueType.invalid kind p q flags h k w = cc
stored_view ValueType.null kind p q flags h k w = cc
stored_view ValueType.bool kind p q flags h k w = cc
stored_view ValueType.number kind p q flags h k w = cc
stored_view ValueType.array kind p q flags h k w = cc
stored_view ValueType.object kind p q flags h k w = cc

-- A growth of the slab leaves the content of the nodes before it as it is.
pub Extends-Holds :
    {s t : Slab} (v : Scalar) (n : Node) → Extends s t → NodeFits s n → Holds v s n → Holds v t n
Extends-Holds (text x) n e h (k, q, p, w) =
    let stored = stored_view n.type n.aux n.payload q n.value_flags h.payload k p in
    (k, q, p, view_string-Extends q e stored.stored ∙ w)
Extends-Holds (boolean b) n e h k = k
Extends-Holds (signed x) n e h k = k
Extends-Holds (unsigned x) n e h k = k
Extends-Holds (floating x) n e h k = k
Extends-Holds nothing n e h k = k

-- A statement on a node that outlasts growth and attachments.
pub record Lasting (Content : Slab → Node → Type 0) : Type 0 where
  pub attached_keeps :
      (p c : ℕ) (r : StringRef) (flags : ℕ) (s : Slab) (i : ℕ)
      → Content s (s.nodes i)
      → Content (attached p c r flags s) ((attached p c r flags s).nodes i)
  pub growth_keeps :
      {s t : Slab} (n : Node) → Extends s t → NodeFits s n → Content s n → Content t n

pub Holds-Lasting : (v : Scalar) → Lasting (Holds v)
Holds-Lasting v = record {
  attached_keeps = λ p c r flags s i h. attached-Holds p c r flags s v i h;
  growth_keeps = λ n e f h. Extends-Holds v n e f h;
}

-- The node has the type.
abbrev pub OfType : ValueType → Slab → Node → Type 0
OfType type s n = n.type ≡ type

pub OfType-Lasting : (type : ValueType) → Lasting (OfType type)
OfType-Lasting type = record {
  attached_keeps = λ p c r flags s i h. attached_type p c r flags s i ∙ h;
  growth_keeps = λ n e f h. h;
}
