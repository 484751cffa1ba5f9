-- ===== src/Object/RoundTrip.antt =====
-- A value that an overload of `Object::add` has stored is read back by the getters (src/object.cpp).
use slabjson.Prelude.{
  ℕ, ◌<◌, ◌≡◌, refl, sym, ap, subst, ◌∙◌, inl, inr, Option, some, none, length, if◌then◌else◌,
  arith, Option-cases,
}
use slabjson.Error.{error_at, type_mismatch}
use slabjson.Result.{Result, ok, err}
use slabjson.Utf8.{Bytes}
use slabjson.Slab.{Slab, ValueType, Handle, view_string, string_flags}
use slabjson.Space.{Extends, string_at, copied, copied-Extends, view_string-Extends}
use slabjson.Value.{handle_node, typed_node, as_bool, as_int64, as_uint64, as_string}
use slabjson.Container.{container_valid}
use slabjson.Container.Status.{IsLive}
use slabjson.Container.Inverse.{builder_add-Attached}
use slabjson.Forest.{Kids}
use slabjson.Forest.Basic.{kid-lt, node_for_live}
use slabjson.Document.{IsDocument}
use slabjson.Document.Scalar.{Scalar, make_scalar}
use slabjson.Document.Reads.{
  bool_view, signed_view, unsigned_view, text_view, ReadsAs, Holds, Holds-ReadsAs,
}
use slabjson.Document.Made.{Made, make_scalar-Made}
use slabjson.Container.Read.{IsLive-Extends}
use slabjson.Document.Keeps.{attached-Holds, Extends-Holds}
use slabjson.Object.{
  add, find, find_required, get_with, get_string, get_bool, get_int64, get_uint64, bytes_eq,
}
use slabjson.Object.Add.{with_member, add_member-Adds}
use slabjson.Object.Find.{key_of, find-Finds, Finds-none, bytes_eq_iff}
use slabjson.Object.Lookup.{or_else, view_empty, find-add, store}
use slabjson.Object.Build.{add_scalar, add_scalar-builder_add, add_member-Builds}

-- The keys of a document stay while the slab grows.
pub key_of-Extends :
    {s t : Slab} {kids : Kids} (i : ℕ)
    → IsDocument s kids
    → Extends s t
    → i < s.node_count
    → key_of t i ≡ key_of s i
key_of-Extends {s} {t} i d x h =
    ap (λ n. view_string t n.key) (x.nodes_kept i h) ∙ (elim (d.nodes i h).key [
      | inl (e, _) ↦
          ap (view_string t) e ∙ view_empty t ∙ sym (view_empty s) ∙ ap (view_string s) (sym e)
      | inr k ↦ view_string-Extends (s.nodes i).key x k.stored
    ])

-- A key that leads nowhere still leads nowhere after growth.
find-none-Extends :
    {s t : Slab} {kids : Kids} (o : Handle) (key : Bytes)
    → IsDocument s kids
    → IsDocument t kids
    → Extends s t
    → IsLive s o ValueType.object
    → find s o key ≡ none
    → find t o key ≡ none
find-none-Extends {s} {t} {kids} o key d d' x live e = elim (find-Finds d o live key) [
  | inl (c, first, r) ↦ absurd (cc)
  | inr (out, r) ↦
      Finds-none (find-Finds d' o (IsLive-Extends x live) key)
        (λ i m k. out i m (sym (key_of-Extends i d x (kid-lt d.forest o.id i live.1.2 m)) ∙ k))
]

find_required-find :
    (s : Slab) (o : Handle) (key : Bytes) (w : Handle)
    → find s o key ≡ some w
    → find_required s o key ≡ ok w
unfolding find_required find container_valid
find_required-find s o key w e = elim (Option-cases (typed_node s o ValueType.object)) [
  | inl k ↦ absurd (cc)
  | inr (n, k) ↦ ground arith
]

-- A getter's result, where the member is there.
abbrev pub or_mismatch : {A : Type 0} → Option A → Result A
or_mismatch none = err (error_at type_mismatch 0)
or_mismatch (some a) = ok a

-- Each getter returns what the scalar has for it, or a type mismatch.
pub record GetsAs (v : Scalar) (s : Slab) (o : Handle) (key : Bytes) : Type 0 where
  pub gets_string : get_string s o key ≡ or_mismatch (text_view v)
  pub gets_bool : get_bool s o key ≡ or_mismatch (bool_view v)
  pub gets_int64 : get_int64 s o key ≡ or_mismatch (signed_view v)
  pub gets_uint64 : get_uint64 s o key ≡ or_mismatch (unsigned_view v)

get_with-found :
    {A : Type 0} (convert : Handle → Option A) (s : Slab) (o : Handle) (key : Bytes) (w : Handle)
    → find s o key ≡ some w
    → get_with convert s o key ≡ or_mismatch (convert w)
unfolding get_with
get_with-found convert s o key w e = elim (Option-cases (convert w)) [
  | inl k ↦ rw (find_required-find s o key w e, k, get_with) refl
  | inr (a, k) ↦ rw (find_required-find s o key w e, k, get_with) refl
]

ReadsAs-GetsAs :
    (v : Scalar) (s : Slab) (o : Handle) (key : Bytes) (w : Handle)
    → find s o key ≡ some w
    → ReadsAs v s w
    → GetsAs v s o key
unfolding get_string get_bool get_int64 get_uint64
ReadsAs-GetsAs v s o key w e r = record {
  gets_string = get_with-found (as_string s) s o key w e ∙ ap or_mismatch r.reads_string;
  gets_bool = get_with-found (as_bool s) s o key w e ∙ ap or_mismatch r.reads_bool;
  gets_int64 = get_with-found (as_int64 s) s o key w e ∙ ap or_mismatch r.reads_int64;
  gets_uint64 = get_with-found (as_uint64 s) s o key w e ∙ ap or_mismatch r.reads_uint64;
}

-- The member reads as the scalar after `add`, if its node held it before.
ReadsAs-add :
    {s : Slab} {kids : Kids} (v : Scalar) (o child : Handle) (key : Bytes)
    → IsDocument s kids
    → Holds v s (s.nodes child.id)
    → (add o key child s).0 ≡ ok tt
    → ReadsAs v (add o key child s).1 child
unfolding handle_node
ReadsAs-add {s} v o child key d holds done = elim (add_member-Adds d o key child) [
  | inr (e, why, q) ↦ absurd (cc)
  | inl (good, live, at, utf8, room, q) ↦
      let st = store d o child key room in
      let x = copied-Extends key d.fits room in
      let t : Slab = with_member o key child s in
      let there : handle_node t child ≡ some (t.nodes child.id) = ground (
        arith,
        at.same_slab.0,
        node_for_live t child.id child.generation (st.valid_same ∙ at.child_live.0)
            (at.child_live.1 ∙ sym st.generation_same)
            (omega (arith, st.count_same, at.child_live.2)),
      ) in
      subst (λ u. ReadsAs v u child) (sym (ap (λ r. r.1) q))
        (Holds-ReadsAs v t child (t.nodes child.id) there (
          attached-Holds o.id child.id (string_at s (length key)) (string_flags key) (copied key s)
            v child.id
            (Extends-Holds v (s.nodes child.id) x (d.nodes child.id at.child_live.2) holds)))
]

abbrev pub Reads : Handle → Bytes → Scalar → Slab → Type 0
Reads o key v t = (w : Handle) × (find t o key ≡ some w) × ReadsAs v t w × GetsAs v t o key

read_back :
    {s : Slab} {kids : Kids}
    → IsDocument s kids
    → (o : Handle) (key : Bytes) (v : Scalar) (child : Handle) (s' : Slab) → Made s kids v child s'
    → IsLive s o ValueType.object
    → find s o key ≡ none
    → (add o key child s').0 ≡ ok tt
    → Reads o key v (add o key child s').1
read_back d o key v child s' m live fresh into =
    (child, found, reads, ReadsAs-GetsAs v (add o key child s').1 o key child found reads)
  where
    found : find (add o key child s').1 o key ≡ some child
    found =
        find-add m.document o child key into key
        ∙ ap (λ r. or_else r (if bytes_eq key key then some child else none))
            (find-none-Extends o key d m.document m.extends live fresh)
        ∙ ap (λ b. if b then some child else none) ((bytes_eq_iff key key).1 refl)

    reads : ReadsAs v (add o key child s').1 child
    reads = ReadsAs-add v o child key m.document m.holds into

-- In a document, if a key leads nowhere in an object of the slab and the `add` of a scalar under
-- that key succeeds, then `find` returns a handle that every conversion reads as that scalar, and
-- the getters of strings, Booleans and integers return it, or a type mismatch where the scalar has
-- none.
pub get-add :
    {s : Slab} {kids : Kids}
    → IsDocument s kids
    → (o : Handle) (key : Bytes) (v : Scalar) → o.slab ≡ s.self
    → find s o key ≡ none
    → (add_scalar o key v s).0 ≡ ok tt
    → (w : Handle) × (find (add_scalar o key v s).1 o key ≡ some w)
      × ReadsAs v (add_scalar o key v s).1 w
      × GetsAs v (add_scalar o key v s).1 o key
get-add {s} {kids} d o key v here fresh done = elim (add_member-Builds o key d here v) [
  | inr (e, _, q, _, _) ↦ absurd (cc)
  | inl (good, live, _, _, _) ↦
      let q = add_scalar-builder_add o key v s in
      let (child, s', made, into, r) =
        builder_add-Attached (λ _. tt) ValueType.object o (make_scalar v) (add o key) s tt
          (ap (λ r. r.0) (sym q) ∙ done) in
      subst (Reads o key v) (sym (ap (λ x. x.1) (q ∙ r)))
        (read_back d o key v child s' (make_scalar-Made d v child s' made) live fresh into)
]
