-- ===== src/Object/Removed.antt =====
-- What `find` returns after `Object::remove` (src/object.cpp).
use slabjson.Prelude.{
  ℕ, ◌≡◌, ◌≢◌, refl, sym, ap, subst, ◌∙◌, inl, inr, some, List, [], ◌∷◌, ◌++◌, append-nil, last_or,
  ◌∈◌, arith,
}
use slabjson.Result.{ok}
use slabjson.Utf8.{Bytes}
use slabjson.Slab.{Slab, ValueType, Handle, view_string, invalid_node_id}
use slabjson.Container.Status.{IsLive}
use slabjson.Forest.{Kids}
use slabjson.Forest.Unlink.{unlink_content}
use slabjson.Forest.Detach.{without_self, kept_mem}
use slabjson.Document.{IsDocument}
use slabjson.Document.Change.{SameStore, view_string-SameStore}
use slabjson.Object.{find, remove, unlink}
use slabjson.Object.Find.{
  key_of, FirstWith, here, there, Finds, find-Finds, FirstWith-mem, FirstWith-append, Finds-first,
  Finds-none,
}
use slabjson.Object.Lookup.{make_value-same}
use slabjson.Object.Remove.{remove-Unlinks, unlink-SameStore, unlink-IsDocument}

-- The first member with a key, in the list without a member that has another key.
FirstWith-skip :
    (s t : Slab) (k : Bytes) (c : ℕ) (front back : List ℕ) {a : ℕ}
    → ((i : ℕ) → i ∈ (front ++ back) → key_of t i ≡ key_of s i)
    → key_of s c ≢ k
    → FirstWith s k (front ++ (c ∷ back)) a
    → FirstWith t k (front ++ back) a
FirstWith-skip s t k c [] back same other (here e) = absurd (other e)
FirstWith-skip s t k c [] back {a} same other (there ne f) =
    subst (λ xs. FirstWith t k xs a) (append-nil back) (FirstWith-append s t k [] same f)
FirstWith-skip s t k c (x ∷ front) back same other (here e) = here (same x (inl refl) ∙ e)
FirstWith-skip s t k c (x ∷ front) back same other (there ne f) =
    there (λ e. ne (sym (same x (inl refl)) ∙ e))
      (FirstWith-skip s t k c front back (λ i m. same i (inr m)) other f)

-- In a document, after a successful `remove` of a key, every other key leads to where it led
-- before.
pub find-remove :
    {s : Slab} {kids : Kids}
    → IsDocument s kids
    → (o : Handle) (key k : Bytes) → (remove o key s).0 ≡ ok tt
    → key ≢ k
    → find (remove o key s).1 o k ≡ find s o k
find-remove {s} {kids} d o key k done ne = elim (remove-Unlinks d o key) [
  | inr (e, why, q) ↦ absurd (cc)
  | inl (c, front, back, live, first, u, q) ↦
      let previous = last_or invalid_node_id front in
      let t : Slab = unlink o.id previous c s in
      let st : SameStore s t = unlink-SameStore s o.id previous c in
      let other : key_of s c ≢ k = λ e. ne (sym (FirstWith-mem first).1 ∙ e) in
      let same : (i : ℕ) → i ∈ (front ++ back) → key_of t i ≡ key_of s i = λ i m.
        ap (view_string t)
          ((unlink_content s o.id previous c i).5 ∙ ground (arith, (kept_mem u i m).1))
        ∙ view_string-SameStore st (s.nodes i).key in
      let live' : IsLive t o ValueType.object = (
        live.0,
        (
          st.valid_same ∙ live.1.0,
          live.1.1 ∙ sym st.generation_same,
          omega (arith, st.count_same, live.1.2),
        ),
        (unlink_content s o.id previous c o.id).0 ∙ live.2,
      ) in
      let after : Finds t k (front ++ back) (find t o k) =
        subst (λ xs. Finds t k xs (find t o k)) (without_self u)
          (find-Finds (unlink-IsDocument d u) o live' k) in
      ap (λ r. find r.1 o k) q ∙ (elim (find-Finds d o live k) [
        | inl (a, found, e) ↦
            Finds-first after (
              FirstWith-skip s t k c front back same other
                (subst (λ xs. FirstWith s k xs a) u.split found))
            ∙ ap some (make_value-same s t a st.self_same st.generation_same)
            ∙ sym e
        | inr (out, e) ↦
            Finds-none after (λ i m j. out i (kept_mem u i m).0 (sym (same i m) ∙ j)) ∙ sym e
      ])
]
