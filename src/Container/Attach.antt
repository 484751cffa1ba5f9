-- ===== src/Container/Attach.antt =====
-- The end of `Array::add` and `Object::add`: the child's key is set and the child is linked.
use slabjson.Prelude.{ℕ, ◌<◌, sym, subst, ◌∙◌, arith}
use slabjson.Prelude.Walk.{Walk-agree, Walk-below}
use slabjson.Slab.{Slab, ValueType, StringRef, Handle, modify, append_child_unchecked}
use slabjson.Forest.{Kids, IsContainer, with_child}
use slabjson.Forest.Ancestors.{Attachable}
use slabjson.Document.{KeyFits, IsDocument}
use slabjson.Document.Change.{
  SameStore, modify-SameStore, set_key, set_key_links, IsDocument-set_key, IsDocument-append,
}

-- The state in which `child` has its key and is the last child of `p`.
abbrev pub attached : ℕ → ℕ → StringRef → ℕ → Slab → Slab
attached p c r flags s = append_child_unchecked p c (modify c (set_key r flags) s)

pub attached-IsDocument :
    {s : Slab} {kids : Kids} {p generation : ℕ} {child : Handle} {type : ValueType} (r : StringRef)
    (flags : ℕ)
    → IsDocument s kids
    → Attachable s p generation child type
    → IsContainer type
    → KeyFits s r flags
    → IsDocument (attached p child.id r flags s) (with_child kids p child.id)
attached-IsDocument {s} {kids} {p} {child} r flags d a con key =
    IsDocument-append p child.id (IsDocument-set_key child.id r flags d key)
      (into p a.parent_live.2) (into child.id a.child_live.2)
      ((set_key_links s child.id r flags child.id).1 ∙ a.child_root)
      (subst IsContainer (sym ((set_key_links s child.id r flags p).0 ∙ a.parent_typed)) con)
      (λ xs w. a.acyclic xs (
        Walk-agree w (λ b m. out b (Walk-below w b m))
          (λ b m. sym (set_key_links s child.id r flags b).1)))
  where
    s' : Slab
    s' = modify child.id (set_key r flags) s

    store : SameStore s s'
    store = modify-SameStore s child.id (set_key r flags)

    into : (b : ℕ) → b < s.node_count → b < s'.node_count
    into b h = omega (arith, store.count_same)

    out : (b : ℕ) → b < s'.node_count → b < s.node_count
    out b h = omega (arith, store.count_same)
