-- ===== src/Document/Store.antt =====
-- `store_string_with_flags` of src/slab.cpp: a checked text is stored, or nothing changes.
use slabjson.Prelude.{ℕ, ◌≡◌, refl, ◌⊎◌, inl, inr, true, none, some, length, Option-cases}
use slabjson.Error.{Error, error_at, invalid_utf8, string_capacity_exceeded}
use slabjson.Result.{Outcome, ok, err}
use slabjson.Utf8.{Bytes, invalid_utf8_offset}
use slabjson.Slab.{Slab, StoredString, string_flags, store_string_with_flags}
use slabjson.Space.{
  Fits, StringRoom, string_at, copied, copy_string_trusted-Copies, copied-Extends, copied-Fits,
}
use slabjson.Forest.{Kids}
use slabjson.Document.{IsDocument}
use slabjson.Document.Preserve.{IsDocument-same}

-- Why a key is not stored, in a valid slab.
pub data KeyError (s : Slab) (key : Bytes) : Error → Type 0 where
  not_utf8 : (k : ℕ) → invalid_utf8_offset key ≡ some k → KeyError s key (error_at invalid_utf8 k)
  no_room : ¬ (StringRoom s (length key)) → KeyError s key (error_at string_capacity_exceeded 0)

abbrev pub stored_string : Slab → Bytes → StoredString
stored_string s key = record { ref = string_at s (length key); flags = string_flags key }

abbrev pub Stores : Bytes → Slab → Outcome Slab StoredString → Type 0
Stores key s r =
    ((invalid_utf8_offset key ≡ none)
      × StringRoom s (length key)
      × (r ≡ (ok (stored_string s key), copied key s)))
    ⊎ ((e : Error) × KeyError s key e × (r ≡ (err e, s)))

-- Within the bounds of a valid slab, `store_string_with_flags` stores a text with its flags exactly
-- if it is UTF-8 and fits; otherwise its error names the reason, with the offset of the invalid
-- byte, and nothing changes.
pub store_string_with_flags-Stores :
    (key : Bytes) {s : Slab}
    → Fits s
    → s.valid ≡ true
    → Stores key s (store_string_with_flags key s)
unfolding store_string_with_flags
store_string_with_flags-Stores key {s} f v = elim (Option-cases (invalid_utf8_offset key)) [
  | inr (k, e) ↦ inr (error_at invalid_utf8 k, not_utf8 k e, rw (e, store_string_with_flags))
  | inl e ↦ elim (copy_string_trusted-Copies key f) [
    | inl (_, room, c) ↦ inl (e, room, rw (e, store_string_with_flags) (rw c))
    | inr (inl (_, full, c)) ↦
        inr (
          error_at string_capacity_exceeded 0,
          no_room full,
          rw (e, store_string_with_flags) (rw c),
        )
    | inr (inr (i, c)) ↦ absurd (cc)
  ]
]

pub copied-IsDocument :
    (key : Bytes) {s : Slab} {kids : Kids}
    → IsDocument s kids
    → StringRoom s (length key)
    → IsDocument (copied key s) kids
copied-IsDocument key d room =
    IsDocument-same d (copied-Extends key d.fits room) refl (copied-Fits key d.fits room)
