-- ===== src/Tests/Texts.antt =====
-- The theorems on UTF-8 (include/slabjson/detail/utf8.hpp) and on stored texts at short texts.
use slabjson.Prelude.{dec_lt, ℕ_discrete, ◌≡◌, ◌↔◌, refl, none, some, [], ◌∷◌}
use slabjson.Utf8.{Bytes, invalid_utf8_offset}
use slabjson.Utf8.Encoding.{IsUtf8}
use slabjson.Utf8.Validation.{invalid_utf8_offset-IsUtf8}
use slabjson.Slab.{store_string_with_flags}
use slabjson.Document.Store.{Stores, store_string_with_flags-Stores}
use slabjson.Tests.Sample.{empty, empty-IsDocument, runs}

-- The euro sign.
abbrev euro : Bytes
euro = 0xE2 ∷ 0x82 ∷ 0xAC ∷ []

-- An `a` and a stray continuation byte.
abbrev stray : Bytes
stray = 0x61 ∷ 0x82 ∷ []

invalid_utf8_offset-IsUtf8_example : (invalid_utf8_offset euro ≡ none) ↔ IsUtf8 euro
invalid_utf8_offset-IsUtf8_example = invalid_utf8_offset-IsUtf8 euro

-- An encoded surrogate.
surrogate_found : invalid_utf8_offset (0x41 ∷ 0xed ∷ 0xa0 ∷ 0x80 ∷ []) ≡ some 1
unfolding invalid_utf8_offset dec_lt ℕ_discrete
surrogate_found = refl

euro_passes : invalid_utf8_offset euro ≡ none
unfolding invalid_utf8_offset dec_lt ℕ_discrete
euro_passes = refl

stray_found : invalid_utf8_offset stray ≡ some 1
unfolding invalid_utf8_offset dec_lt ℕ_discrete
stray_found = refl

store_string_with_flags-Stores_example : Stores stray empty (store_string_with_flags stray empty)
store_string_with_flags-Stores_example =
    store_string_with_flags-Stores stray empty-IsDocument.fits runs.empty_valid
