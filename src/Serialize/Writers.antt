-- ===== src/Serialize/Writers.antt =====
-- src/serialize.cpp: the three writers. `output` is the memory of the output span, from its start.
use slabjson.Prelude.{
  ℕ, ◌+◌, ◌%◌, ◌^◌, Bool, true, false, ◌&&◌, [], ◌∷◌, ltb, leb, ◌==◌, if◌then◌else◌, length,
  sub_size,
}
use slabjson.Utf8.{Bytes}
use slabjson.Slab.{copy_bytes}

-- `std::numeric_limits<std::size_t>::max()`
abbrev pub size_max : ℕ
size_max = 18_446_744_073_709_551_615

-- What `Serializer` uses of a writer. Each append says whether it was made.
pub record Writer (W : Type 0) : Type 0 where
  pub append_char : ℕ → W → Bool × W
  pub append : Bytes → W → Bool × W
  pub append_repeated : ℕ → ℕ → W → Bool × W
  pub size : W → ℕ

pub record CountingWriter : Type 0 where
  pub position : ℕ

unfoldable pub count_more : ℕ → CountingWriter → Bool × CountingWriter
count_more count w =
    if ltb (sub_size size_max w.position) count
    then (false, w)
    else (true, record w { position = (w.position + count) % 2 ^ 64 })

unfoldable pub count_char : ℕ → CountingWriter → Bool × CountingWriter
count_char character w =
    if w.position == size_max
    then (false, w)
    else (true, record w { position = (w.position + 1) % 2 ^ 64 })

abbrev pub counting : Writer CountingWriter
counting = record {
  append_char = count_char;
  append = λ text. count_more (length text);
  append_repeated = λ character count. count_more count;
  size = λ w. w.position;
}

-- `std::memset(output + offset, character, count)`
unfoldable pub fill_bytes : ℕ → ℕ → ℕ → (ℕ → ℕ) → ℕ → ℕ
fill_bytes offset character count bytes i =
    if leb offset i && ltb i (offset + count) then character else bytes i

pub record CheckedWriter : Type 0 where
  pub limit : ℕ
  pub output : ℕ → ℕ
  pub position : ℕ

unfoldable pub check_char : ℕ → CheckedWriter → Bool × CheckedWriter
check_char character w = if leb w.limit w.position then (false, w) else (
  true,
  record w {
    output = copy_bytes w.position (character ∷ []) w.output;
    position = (w.position + 1) % 2 ^ 64;
  },
)

unfoldable pub check_text : Bytes → CheckedWriter → Bool × CheckedWriter
check_text text w =
    if ltb (sub_size w.limit w.position) (length text)
    then (false, w)
    else if length text == 0
    then (true, w)
    else (
      true,
      record w {
        output = copy_bytes w.position text w.output;
        position = (w.position + length text) % 2 ^ 64;
      },
    )

unfoldable pub check_repeated : ℕ → ℕ → CheckedWriter → Bool × CheckedWriter
check_repeated character count w =
    if ltb (sub_size w.limit w.position) count
    then (false, w)
    else if count == 0
    then (true, w)
    else (
      true,
      record w {
        output = fill_bytes w.position character count w.output;
        position = (w.position + count) % 2 ^ 64;
      },
    )

abbrev pub checked : Writer CheckedWriter
checked = record {
  append_char = check_char;
  append = check_text;
  append_repeated = check_repeated;
  size = λ w. w.position;
}

pub record UncheckedWriter : Type 0 where
  pub output : ℕ → ℕ
  pub position : ℕ

unfoldable pub put_char : ℕ → UncheckedWriter → Bool × UncheckedWriter
put_char character w = (
  true,
  record w {
    output = copy_bytes w.position (character ∷ []) w.output;
    position = (w.position + 1) % 2 ^ 64;
  },
)

unfoldable pub put_text : Bytes → UncheckedWriter → Bool × UncheckedWriter
put_text text w = if length text == 0 then (true, w) else (
  true,
  record w {
    output = copy_bytes w.position text w.output;
    position = (w.position + length text) % 2 ^ 64;
  },
)

unfoldable pub put_repeated : ℕ → ℕ → UncheckedWriter → Bool × UncheckedWriter
put_repeated character count w = if count == 0 then (true, w) else (
  true,
  record w {
    output = fill_bytes w.position character count w.output;
    position = (w.position + count) % 2 ^ 64;
  },
)

abbrev pub unchecked : Writer UncheckedWriter
unchecked = record {
  append_char = put_char;
  append = put_text;
  append_repeated = put_repeated;
  size = λ w. w.position;
}
