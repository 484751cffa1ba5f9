-- ===== src/Document/Scalar.antt =====
-- The values that the overloads of `add` take (include/slabjson/containers.hpp), and their making.
use slabjson.Prelude.{ℕ, Bool, ℤ}
use slabjson.Result.{Op}
use slabjson.Utf8.{Bytes}
use slabjson.Slab.{
  Slab, Handle, make_null, make_bool, make_int64, make_uint64, make_double, make_string,
}
use slabjson.Forest.{Kids}
use slabjson.Document.{IsDocument}
use slabjson.Document.Make.{
  Grows, make_null-Grows, make_bool-Grows, make_int64-Grows, make_uint64-Grows, make_double-Grows,
  make_string-Grows,
}

pub data Scalar : Type 0 where
  text : Bytes → Scalar
  boolean : Bool → Scalar
  signed : ℤ → Scalar
  unsigned : ℕ → Scalar
  floating : ℕ → Scalar
  nothing : Scalar

unfoldable pub make_scalar : Scalar → Op Slab Handle
make_scalar (text value) = make_string value
make_scalar (boolean b) = make_bool b
make_scalar (signed i) = make_int64 i
make_scalar (unsigned u) = make_uint64 u
make_scalar (floating x) = make_double x
make_scalar nothing = make_null

-- In a document, the `make_` function of a scalar adds one root to the document and returns its
-- handle, or fails and changes nothing.
pub make_scalar-Grows :
    {s : Slab} {kids : Kids} → IsDocument s kids → (v : Scalar) → Grows kids s (make_scalar v s)
unfolding make_scalar
make_scalar-Grows d (text value) = make_string-Grows d value
make_scalar-Grows d (boolean b) = make_bool-Grows d b
make_scalar-Grows d (signed i) = make_int64-Grows d i
make_scalar-Grows d (unsigned u) = make_uint64-Grows d u
make_scalar-Grows d (floating x) = make_double-Grows d x
make_scalar-Grows d nothing = make_null-Grows d
