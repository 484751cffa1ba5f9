-- ===== src/Slab.antt =====
-- include/slabjson/slab.hpp and src/slab.cpp: the slab, its nodes and its strings.
pub mod Data
pub mod Memory
pub mod Make
pub mod Attach
pub use Data.*
unfoldable pub use Memory.*
unfoldable pub use Make.*
unfoldable pub use Attach.*
