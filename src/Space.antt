-- ===== src/Space.antt =====
-- What src/slab.cpp promises of the storage: nodes and strings keep apart, nothing wraps, and what
-- is stored stays. The files below it prove it of each function.
pub mod Bounds
pub mod Growth
pub mod Allocate
pub mod Make
pub use Bounds.*
pub use Growth.*
pub use Allocate.*
pub use Make.*
