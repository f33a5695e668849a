-- ===== src/Base/YearMap.antt =====
-- A `BTreeMap` keyed by `i32` years: an association list in ascending order of the keys.
mod Defs
mod Sorted
pub use Defs.*
pub use Sorted.*
