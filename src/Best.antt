-- ===== src/Best.antt =====
-- packages/bridge-store/src/stats.rs: `take_best`, the bounded selection, over any comparator, and
-- comparators built the way the sources build theirs.
--
-- `BinaryHeap` is the Rust library's and a parameter, with the laws of its documentation.
mod Defs
pub mod Order
pub mod Insertion
pub mod Scan
pub mod Selection
pub mod Stable
unfoldable pub use Defs.*
