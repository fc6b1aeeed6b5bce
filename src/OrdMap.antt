-- ===== src/OrdMap.antt =====
-- `std::collections::BTreeMap` as the sources use it: an association list in ascending key order.
-- The key type comes with its `Ord`, an instance of `KeyOrd`.
mod Defs
pub mod Laws
pub mod Text
unfoldable pub use Defs.*
