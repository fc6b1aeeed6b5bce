-- ===== src/Pool.antt =====
-- apps/socks5-proxy/src/bridges/candidate_pool.rs: the bridges that wait to be verified.
pub mod KeySet
pub mod Candidates
pub mod Invariant
pub mod Calls
pub mod Moved
pub mod Saved
pub mod Taken
mod Tests
