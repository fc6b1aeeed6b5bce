-- ===== src/Health.antt =====
-- apps/socks5-proxy: the counters of the connection-health summary.
pub mod Counters
pub mod Steps
pub mod Rate
pub mod Failure
mod Tests
