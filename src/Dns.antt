-- ===== src/Dns.antt =====
-- packages/dns-server: the DNS server's cache of answers.
pub mod Cache
pub mod Evict
pub mod Ageing
pub mod Order
pub mod Overrides
pub mod Glob
mod Tests
pub mod Statistics
