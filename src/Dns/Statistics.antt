-- ===== src/Dns/Statistics.antt =====
-- packages/dns-server/src/statistics: the statistics of DNS questions.
pub mod Ledger
pub mod System
pub mod Accounts
pub mod Drained
pub mod Shutdown
pub mod Outcomes
pub mod Reached
pub mod Ends
pub mod Turns
pub mod Nearer
pub mod Finish
mod Tests
