-- ===== src/Store.antt =====
-- packages/bridge-store: the persistent health store of the bridge pool.
--
-- A bridge line and its identity key come from other crates, so both are types of the model, with
-- the function `key_of` between them; source labels are a third ordered type. An `OffsetDateTime`
-- is the number of nanoseconds since the earliest instant that it can hold, a `Duration` a number
-- of nanoseconds. `u32` counters saturate as in the source.
pub mod Entry
pub mod Observe
pub mod Prune
pub mod Notes
pub mod Valid
pub mod RateLimit
pub mod Round
pub mod Answers
pub mod Outcome
pub mod Rank
pub mod Ranking
pub mod Served
pub mod Stats
pub mod Summary
pub mod Tally
pub mod SourceText
pub mod File
pub mod Loaded
mod Tests
