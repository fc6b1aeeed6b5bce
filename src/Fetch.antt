-- ===== src/Fetch.antt =====
-- packages/bridge-fetcher: the download of bridge lists.
pub mod Wire
pub mod Reader
pub mod Plain
pub mod Exact
pub mod Line
pub mod Scan
pub mod Chunked
pub mod Pieces
pub mod Total
pub mod Framed
pub mod Dedup
pub mod Target
pub mod Body
pub mod Bounded
pub mod Loop
pub mod Origin
mod Tests
