-- ===== src/Socks.antt =====
-- packages/socks5-proto: the SOCKS5 client handshake, and the host names of onion services.
pub mod Client
pub mod Exchange
pub mod Sound
pub mod Request
pub mod Onion
mod Tests
