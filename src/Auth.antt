-- ===== src/Auth.antt =====
-- packages/auth: the users registry and the login of a SOCKS5 client.
pub mod Registry
pub mod Argon
pub mod State
pub mod Sound
pub mod Login
pub mod Refusal
pub mod Adoption
pub mod Access
mod Tests
