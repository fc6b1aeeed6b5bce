-- ===== src/Acl.antt =====
-- packages/proxy-config/client-acl: the allow-list of client addresses.
pub mod Rule
pub mod Masks
pub mod Clients
pub mod Endpoint
pub mod Parser
pub mod AllowList
pub mod Split
pub mod Octets
pub mod Validated
pub mod Hextets
pub mod Compression
pub mod Compressed
pub mod EndpointText
mod Tests
