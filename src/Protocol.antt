-- ===== src/Protocol.antt =====
-- The wire protocol that all servers and clients of the system share
-- (src/miner/modules/protocol, which the app server reaches through a link).
pub mod Bytes
pub mod Utf8
pub mod PackageType
pub mod Codec
pub mod Unambiguous
pub mod Net
pub mod Types
