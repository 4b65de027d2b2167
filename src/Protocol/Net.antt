-- ===== src/Protocol/Net.antt =====
-- src/miner/modules/protocol/net.py: the structs by which values are packed and unpacked.
pub mod PackageHeader
pub mod StringStruct
pub mod ArrayStruct
pub mod IdentityStruct
pub mod TimeStruct
pub mod ReplyModeStruct
