-- ===== src/Protocol/Types.antt =====
-- src/miner/modules/protocol/types.py: the structures that the servers exchange.
pub mod ReplyMode
pub mod ReplyMessage
pub mod DocMetaData
pub mod DocIdentity
pub mod DocRealData
pub mod DocRelInfo
