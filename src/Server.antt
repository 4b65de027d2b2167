-- ===== src/Server.antt =====
-- src/miner/modules/server.py: the miner's socket server.
pub mod Backend
pub mod Arguments
pub mod Delegator
pub mod Connection
pub mod Accepting
pub mod Entry
