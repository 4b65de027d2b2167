-- ===== src/L2Miner.antt =====
-- src/miner/modules/l2_miner: the miner that mirrors the boards.
pub mod Document
pub mod Lookup
pub mod Threads
pub mod Cache
pub mod BoardListener
pub mod Crewer
pub mod Notifier
pub mod Storage
pub mod RealBackend
