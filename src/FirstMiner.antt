-- ===== src/FirstMiner.antt =====
-- The first version of the miner: what src/miner/modules/build.py serves of the files that
-- src/miner/modules/mining.py has fetched.
pub mod Replies
pub mod Build
pub mod Variables
pub mod Crawl
