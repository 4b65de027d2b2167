-- ===== src/AppServer.antt =====
-- src/app_server: the server that answers the browser's queries through the miner and the analyst.
pub mod ProxyClient
pub mod MinerProxy
pub mod Miner
pub mod Analysis
pub mod MainHandler
pub mod HttpRequestHandler
