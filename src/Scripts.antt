-- ===== src/Scripts.antt =====
-- The scripts of the repository's scripts folder that watch and read the contracts.
pub mod Monitor
pub mod AdminMonitor
pub mod Inspect
