-- ===== src/Indexer.antt =====
-- The indexer (pkg/indexer): its pump.
pub mod Pump
