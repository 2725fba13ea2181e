-- ===== src/Service.antt =====
-- The gRPC service (internal/service).
pub mod Outcomes
pub mod KeepAlive
pub mod Locks
pub mod Queries
pub mod Events
pub mod Positions
