-- ===== src/Memory.antt =====
-- The in-memory transport (pkg/v1/memory.go and its helpers): the modules below hold a part each.
pub mod State
pub mod Streams
pub mod Positions
pub mod Locks
pub mod Queries
pub mod Watch
pub mod Fixture
mod Examples
