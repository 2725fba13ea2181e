-- ===== src/Storage.antt =====
-- The PostgreSQL storage of consumer locks and positions (internal/service/storage/consumer.go):
-- the modules below hold a part each.
pub mod State
pub mod Valid
pub mod Positions
pub mod Locks
pub mod Heartbeat
pub mod Outcomes
pub mod Steps
pub mod Sql
pub mod Fixture
mod Examples
