-- ===== src/Adapter.antt =====
-- The gRPC transport of the client (pkg/v1/grpcAdapter.go).
pub mod KeepAlive
pub mod Queries
pub mod Positions
