-- ===== src/Server.antt =====
-- The server, packages/core/src/server.
pub mod QueryLimitPolicy
pub mod AuthPolicy
