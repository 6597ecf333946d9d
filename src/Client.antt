-- ===== src/Client.antt =====
-- The client of a live query, packages/core/src/client.
pub mod LiveQueryLifecycle
pub mod VisibleRows
