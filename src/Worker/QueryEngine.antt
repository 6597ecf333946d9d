-- ===== src/Worker/QueryEngine.antt =====
-- worker/query-engine.ts.
pub mod Filter
pub mod TopRows
pub mod Execute
pub mod Query
pub mod Window
pub mod Windowed
pub mod Diff
pub mod Diffed
pub mod DiffRoundTrip
