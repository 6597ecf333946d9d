-- ===== src/Tests.antt =====
-- The theorems on small inputs.
mod Store
mod Window
mod Fanout
mod Limits
mod Lifecycle
mod Planner
mod Registry
mod Deltas
mod Auth
mod SortedIndex
