-- ===== src/Worker.antt =====
-- The topic worker, packages/core/src/worker.
pub mod MutationLog
pub mod MutationStore
pub mod Projection
pub mod QueryEngine
pub mod SnapshotReconciler
pub mod FanoutQueue
pub mod SubscriptionRegistry
pub mod QueryPlanner
pub mod ActiveSortedIndex
