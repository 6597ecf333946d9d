-- ===== src/Lib.antt =====
-- The view server keeps topics of rows in memory, applies mutations to them, and answers queries with
-- snapshots and live deltas. This library models its core, in packages/core/src.
--
-- The parts and the files that model them:
--   protocol/stable-key.ts, protocol/query-semantics.ts: Protocol/. `Value` has the JavaScript values of
--     a row, doubles as multiples of 2 ^ -1074; `StableKey` the row keys and a `Map` on them;
--     `QuerySemantics` the comparisons. `Host` holds what comes from outside: BigDecimal, Unicode tables.
--   worker/mutation-log.ts: Worker/MutationLog, a ring. `Contents` says what it holds, oldest first, and
--     `History` what it holds after many appends.
--   worker/mutation-store.ts: Worker/MutationStore, the rows with an index from key to position, a
--     version and the log. `Index` says when the index is in step, `Removal` and `Build` are about
--     its changes, `Steps` about one mutation and `History` about a run of them and its replay.
--   worker/query-engine.ts, worker/projection.ts: Worker/QueryEngine and Worker/Projection. `Filter`
--     compiles filters, `TopRows` keeps the first rows of an order, `Execute` runs raw queries, `Window`
--     and `Windowed` are about the sort and the bounded sorted array, not the heap. The sorts and the binary search stand in Ordered.
--     `Diff` computes the delta between two results; `DiffRoundTrip` applies it at the client.
--   client/visible-rows.ts: Client/VisibleRows, a delta applied to the rows that a client shows.
--     `Reference` says what a delta means, `Positions` what the map of positions holds; `Synced` is
--     about that map as rows move, `Sequential` about the operations. `DeltaTree` and `Treed` are the
--     treap for large deltas, `TreeOrder` and `TreeBuilt` are about its order.
--   worker/active-sorted-index.ts: Worker/ActiveSortedIndex, the ids of an active view in one array or in
--     blocks. `Sorting` has the searches in an array, `Searched` and `Located` are about them;
--     `Inserts`, `Removes` and `Made` are about the operations, `Slices` about reading.
--     The comparison of ids is a parameter: `compareIdsFromRows`, which throws for an id that it does not
--     know, is that of a rank only if no order value is NaN.
--   worker/snapshot-reconciler.ts: Worker/SnapshotReconciler. It asks a backend for a snapshot and
--     replays the store's log on it, or queries the rows in memory.
--   worker/fanout-queue.ts: Worker/FanoutQueue. The events that wait for a subscriber are references
--     into a heap, since a later delta is merged into an event that is already in the queue.
--     `Limits` has its limits as bounds; `Offers`, `Merging` and `Steps` are about deltas, `Replacing` about
--     statuses and snapshots.
--   server/query-limit-policy.ts: Server/QueryLimitPolicy, the limits of a query and the rejections.
--     `Bounds` has the limits as bounds, `Checks` the single checks, `Verdict` the whole validation.
--   server/auth-policy.ts: Server/AuthPolicy, who may read and publish which topic.
--   worker/subscription-registry.ts: Worker/SubscriptionRegistry, the subscriptions by request id.
--   worker/query-planner.ts: Worker/QueryPlanner, the choice of how to serve a query.
--   client/live-query-lifecycle.ts: Client/LiveQueryLifecycle, what a live query shows.
--
-- State is passed from call to call: a method is a function from the state of its object to the new one.
-- An exception is `none`, an error of an effect is a constructor of a result. Versions, counts and
-- indices are natural numbers, as none is negative where it is used. Loops over arrays are recursion on
-- lists. The binary searches, the sifts of the heap, the draining of a queue, the cutting into blocks and the
-- flattening of a tree run on fuel: the distance of the bounds, the start index, the length, and the
-- number of nodes, which each round lowers.
--
-- Code of other packages is a parameter: `Host` (BigDecimal and the Unicode tables), `EventQueues` (the
-- queues of the effect package, with the order of arrival as its laws), `AsyncResults` (with what is read
-- back), the snapshot backend and the column catalog.
--
-- Not modelled: grouped queries but for their limits, active views and their plans, the store of
-- a live query, the composition in topic-worker-core.ts, the transports, Kafka, chDB and its SQL,
-- configuration, metrics, and packages/react. Tests holds small examples.
pub mod Prelude
pub mod Client
pub mod Ordered
pub mod Protocol
pub mod Server
pub mod Tests
pub mod Worker
