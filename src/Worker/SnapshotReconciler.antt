-- ===== src/Worker/SnapshotReconciler.antt =====
-- worker/snapshot-reconciler.ts: a backend answers with a snapshot of an earlier version, and the
-- mutations since are replayed on it, or the rows in memory are queried. `execute` is
-- `executeMemoryQuery` on the query, with the id field and the options that the reconciler holds.
pub mod History
use view_server.Prelude.{ℕ, Bool, true, false, Option, none, some, List, ltb, ◌==◌, if◌then◌else◌}
use view_server.Protocol.Value.{Row}
use view_server.Worker.QueryEngine.Execute.{QueryExecutionResult}

pub data SnapshotReconcilerSource : Type 0 where
  backend replay memory : SnapshotReconcilerSource

pub record SnapshotBackendResult : Type 0 where
  pub rows : List Row
  pub total_rows : ℕ
  pub backend_version : ℕ
  pub replay_rows : Option (List Row)

pub record ReconciledSnapshot : Type 0 where
  pub rows : List Row
  pub total_rows : ℕ
  pub source : SnapshotReconcilerSource
  pub target_version : ℕ
  pub backend_version : Option ℕ
  pub backend_failed : Bool

-- What `backend.snapshot` comes to: `SnapshotBackendFailed` is the error that the reconciler catches.
pub data BackendOutcome {ℓ} (E : Type ℓ) : Type ℓ where
  answered : SnapshotBackendResult → BackendOutcome E
  snapshot_backend_failed : BackendOutcome E
  other_error : E → BackendOutcome E

-- What a query of the reconciler comes to. `thrown` is an exception inside the replay.
pub data Reconciled {ℓ} (E : Type ℓ) : Type ℓ where
  snapshot : ReconciledSnapshot → Reconciled E
  failed : E → Reconciled E
  thrown : Reconciled E

module _ {ℓ} {Q : Type ℓ} (execute : List Row → Q → QueryExecutionResult) where
  unfoldable pub memory_snapshot : List Row → Q → ℕ → Bool → ReconciledSnapshot
  memory_snapshot rows query target_version backend_failed =
      let result = execute rows query in
      record {
        rows = result.rows;
        total_rows = result.total_rows;
        source = memory;
        target_version = target_version;
        backend_version = none;
        backend_failed = backend_failed;
      }

  abbrev pub replayed_snapshot : Q → ℕ → ℕ → List Row → ReconciledSnapshot
  replayed_snapshot query target_version backend_version replayed_rows =
      let replayed = execute replayed_rows query in
      record {
        rows = replayed.rows;
        total_rows = replayed.total_rows;
        source = replay;
        target_version = target_version;
        backend_version = some backend_version;
        backend_failed = false;
      }

  -- The end of `reconcileSnapshotCandidate`, where the candidate is older than the target. The outer
  -- option is `none` if the replay throws, and the inner one if no snapshot can be had.
  abbrev pub replay_candidate :
      SnapshotBackendResult
      → Q
      → ℕ
      → (ℕ → ℕ → Bool)
      → (List Row → ℕ → ℕ → Option (List Row))
      → Option (List Row)
      → Option (Option ReconciledSnapshot)
  replay_candidate candidate query target_version can_replay replay_rows_from none = some none
  replay_candidate candidate query target_version can_replay replay_rows_from (some base_rows) =
      if can_replay candidate.backend_version target_version
      then elim (replay_rows_from base_rows candidate.backend_version target_version) [
        | none ↦ none
        | some replayed_rows ↦
            some (
              some (replayed_snapshot query target_version candidate.backend_version replayed_rows))
      ]
      else some none

  unfoldable pub reconcile_snapshot_candidate :
      SnapshotBackendResult
      → Q
      → ℕ
      → (ℕ → ℕ → Bool)
      → (List Row → ℕ → ℕ → Option (List Row))
      → Option (Option ReconciledSnapshot)
  reconcile_snapshot_candidate candidate query target_version can_replay replay_rows_from =
      if candidate.backend_version == target_version
      then some (
          some (record {
            rows = candidate.rows;
            total_rows = candidate.total_rows;
            source = backend;
            target_version = target_version;
            backend_version = some candidate.backend_version;
            backend_failed = false;
          }))
      else if ltb target_version candidate.backend_version
      then some none
      else replay_candidate candidate query target_version can_replay replay_rows_from
          candidate.replay_rows

  -- `reconcileSnapshotCandidate(...) ?? memorySnapshot(...)`
  abbrev pub or_memory {κ} :
      {E : Type κ} → List Row → Q → ℕ → Option (Option ReconciledSnapshot) → Reconciled E
  or_memory rows query target_version none = thrown
  or_memory rows query target_version (some (some found)) = snapshot found
  or_memory rows query target_version (some none) =
      snapshot (memory_snapshot rows query target_version false)

  -- `query`, with what the backend answers and the rows that `options.rows()` gives.
  unfoldable pub reconcile_query {κ} :
      {E : Type κ}
      → BackendOutcome E
      → List Row
      → (ℕ → ℕ → Bool)
      → (List Row → ℕ → ℕ → Option (List Row))
      → Q
      → ℕ
      → Reconciled E
  unfolding memory_snapshot reconcile_snapshot_candidate
  reconcile_query (answered candidate) rows can_replay replay_rows_from query target_version =
      or_memory rows query target_version
        (reconcile_snapshot_candidate candidate query target_version can_replay replay_rows_from)
  reconcile_query snapshot_backend_failed rows can_replay replay_rows_from query target_version =
      snapshot (memory_snapshot rows query target_version true)
  reconcile_query (other_error e) rows can_replay replay_rows_from query target_version = failed e
