-- ===== src/Worker/SnapshotReconciler/History.antt =====
-- worker/snapshot-reconciler.ts over the store of worker/mutation-store.ts.
use view_server.Prelude.{
  ℕ, true, false, Option, none, some, List, ◌≡◌, refl, ap, ◌<◌, ◌⊎◌, inl, inr, ltb, ◌==◌, arith,
  String, All, Bool-cases, dec_lt, ℕ_discrete,
}
use view_server.Protocol.Value.{Row}
use view_server.Worker.QueryEngine.Execute.{QueryExecutionResult}
use view_server.Worker.MutationLog.History.{Entries}
use view_server.Worker.MutationStore.{MutationStore, can_replay, replay_rows_from}
use view_server.Worker.MutationStore.Index.{HasKeys}
use view_server.Worker.MutationStore.Steps.{StoreOp, IsKeyed}
use view_server.Worker.MutationStore.History.{run, initial_store, replay_rows_from_lem}
use view_server.Worker.SnapshotReconciler.{
  SnapshotBackendResult, BackendOutcome, answered, snapshot_backend_failed, other_error, Reconciled,
  snapshot, failed, thrown, reconcile_query, reconcile_snapshot_candidate, replay_candidate,
  memory_snapshot, or_memory,
}

-- The rows and the total of a snapshot.
abbrev pub result_of {ℓ} : {E : Type ℓ} → Reconciled E → Option QueryExecutionResult
result_of (snapshot s) = some (record { rows = s.rows; total_rows = s.total_rows })
result_of (failed e) = none
result_of thrown = none

-- What the backend promises. At the target version its rows answer the query; for an earlier version
-- the rows to replay on, if it gives any, are those of the store at that version.
abbrev pub Honest {ℓ} :
    {E : Type ℓ} → QueryExecutionResult → MutationStore → ℕ → BackendOutcome E → Type 0
Honest answer earlier target (answered c) =
    (c.backend_version ≡ target
      → ◌≡◌ {A = QueryExecutionResult} (record { rows = c.rows; total_rows = c.total_rows }) answer)
    × (c.backend_version < target
        → (c.replay_rows ≡ none)
          ⊎ ((c.backend_version ≡ earlier.version) × (c.replay_rows ≡ some earlier.rows)))
Honest answer earlier target snapshot_backend_failed = Unit
Honest answer earlier target (other_error e) = ⊥

module _ {ℓ κ} {Q : Type ℓ} (E : Type κ) (execute : List Row → Q → QueryExecutionResult)
    (id_field : String) (size : ℕ) (rows : List Row) (ops later : List StoreOp)
    (s t : MutationStore) (h es : Entries) (keys : HasKeys id_field rows)
    (keyed : All (IsKeyed id_field) ops) (keyed_later : All (IsKeyed id_field) later)
    (ran : run (initial_store id_field size rows) ops ≡ some (s, h))
    (ran_later : run s later ≡ some (t, es)) (query : Q) where
  replayed :
      (c : SnapshotBackendResult)
      → (c.replay_rows ≡ none) ⊎ ((c.backend_version ≡ s.version) × (c.replay_rows ≡ some s.rows))
      → result_of {E = E} (
          or_memory execute t.rows query t.version (
            replay_candidate execute c query t.version
              (can_replay t)
              (replay_rows_from t)
              c.replay_rows))
        ≡ some (execute t.rows query)
  unfolding memory_snapshot
  replayed c (inl none_given) = rw none_given refl
  replayed c (inr (at, given)) = elim (Bool-cases (can_replay t s.version t.version)) [
    | inl covered ↦
        rw
          (
            given,
            at,
            covered,
            replay_rows_from_lem id_field size rows ops later s t h es keys keyed keyed_later ran
                ran_later covered,
          )
          refl
    | inr too_old ↦ rw (given, at, too_old) refl
  ]

  -- For a store that starts with rows of distinct keys, after the keyed mutations `ops` and then the keyed
  -- mutations `later`: whatever an honest backend answers, and also if it fails
  -- with the error that is caught, the rows and total of the snapshot are the query's result on the rows
  -- of the target version. A backend is honest if its rows for the target version answer the query, the
  -- rows to replay on that it gives for an earlier version are those after `ops`, and it has no other error.
  pub reconcile_query_lem :
      (outcome : BackendOutcome E)
      → Honest (execute t.rows query) s t.version outcome
      → result_of (
          reconcile_query execute outcome t.rows
            (can_replay t)
            (replay_rows_from t)
            query
            t.version)
        ≡ some (execute t.rows query)
  unfolding reconcile_query reconcile_snapshot_candidate memory_snapshot
  reconcile_query_lem (other_error e) honest = absurd honest
  reconcile_query_lem snapshot_backend_failed honest = refl
  reconcile_query_lem (answered c) honest = elim (ℕ_discrete c.backend_version t.version) [
    | yes same ↦
        let test : (c.backend_version == t.version) ≡ true = ground arith in
        rw test (ap some (honest.0 same))
    | no differs ↦
        let test : (c.backend_version == t.version) ≡ false = ground arith in
        elim (dec_lt t.version c.backend_version) [
          | yes newer ↦
              let later_test : ltb t.version c.backend_version ≡ true = ground arith in
              rw (test, later_test) refl
          | no older ↦
              let earlier_test : ltb t.version c.backend_version ≡ false = ground arith in
              rw (test, earlier_test) (replayed c (honest.1 (omega arith)))
        ]
  ]
