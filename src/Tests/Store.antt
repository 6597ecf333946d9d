-- ===== src/Tests/Store.antt =====
-- The mutation log and the mutation store on a small topic.
use view_server.Prelude.{
  ℕ, zero, suc, ◌<◌, ◌≡◌, ◌≢◌, ◌++◌, inr, refl, List, [], ◌∷◌, Option, none, some, String, true,
  arith, length, leb, All,
}
use view_server.Protocol.Value.{Row, String-discrete, string, boolean, read}
use view_server.Protocol.StableKey.{
  StableKey, StableKey-discrete, text, stable_key_from_row, stable_key_from_value, map_set,
  map_delete, map_key,
}
use view_server.Worker.MutationStore.{
  MutationStore, replace_indexes, remove_indexed_row, new_store, load_initial_rows, publish,
  delete_by_id, update_existing, can_replay, replay_rows_from,
}
use view_server.Worker.MutationLog.History.{Entries}
use view_server.Worker.MutationStore.Index.{HasKeys, key_at}
use view_server.Worker.MutationStore.Steps.{
  StoreOp, publish_row, update_row, delete_row, IsKeyed, apply_op, Indexed, apply_op_lem, Stepped,
}
use view_server.Worker.MutationStore.{MutationStoreChange}
use view_server.Worker.MutationStore.Index.{IsIndexed}
use view_server.Worker.MutationStore.Removal.{remove_indexed_row-IsIndexed}
use view_server.Worker.MutationLog.{MutationLogEntry, new_log, append, deleted}
use view_server.Worker.MutationLog.Contents.{Holds, keep_last, new_log-Holds, append-Holds}
use view_server.Protocol.StableKey.{KeyMap}
use view_server.Worker.QueryEngine.Execute.{QueryExecutionResult}
use view_server.Worker.SnapshotReconciler.{BackendOutcome, answered, reconcile_query}
use view_server.Worker.SnapshotReconciler.History.{Honest, result_of, reconcile_query_lem}
use view_server.Worker.MutationStore.History.{
  run, initial_store, initial_store-Indexed, can_replay_lem, replay_rows_from_lem, run_lem, Ran,
}

abbrev row : String → Row
row name = ("id", string (name)) ∷ ("open", boolean true) ∷ []

abbrev start : List Row
start = row "a" ∷ []

program : Unit {0}
unfolding run load_initial_rows new_store stable_key_from_row stable_key_from_value read
    StableKey-discrete String-discrete map_set map_delete map_key replace_indexes remove_indexed_row
    publish update_existing delete_by_id apply_op
program = tt

abbrev ops : List StoreOp
ops = publish_row (row "b") (text "b") ∷ publish_row (row "c") (text "c") ∷ []

abbrev later : List StoreOp
later = delete_row (text "a") ∷ update_row (text "b") (row "b") ∷ delete_row (text "z") ∷ []

abbrev base : MutationStore
base = initial_store "id" 4 start

ops-IsKeyed : All (IsKeyed "id") ops
unfolding stable_key_from_row stable_key_from_value read
ops-IsKeyed = (refl, (refl, tt))

later-IsKeyed : All (IsKeyed "id") later
unfolding stable_key_from_row stable_key_from_value read
later-IsKeyed = (tt, (refl, (tt, tt)))

start-stable : (i : ℕ) → i < 1 → (j : StableKey) × (key_at "id" start i ≡ some j)
unfolding stable_key_from_row stable_key_from_value read
start-stable zero h = (text "a", refl)
start-stable (suc i) h = absurd (omega arith)

start-distinct :
    (i k : ℕ) (a b : StableKey)
    → key_at "id" start i ≡ some a
    → key_at "id" start k ≡ some b
    → map_key a ≡ map_key b
    → i ≡ k
start-distinct zero zero a b p q e = refl
start-distinct zero (suc k) a b p q e = cc
start-distinct (suc i) k a b p q e = cc

start-HasKeys : HasKeys "id" start
start-HasKeys = record { stable = start-stable; distinct = start-distinct }

base-Indexed : Indexed base
base-Indexed = initial_store-Indexed "id" 4 start start-HasKeys

-- What a run leaves, if it does not throw.
abbrev result : Option (MutationStore × Entries) → MutationStore × Entries
result none = (base, [])
result (some after) = after

-- The store and the log after `ops`, and after `later`.
abbrev at_ops : MutationStore × Entries
at_ops = result (run base ops)

abbrev at_later : MutationStore × Entries
at_later = result (run at_ops.0 later)

ran : run base ops ≡ some at_ops
unfolding program
ran = refl

ran_later : run at_ops.0 later ≡ some at_later
unfolding program
ran_later = refl

rows-later : at_later.0.rows ≡ row "c" ∷ row "b" ∷ []
unfolding program
rows-later = refl

length-later : length at_later.1 ≡ 2
unfolding program
length-later = refl

can_replay_lem_example :
    can_replay at_later.0 at_ops.0.version at_later.0.version ≡ leb (length at_later.1) 4
can_replay_lem_example =
    can_replay_lem "id" 4 start ops later at_ops.0 at_later.0 at_ops.1 at_later.1 start-HasKeys
      ops-IsKeyed later-IsKeyed ran ran_later

covered : can_replay at_later.0 at_ops.0.version at_later.0.version ≡ true
covered = rw length-later at can_replay_lem_example

replay_rows_from_lem_example :
    replay_rows_from at_later.0 at_ops.0.rows at_ops.0.version at_later.0.version
    ≡ some at_later.0.rows
replay_rows_from_lem_example =
    replay_rows_from_lem "id" 4 start ops later at_ops.0 at_later.0 at_ops.1 at_later.1
      start-HasKeys ops-IsKeyed later-IsKeyed ran ran_later covered

run_lem_example :
    (after : MutationStore × Entries) × (run base ops ≡ some after) × Ran base after.0 after.1
unfolding load_initial_rows new_store
run_lem_example = run_lem ops base base-Indexed ops-IsKeyed

apply_op_lem_example :
    (after : MutationStore × Option MutationStoreChange) × (apply_op base
        (publish_row (row "b") (text "b"))
      ≡ some after)
    × Stepped base after
unfolding stable_key_from_row stable_key_from_value read load_initial_rows new_store
apply_op_lem_example = apply_op_lem base base-Indexed (publish_row (row "b") (text "b")) refl

remove_indexed_row-IsIndexed_example :
    (after : List Row × KeyMap ℕ) × (remove_indexed_row "id" base.rows base.id_index (text "a")
      ≡ some after)
    × IsIndexed "id" after.0 after.1
unfolding load_initial_rows new_store stable_key_from_value read map_set StableKey-discrete map_key
    String-discrete
remove_indexed_row-IsIndexed_example =
    remove_indexed_row-IsIndexed "id" base.rows base.id_index (text "a") base-Indexed 0 refl

-- A query that asks for the rows.
abbrev all_rows : List Row → Unit {0} → QueryExecutionResult
all_rows rows query = record { rows = rows; total_rows = length rows }

-- The backend answers with the rows after `ops`, and the later mutations are replayed on them.
abbrev stale_answer : BackendOutcome (Unit {0})
stale_answer = answered (record {
  rows = at_ops.0.rows;
  total_rows = length at_ops.0.rows;
  backend_version = at_ops.0.version;
  replay_rows = some at_ops.0.rows;
})

older : at_ops.0.version ≢ at_later.0.version
unfolding program
older e = omega (arith, e)

stale_answer-Honest : Honest (all_rows at_later.0.rows tt) at_ops.0 at_later.0.version stale_answer
stale_answer-Honest = ((λ e. absurd (older e)), λ l. inr (refl, refl))

reconcile_query_lem_example :
    result_of (
      reconcile_query all_rows stale_answer at_later.0.rows
        (can_replay at_later.0)
        (replay_rows_from at_later.0)
        tt
        at_later.0.version)
    ≡ some (all_rows at_later.0.rows tt)
reconcile_query_lem_example =
    reconcile_query_lem (Unit {0}) all_rows "id" 4 start ops later at_ops.0 at_later.0 at_ops.1
      at_later.1 start-HasKeys ops-IsKeyed later-IsKeyed ran ran_later tt stale_answer
      stale_answer-Honest

-- The ring of `base`, with one more entry.
abbrev sample : MutationLogEntry
sample = record {
  version = 1;
  kind = deleted;
  id = text "a";
  before = none;
  after = none;
  changed_fields = [];
}

append-Holds_example :
    Holds (append (new_log 2) sample) (keep_last (new_log 2).capacity ([] ++ sample ∷ []))
append-Holds_example = append-Holds (new_log 2) [] sample (new_log-Holds 2)
