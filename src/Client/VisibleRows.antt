-- ===== src/Client/VisibleRows.antt =====
-- client/visible-rows.ts: a delta applied to the rows that a client shows, with a map from row key to
-- position (`applyDeltaOperationsSequentially`). `row_key` is the function that the code takes.
pub mod Reference
pub mod Positions
pub mod Synced
pub mod Sequential
pub mod DeltaTree
pub mod TreeOrder
pub mod Treed
pub mod TreeBuilt
use view_server.Prelude.{
  ℕ, zero, suc, ◌+◌, ◌/◌, ◌^◌, min, Bool, true, false, Option, none, some, List, [], ◌∷◌, length,
  get_elem?, drop, insert_at, remove_at, if◌then◌else◌,
}
use view_server.Protocol.Value.{Number, finite, Row, write}
use view_server.Protocol.StableKey.{StableKey, KeyMap, empty_map, map_set, map_delete}
use view_server.Protocol.Delta.{DeltaOperation, upsert, patch, remove}

-- `Math.max(0, Math.min(length, Math.trunc(index)))`, and the fallback for no finite index.
unfoldable pub normalize_index : Option Number → ℕ → ℕ → ℕ
normalize_index (some (finite false magnitude)) length fallback = min length (magnitude / 2 ^ 1074)
normalize_index (some (finite true magnitude)) length fallback = 0
normalize_index _ length fallback = min length fallback

-- `{ ...previous, ...changes }`
unfoldable pub assign : Row → Row → Row
assign previous [] = previous
assign previous ((field, value) ∷ changes) = assign (write previous field value) changes

-- `map.has(key)`, from what the map reads
abbrev pub is_some {ℓ} : {A : Type ℓ} → Option A → Bool
is_some none = false
is_some (some a) = true

abbrev pub or_default {ℓ} : {A : Type ℓ} → Option A → A → A
or_default none a = a
or_default (some b) a = b

-- The array of rows, and the map of their positions.
pub record VisibleRows : Type 0 where
  pub rows : List Row
  pub indexes_by_key : KeyMap ℕ

module _ (row_key : Row → StableKey) where
  -- The loop of `indexRows`, at row `index`: the first row of a key counts.
  unfoldable pub index_from : KeyMap ℕ → ℕ → List Row → KeyMap ℕ
  index_from m index [] = m
  index_from m index (row ∷ rows) =
      index_from (if is_some (m (row_key row)) then m else map_set m (row_key row) index)
        (index + 1) rows

  unfoldable pub index_rows : List Row → KeyMap ℕ
  unfolding index_from
  index_rows rows = index_from empty_map 0 rows

  -- The loop of `reindexFrom`, at row `index`.
  unfoldable pub reindex : KeyMap ℕ → ℕ → List Row → KeyMap ℕ
  reindex m index [] = m
  reindex m index (row ∷ rows) = reindex (map_set m (row_key row) index) (index + 1) rows

  unfoldable pub reindex_from : List Row → ℕ → KeyMap ℕ → KeyMap ℕ
  unfolding reindex
  reindex_from rows start m = reindex m start (drop start rows)

  abbrev pub splice_out : VisibleRows → ℕ → Option Row → VisibleRows
  splice_out s index none = s
  splice_out s index (some removed) =
      let rows = remove_at s.rows index in
      record {
        rows = rows;
        indexes_by_key = reindex_from rows index (map_delete s.indexes_by_key (row_key removed));
      }

  unfoldable pub remove_row_at : VisibleRows → ℕ → VisibleRows
  unfolding reindex_from
  remove_row_at s index = splice_out s index (get_elem? s.rows index)

  unfoldable pub insert_row_at : VisibleRows → ℕ → Row → VisibleRows
  unfolding reindex_from
  insert_row_at s index row =
      let rows = insert_at s.rows index row in
      record { rows = rows; indexes_by_key = reindex_from rows index s.indexes_by_key }

  abbrev pub remove_if_found : VisibleRows → Option ℕ → VisibleRows
  remove_if_found s none = s
  remove_if_found s (some index) = remove_row_at s index

  -- The branch of a patch whose row is there, `previous`.
  abbrev pub patch_row : VisibleRows → ℕ → Row → Option Number → Option Row → VisibleRows
  patch_row s index changes to none = s
  patch_row s index changes to (some previous) =
      let removed = remove_row_at s index in
      insert_row_at removed (normalize_index to (length removed.rows) index)
        (assign previous changes)

  abbrev pub patch_if_found : VisibleRows → Row → Option Number → Option ℕ → VisibleRows
  patch_if_found s changes to none = s
  patch_if_found s changes to (some index) = patch_row s index changes to (get_elem? s.rows index)

  abbrev pub upsert_row : VisibleRows → Row → Option Number → Option ℕ → VisibleRows
  upsert_row s row to found =
      let removed = remove_if_found s found in
      insert_row_at removed
        (normalize_index to (length removed.rows) (or_default found (length s.rows))) row

  unfoldable pub apply_delta_operation_with_index : VisibleRows → DeltaOperation → VisibleRows
  unfolding remove_row_at insert_row_at
  apply_delta_operation_with_index s (remove key) = remove_if_found s (s.indexes_by_key key)
  apply_delta_operation_with_index s (patch key changes to) =
      patch_if_found s changes to (s.indexes_by_key key)
  apply_delta_operation_with_index s (upsert row key to) =
      upsert_row s row to (s.indexes_by_key (or_default key (row_key row)))

  unfoldable pub apply_all_with_index : VisibleRows → List DeltaOperation → VisibleRows
  unfolding apply_delta_operation_with_index
  apply_all_with_index s [] = s
  apply_all_with_index s (operation ∷ operations) =
      apply_all_with_index (apply_delta_operation_with_index s operation) operations

  unfoldable pub apply_delta_operations_sequentially : List Row → List DeltaOperation → List Row
  unfolding apply_all_with_index index_rows
  apply_delta_operations_sequentially rows operations =
      (apply_all_with_index (record { rows = rows; indexes_by_key = index_rows rows })
        operations).rows
