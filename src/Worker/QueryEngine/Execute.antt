-- ===== src/Worker/QueryEngine/Execute.antt =====
-- worker/query-engine.ts: raw queries over the rows in memory.
use view_server.Prelude.{
  ℕ, ◌+◌, ◌/◌, ◌^◌, String, Bool, true, false, Option, some, List, [], ◌∷◌, map, length, filter_by,
  slice, min, ltb, leb, if◌then◌else◌,
}
use view_server.Protocol.Value.{Number, finite, Row}
use view_server.Protocol.Host.{Host}
use view_server.Protocol.QuerySemantics.{OrderBy, raw_query_order_by}
use view_server.Ordered.{stable_sort}
use view_server.Worker.Projection.{FieldProjection, project_row}
use view_server.Worker.QueryEngine.Filter.{RuntimeFilterNode, compile_filter}
use view_server.Worker.QueryEngine.TopRows.{
  SortEntry, compare_sort_entries, insert_top_sort_entry, offer_top_sort_entry,
}

-- `where` is a word of the language here.
pub record RuntimeRawQuery : Type 0 where
  pub fields : FieldProjection
  pub condition : Option RuntimeFilterNode
  pub order_by : Option OrderBy
  pub offset : Option Number
  pub limit : Option Number

pub record QueryExecutionResult : Type 0 where
  pub rows : List Row
  pub total_rows : ℕ

abbrev pub default_query_limit : ℕ
default_query_limit = 50

abbrev pub raw_query_window_splice_limit : ℕ
raw_query_window_splice_limit = 10_000

abbrev pub raw_query_window_optimization_limit : ℕ
raw_query_window_optimization_limit = 100_000

-- `Math.trunc` of a magnitude
unfoldable pub trunc : ℕ → ℕ
trunc magnitude = magnitude / 2 ^ 1074

unfoldable pub normalize_limit : Option Number → ℕ
normalize_limit (some (finite false m)) = min default_query_limit (trunc m)
normalize_limit (some (finite true m)) = 0
normalize_limit _ = default_query_limit

unfoldable pub normalize_offset : Option Number → ℕ
normalize_offset (some (finite false m)) = trunc m
normalize_offset _ = 0

-- `rows.map((row, index) => ({ row, index }))`
unfoldable pub with_indices : ℕ → List Row → List SortEntry
with_indices index [] = []
with_indices index (row ∷ rows) =
    record { row = row; index = index } ∷ with_indices (index + 1) rows

abbrev pub entry_row : SortEntry → Row
entry_row entry = entry.row

module _ (host : Host) where
  unfoldable pub stable_sort_rows : List Row → OrderBy → List Row
  stable_sort_rows rows order_by =
      map entry_row (stable_sort (compare_sort_entries host order_by) (with_indices 0 rows))

  -- The loop of `executeRawQueryWindowedSplice`, at row `index`; the loop of the heap variant differs in
  -- what it does with a row, `offer`.
  unfoldable pub window_loop :
      (List SortEntry → SortEntry → ℕ → List SortEntry)
      → (Row → Bool)
      → ℕ
      → List Row
      → ℕ
      → List SortEntry
      → ℕ
      → List SortEntry × ℕ
  window_loop offer filter window_end [] index top_rows total_rows = (top_rows, total_rows)
  window_loop offer filter window_end (row ∷ rows) index top_rows total_rows =
      let matched = filter row in
      window_loop offer filter window_end rows (index + 1)
        (if matched
          then if ltb 0 window_end
            then offer top_rows (record { row = row; index = index }) window_end
            else top_rows
          else top_rows)
        (if matched then total_rows + 1 else total_rows)

  abbrev pub window_result :
      RuntimeRawQuery → String → ℕ → ℕ → List SortEntry → ℕ → QueryExecutionResult
  window_result query id_field offset limit top_rows total_rows = record {
    rows = map (λ e. project_row e.row query.fields id_field) (slice top_rows offset limit);
    total_rows = total_rows;
  }

  unfoldable pub execute_raw_query_windowed_splice :
      List Row → RuntimeRawQuery → String → (Row → Bool) → OrderBy → ℕ → ℕ → QueryExecutionResult
  execute_raw_query_windowed_splice rows query id_field filter order_by offset limit =
      let (top_rows, total_rows) =
        window_loop (insert_top_sort_entry host order_by) filter (offset + limit) rows 0 [] 0 in
      window_result query id_field offset limit top_rows total_rows

  unfoldable pub execute_raw_query_windowed_heap :
      List Row → RuntimeRawQuery → String → (Row → Bool) → OrderBy → ℕ → ℕ → QueryExecutionResult
  execute_raw_query_windowed_heap rows query id_field filter order_by offset limit =
      let (top_rows, total_rows) =
        window_loop (offer_top_sort_entry host order_by) filter (offset + limit) rows 0 [] 0 in
      window_result query id_field offset limit
        (stable_sort (compare_sort_entries host order_by) top_rows) total_rows

  -- The end of `executeRawQuery`, for the largest windows: filter, sort, slice and project.
  unfoldable pub execute_raw_query_sorted :
      List Row → RuntimeRawQuery → String → (Row → Bool) → OrderBy → ℕ → ℕ → QueryExecutionResult
  unfolding stable_sort_rows
  execute_raw_query_sorted rows query id_field filter order_by offset limit =
      let sorted = stable_sort_rows (filter_by filter rows) order_by in
      record {
        rows = map (λ row. project_row row query.fields id_field) (slice sorted offset limit);
        total_rows = length sorted;
      }

  unfoldable pub execute_raw_query :
      (String → Bool) → List Row → RuntimeRawQuery → String → QueryExecutionResult
  unfolding execute_raw_query_windowed_splice execute_raw_query_windowed_heap
      execute_raw_query_sorted
  execute_raw_query literal_string_fields rows query id_field =
      let offset = normalize_offset query.offset in
      let limit = normalize_limit query.limit in
      let order_by = raw_query_order_by query.order_by id_field in
      let filter = compile_filter host literal_string_fields query.condition in
      if leb (offset + limit) raw_query_window_splice_limit
      then execute_raw_query_windowed_splice rows query id_field filter order_by offset limit
      else if leb (offset + limit) raw_query_window_optimization_limit
      then execute_raw_query_windowed_heap rows query id_field filter order_by offset limit
      else execute_raw_query_sorted rows query id_field filter order_by offset limit
