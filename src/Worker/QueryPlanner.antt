-- ===== src/Worker/QueryPlanner.antt =====
-- worker/query-planner.ts: how a query is to be served. The reasons are texts for the log.
pub mod Reasons
use view_server.Prelude.{
  ℕ, ◌+◌, String, Bool, true, false, not, ◌&&◌, Option, none, some, ltb, leb, ◌==◌, if◌then◌else◌,
}
use view_server.Worker.QueryEngine.Execute.{RuntimeRawQuery, normalize_limit, normalize_offset}
use view_server.Worker.QueryEngine.Query.{
  RuntimeQuery, raw, grouped, RuntimeGroupedQuery, is_incremental_grouped_accumulator_supported,
}

pub data QueryOperation : Type 0 where
  query_operation subscription_operation : QueryOperation

pub data QueryStrategy : Type 0 where
  raw_small_window_snapshot raw_active_plan_eligible raw_active_plan_skipped : QueryStrategy
  grouped_chdb_refresh grouped_incremental_accumulator_eligible : QueryStrategy
  memory_fallback query_rejected_by_limits : QueryStrategy

pub record QueryPlan : Type 0 where
  pub operation : QueryOperation
  pub strategy : QueryStrategy
  pub reason : String

pub record QueryPlannerOptions : Type 0 where
  pub operation : QueryOperation
  pub query : RuntimeQuery
  pub row_count : ℕ
  pub raw_window_optimization_limit : ℕ
  pub active_plan_auto_build_max_rows : ℕ
  pub max_active_plans : Option ℕ
  pub grouped_accumulator_max_rows : ℕ
  pub supports_grouped_refresh_snapshots : Bool
  pub rejected_by_limits : Option Bool

abbrev pub is_true : Option Bool → Bool
is_true (some b) = b
is_true none = false

abbrev pub is_zero : Option ℕ → Bool
is_zero (some n) = n == 0
is_zero none = false

abbrev pub plan : QueryPlannerOptions → QueryStrategy → String → QueryPlan
plan options strategy reason = record {
  operation = options.operation;
  strategy = strategy;
  reason = reason;
}

abbrev pub fits_accumulator : QueryPlannerOptions → RuntimeGroupedQuery → Bool
fits_accumulator options query =
    ltb 0 options.grouped_accumulator_max_rows
    && leb options.row_count options.grouped_accumulator_max_rows
    && is_incremental_grouped_accumulator_supported query

unfoldable pub plan_grouped : QueryPlannerOptions → RuntimeGroupedQuery → QueryPlan
plan_grouped options query =
    if fits_accumulator options query
    then plan options grouped_incremental_accumulator_eligible
        "grouped query uses only incremental aggregate functions and fits row admission"
    else if options.supports_grouped_refresh_snapshots
    then plan options grouped_chdb_refresh
        "grouped query uses chDB refresh snapshot with memory fallback"
    else plan options memory_fallback "grouped query has no supported accelerator"

unfoldable pub window_end : RuntimeRawQuery → ℕ
unfolding normalize_limit normalize_offset
window_end query = normalize_offset query.offset + normalize_limit query.limit

unfoldable pub plan_raw : QueryPlannerOptions → RuntimeRawQuery → QueryOperation → QueryPlan
unfolding window_end
plan_raw options query query_operation =
    if leb (window_end query) options.raw_window_optimization_limit
    then plan options raw_small_window_snapshot
        "raw one-shot query fits small-window memory optimization"
    else plan options memory_fallback "raw one-shot query exceeds small-window optimization"
plan_raw options query subscription_operation =
    if ltb options.active_plan_auto_build_max_rows options.row_count
    then plan options raw_active_plan_skipped "topic row count exceeds activePlanAutoBuildMaxRows"
    else if is_zero options.max_active_plans
    then plan options raw_active_plan_skipped "maxActivePlans is zero"
    else plan options raw_active_plan_eligible
        "raw subscription is eligible for active plan admission"

abbrev pub plan_kind : QueryPlannerOptions → RuntimeQuery → QueryPlan
plan_kind options (grouped query) = plan_grouped options query
plan_kind options (raw query) = plan_raw options query options.operation

unfoldable pub plan_query : QueryPlannerOptions → QueryPlan
unfolding plan_grouped plan_raw
plan_query options =
    if is_true options.rejected_by_limits
    then plan options query_rejected_by_limits "query failed configured limit policy"
    else plan_kind options options.query
