-- ===== src/Tests/Planner.antt =====
-- A subscription that fits an active plan.
use view_server.Prelude.{[], ◌∷◌, none, some, true, false}
use view_server.Worker.QueryEngine.Query.{raw}
use view_server.Worker.QueryPlanner.{QueryPlannerOptions, subscription_operation, plan_query}
use view_server.Worker.QueryPlanner.Reasons.{Means, plan_query_lem}

abbrev options : QueryPlannerOptions
options = record {
  operation = subscription_operation;
  query = raw (record {
    fields = ("id", true) ∷ [];
    condition = none;
    order_by = none;
    offset = none;
    limit = none;
  });
  row_count = 10;
  raw_window_optimization_limit = 100;
  active_plan_auto_build_max_rows = 50;
  max_active_plans = some 4;
  grouped_accumulator_max_rows = 0;
  supports_grouped_refresh_snapshots = false;
  rejected_by_limits = none;
}

plan_query_lem_example : Means options options.query options.operation (plan_query options).strategy
plan_query_lem_example = plan_query_lem options
