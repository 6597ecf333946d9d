-- ===== src/Tests/Registry.antt =====
-- Two subscriptions under one request id.
use view_server.Prelude.{ℕ, String, [], ◌∷◌, none, some, true}
use view_server.Protocol.Value.{pos}
use view_server.Worker.QueryEngine.Query.{raw}
use view_server.Worker.SubscriptionRegistry.{
  ActiveSubscription, SubscriptionRegistry, replace, remove_for_queue,
}
use view_server.Worker.SubscriptionRegistry.Lookup.{
  Changed, RemovedForQueue, replace_lem, remove_for_queue_lem,
}

abbrev subscription : String → ℕ → ActiveSubscription
subscription request_id queue = record {
  request_id = request_id;
  query = raw (record {
    fields = ("id", true) ∷ [];
    condition = none;
    order_by = none;
    offset = none;
    limit = none;
  });
  dependency_fields = "id" ∷ [];
  queue = queue;
  last_rows = [];
  last_total_rows = 0;
  last_version = 3;
  pending_lag_versions = pos 2;
  active_view = none;
  active_plan_key = some "plan";
  active_plan_build_key = none;
  active_plan_fallback = none;
  active_plan_auto_build_skipped = none;
  dirty_target_version = none;
  grouped_refresh_scheduled = none;
  grouped_refresh_in_flight = none;
  grouped_accumulator = none;
}

abbrev registry : SubscriptionRegistry
registry = record { subscriptions = ("r1", subscription "r1" 7) ∷ []; hook_calls = [] }

replace_lem_example :
    Changed registry "r1" (some (subscription "r1" 8)) (replace registry (subscription "r1" 8))
replace_lem_example = replace_lem registry (subscription "r1" 8)

remove_for_queue_lem_example : RemovedForQueue registry "r1" 7 (remove_for_queue registry "r1" 7)
remove_for_queue_lem_example = remove_for_queue_lem registry "r1" 7
