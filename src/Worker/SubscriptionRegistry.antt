-- ===== src/Worker/SubscriptionRegistry.antt =====
-- worker/subscription-registry.ts: the subscriptions of a topic by request id. Queues, active views and
-- accumulators are references. The calls of the hooks are kept in order, with their arguments.
pub mod Lookup
use text.Mathlib.Text.{◌==◌ as str_eq}
use view_server.Prelude.{
  ℕ, zero, suc, String, Bool, true, false, Option, none, some, List, [], ◌∷◌, ◌++◌, length, ◌==◌,
  if◌then◌else◌,
}
use view_server.Protocol.Value.{BigInt, pos, Row}
use view_server.Worker.QueryEngine.Execute.{QueryExecutionResult}
use view_server.Worker.QueryEngine.Query.{RuntimeQuery}

pub record ActiveSubscription : Type 0 where
  pub request_id : String
  pub query : RuntimeQuery
  pub dependency_fields : List String
  pub queue : ℕ
  pub last_rows : List Row
  pub last_total_rows : ℕ
  pub last_version : ℕ
  pub pending_lag_versions : BigInt
  pub active_view : Option ℕ
  pub active_plan_key : Option String
  pub active_plan_build_key : Option String
  pub active_plan_fallback : Option Bool
  pub active_plan_auto_build_skipped : Option Bool
  pub dirty_target_version : Option ℕ
  pub grouped_refresh_scheduled : Option Bool
  pub grouped_refresh_in_flight : Option Bool
  pub grouped_accumulator : Option ℕ

pub record ShutdownSubscription : Type 0 where
  pub request_id : String
  pub queue : ℕ

-- What is read of a `MaterializedSubscriptionChange`.
pub record MaterializedSubscriptionChange : Type 0 where
  pub next_rows : Option (List Row)
  pub total_rows : ℕ

pub data HookCall : Type 0 where
  release_active_plan : Option String → HookCall
  release_active_plan_build : Option String → String → HookCall
  release_grouped_refresh : String → HookCall

abbrev pub Subscriptions : Type 0
Subscriptions = List (String × ActiveSubscription)

-- The map of the registry, with its entries in order.
pub record SubscriptionRegistry : Type 0 where
  pub subscriptions : Subscriptions
  pub hook_calls : List HookCall

-- `map.get`, `map.set` and `map.delete`
unfoldable pub lookup : Subscriptions → String → Option ActiveSubscription
lookup [] id = none
lookup ((key, s) ∷ entries) id = if str_eq key id then some s else lookup entries id

unfoldable pub insert : Subscriptions → String → ActiveSubscription → Subscriptions
insert [] id s = (id, s) ∷ []
insert ((key, old) ∷ entries) id s =
    if str_eq key id then (key, s) ∷ entries else (key, old) ∷ insert entries id s

unfoldable pub erase : Subscriptions → String → Subscriptions
erase [] id = []
erase ((key, s) ∷ entries) id =
    if str_eq key id then erase entries id else (key, s) ∷ erase entries id

abbrev pub size : SubscriptionRegistry → ℕ
size registry = length registry.subscriptions

unfoldable pub get : SubscriptionRegistry → String → Option ActiveSubscription
unfolding lookup
get registry request_id = lookup registry.subscriptions request_id

unfoldable pub reset_subscription_state : ActiveSubscription → ActiveSubscription
reset_subscription_state s = record s {
  pending_lag_versions = pos 0;
  dirty_target_version = none;
  active_plan_auto_build_skipped = some false;
  grouped_refresh_scheduled = some false;
  grouped_refresh_in_flight = some false;
}

-- The calls of the hooks when a subscription is removed.
abbrev pub releases : ActiveSubscription → String → List HookCall
releases s request_id =
    release_active_plan s.active_plan_key
    ∷ release_active_plan_build s.active_plan_build_key request_id
    ∷ release_grouped_refresh request_id
    ∷ []

-- `remove`, given what the map has at the id.
unfoldable pub remove_found :
    SubscriptionRegistry
    → String
    → Option ActiveSubscription
    → SubscriptionRegistry × Option ActiveSubscription
unfolding erase reset_subscription_state
remove_found registry request_id none = (registry, none)
remove_found registry request_id (some s) = (
  record {
    subscriptions = erase registry.subscriptions request_id;
    hook_calls = registry.hook_calls ++ releases s request_id;
  },
  some (reset_subscription_state s),
)

unfoldable pub remove :
    SubscriptionRegistry → String → SubscriptionRegistry × Option ActiveSubscription
unfolding get remove_found
remove registry request_id = remove_found registry request_id (get registry request_id)

unfoldable pub replace :
    SubscriptionRegistry → ActiveSubscription → SubscriptionRegistry × Option ActiveSubscription
unfolding remove insert
replace registry s =
    let (removed, previous) = remove registry s.request_id in
    (record removed { subscriptions = insert removed.subscriptions s.request_id s }, previous)

-- `subscription?.queue === queue`
abbrev pub has_queue : Option ActiveSubscription → ℕ → Bool
has_queue none queue = false
has_queue (some s) queue = s.queue == queue

unfoldable pub remove_for_queue :
    SubscriptionRegistry → String → ℕ → SubscriptionRegistry × Option ActiveSubscription
unfolding get remove
remove_for_queue registry request_id queue =
    if has_queue (get registry request_id) queue
    then remove registry request_id
    else (registry, none)

unfoldable pub shutdown_subscriptions : Subscriptions → List ShutdownSubscription
shutdown_subscriptions [] = []
shutdown_subscriptions ((_, s) ∷ entries) =
    record { request_id = s.request_id; queue = s.queue } ∷ shutdown_subscriptions entries

unfoldable pub clear_for_shutdown :
    SubscriptionRegistry → SubscriptionRegistry × List ShutdownSubscription
unfolding shutdown_subscriptions
clear_for_shutdown registry =
    (record registry { subscriptions = [] }, shutdown_subscriptions registry.subscriptions)

-- The writes to one subscription.
unfoldable pub advance_version : ActiveSubscription → ℕ → ActiveSubscription
advance_version s version = record s { last_version = version }

abbrev pub rows_or : Option (List Row) → List Row → List Row
rows_or none rows = rows
rows_or (some next_rows) rows = next_rows

unfoldable pub apply_delta :
    ActiveSubscription → MaterializedSubscriptionChange → ℕ → ActiveSubscription
apply_delta s change version = record s {
  last_rows = rows_or change.next_rows s.last_rows;
  last_total_rows = change.total_rows;
  last_version = version;
}

unfoldable pub apply_snapshot : ActiveSubscription → QueryExecutionResult → ℕ → ActiveSubscription
apply_snapshot s result version = record s {
  last_rows = result.rows;
  last_total_rows = result.total_rows;
  last_version = version;
  dirty_target_version = none;
}

abbrev pub total_or : Option ℕ → ℕ → ℕ
total_or none total_rows = total_rows
total_or (some n) total_rows = n

unfoldable pub mark_dirty : ActiveSubscription → ℕ → Option ℕ → ActiveSubscription
mark_dirty s target_version total_rows = record s {
  dirty_target_version = some target_version;
  last_total_rows = total_or total_rows s.last_total_rows;
}

unfoldable pub is_dirty : ActiveSubscription → Bool
is_dirty s = elim s.dirty_target_version [ none ↦ false | some _ ↦ true ]

unfoldable pub reset_active_plan_admission : ActiveSubscription → ActiveSubscription
reset_active_plan_admission s = record s {
  active_plan_fallback = some false;
  active_plan_auto_build_skipped = some false;
}

unfoldable pub mark_active_plan_build_queued : ActiveSubscription → String → ActiveSubscription
mark_active_plan_build_queued s key = record s { active_plan_build_key = some key }

unfoldable pub mark_active_plan_build_cleared : ActiveSubscription → ActiveSubscription
mark_active_plan_build_cleared s = record s { active_plan_build_key = none }

unfoldable pub mark_active_plan_fallback : ActiveSubscription → ActiveSubscription
mark_active_plan_fallback s = record s {
  active_plan_build_key = none;
  active_plan_fallback = some true;
}

unfoldable pub mark_active_plan_auto_build_skipped : ActiveSubscription → ActiveSubscription
mark_active_plan_auto_build_skipped s = record s {
  active_plan_auto_build_skipped = some true;
  active_plan_build_key = none;
}

unfoldable pub activate_active_plan : ActiveSubscription → String → ℕ → ActiveSubscription
activate_active_plan s key active_view = record s {
  active_plan_key = some key;
  active_plan_build_key = none;
  active_plan_fallback = some false;
  active_plan_auto_build_skipped = some false;
  active_view = some active_view;
}

unfoldable pub mark_grouped_refresh_scheduled : ActiveSubscription → ActiveSubscription
mark_grouped_refresh_scheduled s = record s { grouped_refresh_scheduled = some true }

unfoldable pub mark_grouped_refresh_in_flight : ActiveSubscription → ActiveSubscription
mark_grouped_refresh_in_flight s = record s {
  grouped_refresh_scheduled = some false;
  grouped_refresh_in_flight = some true;
}

unfoldable pub mark_grouped_refresh_idle : ActiveSubscription → ActiveSubscription
mark_grouped_refresh_idle s = record s {
  grouped_refresh_scheduled = some false;
  grouped_refresh_in_flight = some false;
}

unfoldable pub set_grouped_accumulator : ActiveSubscription → ℕ → ActiveSubscription
set_grouped_accumulator s grouped_accumulator = record s {
  grouped_accumulator = some grouped_accumulator;
}
