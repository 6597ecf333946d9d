-- ===== src/Worker/SubscriptionRegistry/Lookup.antt =====
-- worker/subscription-registry.ts: `replace`, `remove` and `removeForQueue` against what is found at an id.
use text.Mathlib.Text.{◌==◌ as str_eq}
use mathlib.Core.Path.{subst}
use view_server.Prelude.{
  ℕ, String, ◌≡◌, refl, sym, ap, ◌∙◌, ◌≢◌, ◌⊎◌, inl, inr, true, false, Option, none, some,
  some-injective, List, [], ◌∷◌, ◌++◌, append-nil, arith, ℕ_discrete, if◌then◌else◌, Bool-cases,
}
use view_server.Protocol.Value.{pos}
use view_server.Protocol.Texts.{same_text, other_text, equal_texts}
use view_server.Worker.SubscriptionRegistry.{
  ActiveSubscription, Subscriptions, SubscriptionRegistry, HookCall, lookup, insert, erase, get,
  release_active_plan, release_active_plan_build, release_grouped_refresh, reset_subscription_state,
  releases, remove_found, remove, replace, has_queue, remove_for_queue,
}

lookup-erase_self : (entries : Subscriptions) (id : String) → lookup (erase entries id) id ≡ none
unfolding lookup erase
lookup-erase_self [] id = refl
lookup-erase_self ((key, s) ∷ entries) id = elim (Bool-cases (str_eq key id)) [
  | inl e ↦ rw (e, lookup) (lookup-erase_self entries id)
  | inr e ↦ rw (e, lookup) (rw e (lookup-erase_self entries id))
]

lookup-erase_other :
    (entries : Subscriptions) (id other : String)
    → id ≢ other
    → lookup (erase entries id) other ≡ lookup entries other
unfolding lookup erase
lookup-erase_other [] id other d = refl
lookup-erase_other ((key, s) ∷ entries) id other d = elim (Bool-cases (str_eq key id)) [
  | inl e ↦
      let apart : str_eq key other ≡ false =
        other_text key other (λ q. d (sym (equal_texts key id e) ∙ q)) in
      rw (e, lookup) (rw apart (lookup-erase_other entries id other d))
  | inr e ↦
      rw (e, lookup)
        (ap (λ r. if str_eq key other then some s else r) (lookup-erase_other entries id other d))
]

lookup-insert_self :
    (entries : Subscriptions) (id : String) (s : ActiveSubscription)
    → lookup (insert entries id s) id ≡ some s
unfolding lookup insert
lookup-insert_self [] id s = rw (same_text id) refl
lookup-insert_self ((key, old) ∷ entries) id s = elim (Bool-cases (str_eq key id)) [
  | inl e ↦ rw (e, lookup) (rw e refl)
  | inr e ↦ rw (e, lookup) (rw e (lookup-insert_self entries id s))
]

lookup-insert_other :
    (entries : Subscriptions) (id other : String) (s : ActiveSubscription)
    → id ≢ other
    → lookup (insert entries id s) other ≡ lookup entries other
unfolding lookup insert
lookup-insert_other [] id other s d = rw (other_text id other d) refl
lookup-insert_other ((key, old) ∷ entries) id other s d = elim (Bool-cases (str_eq key id)) [
  | inl e ↦
      let apart : str_eq key other ≡ false =
        other_text key other (λ q. d (sym (equal_texts key id e) ∙ q)) in
      rw (e, lookup) (rw apart refl)
  | inr e ↦
      rw (e, lookup)
        (ap (λ r. if str_eq key other then some old else r)
          (lookup-insert_other entries id other s d))
]

-- What is returned for a subscription that is dropped: it without the state of its work that waits, and
-- with everything else.
pub record IsReset (before after : ActiveSubscription) : Type 0 where
  pub pending_lag_versions : after.pending_lag_versions ≡ pos 0
  pub dirty_target_version : after.dirty_target_version ≡ none
  pub active_plan_auto_build_skipped : after.active_plan_auto_build_skipped ≡ some false
  pub grouped_refresh_scheduled : after.grouped_refresh_scheduled ≡ some false
  pub grouped_refresh_in_flight : after.grouped_refresh_in_flight ≡ some false
  pub request_id : after.request_id ≡ before.request_id
  pub query : after.query ≡ before.query
  pub dependency_fields : after.dependency_fields ≡ before.dependency_fields
  pub queue : after.queue ≡ before.queue
  pub last_rows : after.last_rows ≡ before.last_rows
  pub last_total_rows : after.last_total_rows ≡ before.last_total_rows
  pub last_version : after.last_version ≡ before.last_version
  pub active_view : after.active_view ≡ before.active_view
  pub active_plan_key : after.active_plan_key ≡ before.active_plan_key
  pub active_plan_build_key : after.active_plan_build_key ≡ before.active_plan_build_key
  pub active_plan_fallback : after.active_plan_fallback ≡ before.active_plan_fallback
  pub grouped_accumulator : after.grouped_accumulator ≡ before.grouped_accumulator

-- The subscription that was there, if any, against what is returned and the hooks that are called.
abbrev pub IsDropped :
    String → Option ActiveSubscription → Option ActiveSubscription → List HookCall → Type 0
IsDropped id none returned hooks = (returned ≡ none) × (hooks ≡ [])
IsDropped id (some s) returned hooks =
    ((after : ActiveSubscription) × (returned ≡ some after) × IsReset s after)
    × (hooks
        ≡ release_active_plan s.active_plan_key
          ∷ release_active_plan_build s.active_plan_build_key id
          ∷ release_grouped_refresh id
          ∷ [])

-- The registry after a call has `now` at the id and what it had at the others; what was there before is
-- dropped, and its hooks come after the calls that were made before.
pub record Changed (before : SubscriptionRegistry) (id : String) (now : Option ActiveSubscription)
    (after : SubscriptionRegistry × Option ActiveSubscription) : Type 0 where
  pub at_id : get after.0 id ≡ now
  pub elsewhere : (other : String) → id ≢ other → get after.0 other ≡ get before other
  pub hooks : List HookCall
  pub called : after.0.hook_calls ≡ before.hook_calls ++ hooks
  pub drops : IsDropped id (get before id) after.1 hooks

reset_subscription_state-IsReset : (s : ActiveSubscription) → IsReset s (reset_subscription_state s)
unfolding reset_subscription_state
reset_subscription_state-IsReset s = record {
  pending_lag_versions = refl;
  dirty_target_version = refl;
  active_plan_auto_build_skipped = refl;
  grouped_refresh_scheduled = refl;
  grouped_refresh_in_flight = refl;
  request_id = refl;
  query = refl;
  dependency_fields = refl;
  queue = refl;
  last_rows = refl;
  last_total_rows = refl;
  last_version = refl;
  active_view = refl;
  active_plan_key = refl;
  active_plan_build_key = refl;
  active_plan_fallback = refl;
  grouped_accumulator = refl;
}

remove_found_lem :
    (r : SubscriptionRegistry) (id : String) (found : Option ActiveSubscription)
    → get r id ≡ found
    → Changed r id none (remove_found r id found)
unfolding get remove_found
remove_found_lem r id none e = record {
  at_id = e;
  elsewhere = λ other d. refl;
  hooks = [];
  called = sym (append-nil r.hook_calls);
  drops = subst (λ found. IsDropped id found none []) (sym e) (refl, refl);
}
remove_found_lem r id (some s) e = record {
  at_id = lookup-erase_self r.subscriptions id;
  elsewhere = lookup-erase_other r.subscriptions id;
  hooks = releases s id;
  called = refl;
  drops =
      subst (λ found. IsDropped id found (some (reset_subscription_state s)) (releases s id))
        (sym e) ((reset_subscription_state s, refl, reset_subscription_state-IsReset s), refl);
}

-- After `remove` nothing is at the id, and the others are as they were.
pub remove_lem : (r : SubscriptionRegistry) (id : String) → Changed r id none (remove r id)
unfolding remove
remove_lem r id = remove_found_lem r id (get r id) refl

-- The subscription at the id has the queue.
abbrev pub IsHeld : SubscriptionRegistry → String → ℕ → Type 0
IsHeld r id queue = (s : ActiveSubscription) × (get r id ≡ some s) × (s.queue ≡ queue)

abbrev pub RemovedForQueue :
    SubscriptionRegistry → String → ℕ → SubscriptionRegistry × Option ActiveSubscription → Type 0
RemovedForQueue r id queue after =
    (IsHeld r id queue × Changed r id none after) ⊎ ((¬ IsHeld r id queue) × (after ≡ (r, none)))

has_queue_lem :
    (found : Option ActiveSubscription) (queue : ℕ)
    → ((s : ActiveSubscription) × (found ≡ some s)
        × (s.queue ≡ queue)
        × (has_queue found queue ≡ true))
      ⊎ ((¬ ((s : ActiveSubscription) × (found ≡ some s) × (s.queue ≡ queue)))
          × (has_queue found queue ≡ false))
has_queue_lem none queue = inr ((λ (s, at, same). none_ne_some at), refl)
  where
    none_ne_some : {s : ActiveSubscription} → none ≢ some s
    none_ne_some e = cc
has_queue_lem (some s) queue = elim (ℕ_discrete s.queue queue) [
  | yes same ↦ inl (s, refl, same, ground (arith, same))
  | no apart ↦ inr (
    (λ (t, at, same). apart (ap (λ u. u.queue) (some-injective _ _ at) ∙ same)),
    ground (arith, apart),
  )
]

-- `removeForQueue` removes the subscription at the id if that has the queue: then nothing is at the id,
-- the others are as they were, it is returned without the state of its work that waits, and the three hooks
-- are called for it. If none with that queue is at the id, all is as it was and none is returned.
pub remove_for_queue_lem :
    (r : SubscriptionRegistry) (id : String) (queue : ℕ)
    → RemovedForQueue r id queue (remove_for_queue r id queue)
unfolding remove_for_queue
remove_for_queue_lem r id queue = elim (has_queue_lem (get r id) queue) [
  | inl (s, at, same, test) ↦ rw test (inl ((s, at, same), remove_lem r id))
  | inr (apart, test) ↦ rw test (inr (apart, refl))
]

-- After `replace` the registry has the new subscription at its request id and what it had at all others.
-- If one was there before, it is returned with no lag, no dirty version, no skipped build and no
-- grouped refresh, and otherwise as it was, and to the hooks called are added, in order, the release of its
-- active plan, of the build of that, and of its grouped refresh. If none was, none is returned and no
-- hook is called.
pub replace_lem :
    (r : SubscriptionRegistry) (s : ActiveSubscription)
    → Changed r s.request_id (some s) (replace r s)
unfolding replace get
replace_lem r s =
    let c = remove_lem r s.request_id in
    let removed = (remove r s.request_id).0.subscriptions in
    record {
      at_id = lookup-insert_self removed s.request_id s;
      elsewhere =
          λ other d. lookup-insert_other removed s.request_id other s d ∙ c.elsewhere other d;
      hooks = c.hooks;
      called = c.called;
      drops = c.drops;
    }
