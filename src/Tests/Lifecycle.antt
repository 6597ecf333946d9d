-- ===== src/Tests/Lifecycle.antt =====
-- A live query that connects, goes live, and is closed.
use view_server.Prelude.{ℕ, List, [], ◌∷◌, Option, none, some, Bool, true, false, refl}
use view_server.Client.LiveQueryLifecycle.{
  AsyncResults, LiveQueryValue, closed_phase, live, LiveQueryLifecycleState,
  initial_live_query_lifecycle,
}
use view_server.Client.LiveQueryLifecycle.History.{
  Event, begin_attempt, snapshot, lifecycle_status, error, transitions, transition, IsConsistent,
  history_lem, IsShown, transition-IsShown,
}

abbrev Shown : Type 0
Shown = Option (LiveQueryValue ℕ) × Bool

abbrev previous_value : Option Shown → Option (LiveQueryValue ℕ)
previous_value none = none
previous_value (some (v, w)) = v

-- The results as what is read back from them.
abbrev results : AsyncResults (LiveQueryValue ℕ) ℕ
results = record {
  Result = Shown;
  initial = λ w. (none, w);
  success = λ v w. (some v, w);
  fail = λ e. (none, false);
  fail_with_previous = λ e previous w. (previous_value previous, w);
  value_of = λ r. r.0;
  waiting = λ r. r.1;
  value_of-initial = λ w. refl;
  value_of-success = λ v w. refl;
  value_of-fail = λ e. refl;
  value_of-fail_with_previous = λ e v w u. refl;
  waiting-initial = λ w. refl;
  waiting-success = λ v w. refl;
}

abbrev events : List (Event ℕ ℕ)
events = begin_attempt 1 10 ∷ snapshot (7 ∷ []) 1 20 ∷ lifecycle_status closed_phase 30 ∷ []

history_lem_example :
    IsConsistent results
      (transitions results (initial_live_query_lifecycle results none) events).lifecycle
history_lem_example = history_lem results none events

abbrev connected : LiveQueryLifecycleState ℕ
connected = record {
  has_value = true;
  value = record {
    rows = 7 ∷ [];
    total_rows = 1;
    status = live;
    connection = record {
      connected = true;
      attempt = 1;
      last_connected_at = some 20;
      last_disconnected_at = none;
    };
  };
}

transition-IsShown_example : IsShown results (transition results connected (error 3 40))
transition-IsShown_example = transition-IsShown results connected (error 3 40) (λ h. cc)
