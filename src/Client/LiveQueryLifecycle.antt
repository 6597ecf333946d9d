-- ===== src/Client/LiveQueryLifecycle.antt =====
-- client/live-query-lifecycle.ts: the value and the connection that a live query shows. `AsyncResult` of
-- the effect package is a parameter, `now` is the time that the caller passes.
pub mod History
use view_server.Prelude.{
  ℕ, Bool, true, false, Option, none, some, List, [], ◌≡◌, ltb, ◌&&◌, if◌then◌else◌,
}

-- What is used of `AsyncResult`, with what `AsyncResult.value` reads back.
pub record AsyncResults {ℓ} (V : Type ℓ) (E : Type ℓ) : Type (ℓ + 1) where
  pub Result : Type ℓ
  pub initial : Bool → Result
  pub success : V → Bool → Result
  pub fail : E → Result
  pub fail_with_previous : E → Option Result → Bool → Result
  pub value_of : Result → Option V
  pub waiting : Result → Bool
  pub value_of-initial : (w : Bool) → value_of (initial w) ≡ none
  pub value_of-success : (v : V) (w : Bool) → value_of (success v w) ≡ some v
  pub value_of-fail : (e : E) → value_of (fail e) ≡ none
  pub value_of-fail_with_previous :
      (e : E) (v : V) (w u : Bool) → value_of (fail_with_previous e (some (success v w)) u) ≡ some v
  pub waiting-initial : (w : Bool) → waiting (initial w) ≡ w
  pub waiting-success : (v : V) (w : Bool) → waiting (success v w) ≡ w

pub data LiveQueryStatus : Type 0 where
  connecting live reconnecting stale : LiveQueryStatus

pub data LiveQueryLifecycle : Type 0 where
  connecting_phase syncing_phase live_phase closed_phase : LiveQueryLifecycle

pub record LiveQueryConnection : Type 0 where
  pub connected : Bool
  pub attempt : ℕ
  pub last_connected_at : Option ℕ
  pub last_disconnected_at : Option ℕ

pub record LiveQueryInitialData {ℓ} (R : Type ℓ) : Type ℓ where
  pub rows : List R
  pub total_rows : ℕ

pub record LiveQueryValue {ℓ} (R : Type ℓ) : Type ℓ where
  pub rows : List R
  pub total_rows : ℕ
  pub status : LiveQueryStatus
  pub connection : LiveQueryConnection

pub record LiveQueryLifecycleState {ℓ} (R : Type ℓ) : Type ℓ where
  pub value : LiveQueryValue R
  pub has_value : Bool

abbrev pub is_live_phase : LiveQueryLifecycle → Bool
is_live_phase live_phase = true
is_live_phase _ = false

module _ {ℓ} {R E : Type ℓ} (results : AsyncResults (LiveQueryValue R) E) where
  pub record LiveQueryTransition : Type ℓ where
    pub lifecycle : LiveQueryLifecycleState R
    pub result : results.Result

  unfoldable pub success_result : LiveQueryLifecycleState R → Bool → results.Result
  success_result lifecycle waiting = results.success lifecycle.value waiting

  unfoldable pub waiting_result : LiveQueryLifecycleState R → results.Result
  unfolding success_result
  waiting_result lifecycle =
      if lifecycle.has_value then success_result lifecycle true else results.initial true

  unfoldable pub status_from_lifecycle :
      LiveQueryLifecycleState R → LiveQueryLifecycle → LiveQueryStatus
  status_from_lifecycle lifecycle status =
      if is_live_phase status && lifecycle.value.connection.connected
      then live
      else if ltb 1 lifecycle.value.connection.attempt
      then reconnecting
      else if lifecycle.has_value
      then stale
      else connecting

  abbrev pub rows_of : Option (LiveQueryInitialData R) → List R
  rows_of none = []
  rows_of (some initial_data) = initial_data.rows

  abbrev pub total_rows_of : Option (LiveQueryInitialData R) → ℕ
  total_rows_of none = 0
  total_rows_of (some initial_data) = initial_data.total_rows

  abbrev pub is_given : Option (LiveQueryInitialData R) → Bool
  is_given none = false
  is_given (some _) = true

  unfoldable pub initial_live_query_lifecycle :
      Option (LiveQueryInitialData R) → LiveQueryTransition
  unfolding waiting_result
  initial_live_query_lifecycle initial_data =
      let lifecycle : LiveQueryLifecycleState R = record {
        has_value = is_given initial_data;
        value = record {
          rows = rows_of initial_data;
          total_rows = total_rows_of initial_data;
          status = if is_given initial_data then stale else connecting;
          connection = record {
            connected = false;
            attempt = 0;
            last_connected_at = none;
            last_disconnected_at = none;
          };
        };
      } in
      record { lifecycle = lifecycle; result = waiting_result lifecycle }

  abbrev pub closed_connection : LiveQueryLifecycle → LiveQueryConnection → ℕ → LiveQueryConnection
  closed_connection closed_phase c now = record c {
    connected = false;
    last_disconnected_at = some now;
  }
  closed_connection _ c now = c

  unfoldable pub transition_lifecycle_status :
      LiveQueryLifecycleState R → LiveQueryLifecycle → ℕ → LiveQueryTransition
  unfolding status_from_lifecycle success_result waiting_result
  transition_lifecycle_status lifecycle status now =
      let next = record lifecycle {
        value = record lifecycle.value {
          status = status_from_lifecycle lifecycle status;
          connection = closed_connection status lifecycle.value.connection now;
        };
      } in
      record {
        lifecycle = next;
        result = if is_live_phase status then success_result next false else waiting_result next;
      }

  unfoldable pub transition_error : LiveQueryLifecycleState R → E → ℕ → LiveQueryTransition
  transition_error lifecycle error now =
      let connection = lifecycle.value.connection in
      let next = record lifecycle {
        value = record lifecycle.value {
          status = if ltb 1 connection.attempt then reconnecting else stale;
          connection = record connection { connected = false; last_disconnected_at = some now };
        };
      } in
      record {
        lifecycle = next;
        result =
            if next.has_value
            then results.fail_with_previous error (some (results.success next.value true)) true
            else results.fail error;
      }

  unfoldable pub transition_begin_attempt : LiveQueryLifecycleState R → ℕ → ℕ → LiveQueryTransition
  unfolding waiting_result
  transition_begin_attempt lifecycle attempt now =
      let connection = lifecycle.value.connection in
      let next = record lifecycle {
        value = record lifecycle.value {
          status = if lifecycle.has_value then stale else connecting;
          connection = record {
            connected = false;
            attempt = attempt;
            last_connected_at = connection.last_connected_at;
            last_disconnected_at =
                if connection.connected then some now else connection.last_disconnected_at;
          };
        };
      } in
      record { lifecycle = next; result = waiting_result next }

  unfoldable pub transition_retry_attempt : LiveQueryLifecycleState R → ℕ → ℕ → LiveQueryTransition
  unfolding waiting_result
  transition_retry_attempt lifecycle attempt now =
      let next = record lifecycle {
        value = record lifecycle.value {
          status = if lifecycle.has_value then reconnecting else connecting;
          connection = record lifecycle.value.connection {
            connected = false;
            attempt = attempt;
            last_disconnected_at = some now;
          };
        };
      } in
      record { lifecycle = next; result = waiting_result next }

  unfoldable pub transition_snapshot :
      LiveQueryLifecycleState R → List R → ℕ → ℕ → LiveQueryTransition
  unfolding success_result
  transition_snapshot lifecycle rows total_rows now =
      let next : LiveQueryLifecycleState R = record {
        has_value = true;
        value = record {
          rows = rows;
          total_rows = total_rows;
          status = live;
          connection = record lifecycle.value.connection {
            connected = true;
            last_connected_at = some now;
          };
        };
      } in
      record { lifecycle = next; result = success_result next false }

  unfoldable pub transition_status_event :
      LiveQueryLifecycleState R → List R → ℕ → LiveQueryStatus → LiveQueryTransition
  unfolding waiting_result
  transition_status_event lifecycle rows total_rows status =
      let next : LiveQueryLifecycleState R = record {
        has_value = true;
        value = record {
          rows = rows;
          total_rows = total_rows;
          status = status;
          connection = record lifecycle.value.connection { connected = true };
        };
      } in
      record { lifecycle = next; result = waiting_result next }

  unfoldable pub transition_delta : LiveQueryLifecycleState R → List R → ℕ → ℕ → LiveQueryTransition
  unfolding success_result
  transition_delta lifecycle rows total_rows now =
      let next : LiveQueryLifecycleState R = record {
        has_value = true;
        value = record {
          rows = rows;
          total_rows = total_rows;
          status = live;
          connection = record lifecycle.value.connection {
            connected = true;
            last_connected_at = some now;
          };
        };
      } in
      record { lifecycle = next; result = success_result next false }
