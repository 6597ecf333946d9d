-- ===== src/Client/LiveQueryLifecycle/History.antt =====
-- client/live-query-lifecycle.ts: what holds of a live query after any transitions.
use view_server.Prelude.{
  ℕ, Bool, true, false, Option, none, some, List, [], ◌∷◌, ◌≡◌, refl, ltb, if◌then◌else◌,
  Bool-cases, inl, inr, ◌≢◌,
}
use view_server.Client.LiveQueryLifecycle.{
  AsyncResults, LiveQueryStatus, connecting, live, reconnecting, stale, LiveQueryLifecycle,
  connecting_phase, syncing_phase, live_phase, closed_phase, LiveQueryInitialData, LiveQueryValue,
  LiveQueryLifecycleState, LiveQueryTransition, success_result, waiting_result,
  status_from_lifecycle, initial_live_query_lifecycle, transition_lifecycle_status,
  transition_error, transition_begin_attempt, transition_retry_attempt, transition_snapshot,
  transition_status_event, transition_delta,
}

-- The calls of the functions, with their arguments.
pub data Event {ℓ} (R E : Type ℓ) : Type ℓ where
  lifecycle_status : LiveQueryLifecycle → ℕ → Event R E
  error : E → ℕ → Event R E
  begin_attempt retry_attempt : ℕ → ℕ → Event R E
  snapshot delta : List R → ℕ → ℕ → Event R E
  status_event : List R → ℕ → LiveQueryStatus → Event R E

module _ {ℓ} {R E : Type ℓ} (results : AsyncResults (LiveQueryValue R) E) where
  unfoldable pub transition : LiveQueryLifecycleState R → Event R E → LiveQueryTransition results
  transition l (lifecycle_status status now) = transition_lifecycle_status results l status now
  transition l (error e now) = transition_error results l e now
  transition l (begin_attempt attempt now) = transition_begin_attempt results l attempt now
  transition l (retry_attempt attempt now) = transition_retry_attempt results l attempt now
  transition l (snapshot rows total_rows now) = transition_snapshot results l rows total_rows now
  transition l (delta rows total_rows now) = transition_delta results l rows total_rows now
  transition l (status_event rows total_rows status) =
      transition_status_event results l rows total_rows status

  unfoldable pub transitions :
      LiveQueryTransition results → List (Event R E) → LiveQueryTransition results
  unfolding transition
  transitions t [] = t
  transitions t (e ∷ es) = transitions (transition t.lifecycle e) es

  -- A live query that shows `live` is connected, and one that is connected has a value.
  abbrev pub IsConsistent : LiveQueryLifecycleState R → Type 0
  IsConsistent l =
      (l.value.status ≡ live → l.value.connection.connected ≡ true)
      × (l.value.connection.connected ≡ true → l.has_value ≡ true)

  -- The value that the result carries.
  abbrev pub shown : LiveQueryLifecycleState R → Option (LiveQueryValue R)
  shown l = if l.has_value then some l.value else none

  -- One transition leaves this.
  abbrev pub IsShown : LiveQueryTransition results → Type ℓ
  IsShown t = results.value_of t.result ≡ shown t.lifecycle

  waiting_lem :
      (l : LiveQueryLifecycleState R) → results.value_of (waiting_result results l) ≡ shown l
  unfolding waiting_result success_result
  waiting_lem l = elim (Bool-cases l.has_value) [
    | inl h ↦ rw h (results.value_of-success l.value true)
    | inr h ↦ rw h (results.value_of-initial true)
  ]

  not_live : (b c : Bool) → (if b then reconnecting else if c then stale else connecting) ≢ live
  not_live true c h = cc
  not_live false true h = cc
  not_live false false h = cc

  status_lem :
      (l : LiveQueryLifecycleState R) (status : LiveQueryLifecycle)
      → status_from_lifecycle results l status ≡ live
      → (status ≡ live_phase) × (l.value.connection.connected ≡ true)
  unfolding status_from_lifecycle
  status_lem l live_phase h = elim (Bool-cases l.value.connection.connected) [
    | inl c ↦ (refl, c)
    | inr c ↦ absurd (not_live (ltb 1 l.value.connection.attempt) l.has_value (rw c at h))
  ]
  status_lem l connecting_phase h =
      absurd (not_live (ltb 1 l.value.connection.attempt) l.has_value h)
  status_lem l syncing_phase h = absurd (not_live (ltb 1 l.value.connection.attempt) l.has_value h)
  status_lem l closed_phase h = absurd (not_live (ltb 1 l.value.connection.attempt) l.has_value h)

  pub transition-IsConsistent :
      (l : LiveQueryLifecycleState R) (e : Event R E)
      → IsConsistent l
      → IsConsistent (transition l e).lifecycle
  unfolding transition transition_lifecycle_status transition_error transition_begin_attempt
      transition_retry_attempt transition_snapshot transition_status_event transition_delta
  transition-IsConsistent l (lifecycle_status live_phase now) (a, b) =
      ((λ h. (status_lem l live_phase h).1), b)
  transition-IsConsistent l (lifecycle_status connecting_phase now) (a, b) =
      ((λ h. (status_lem l connecting_phase h).1), b)
  transition-IsConsistent l (lifecycle_status syncing_phase now) (a, b) =
      ((λ h. (status_lem l syncing_phase h).1), b)
  transition-IsConsistent l (lifecycle_status closed_phase now) (a, b) =
      ((λ h. absurd (closed_ne_live (status_lem l closed_phase h).0)), λ h. cc)
    where
      closed_ne_live : closed_phase ≢ live_phase
      closed_ne_live h = cc
  transition-IsConsistent l (error e now) (a, b) =
      ((λ h. absurd (two (ltb 1 l.value.connection.attempt) h)), λ h. cc)
    where
      two : (b : Bool) → (if b then reconnecting else stale) ≢ live
      two true h = cc
      two false h = cc
  transition-IsConsistent l (begin_attempt attempt now) (a, b) =
      ((λ h. absurd (two l.has_value h)), λ h. cc)
    where
      two : (b : Bool) → (if b then stale else connecting) ≢ live
      two true h = cc
      two false h = cc
  transition-IsConsistent l (retry_attempt attempt now) (a, b) =
      ((λ h. absurd (two l.has_value h)), λ h. cc)
    where
      two : (b : Bool) → (if b then reconnecting else connecting) ≢ live
      two true h = cc
      two false h = cc
  transition-IsConsistent l (snapshot rows total_rows now) x = ((λ h. refl), λ h. refl)
  transition-IsConsistent l (delta rows total_rows now) x = ((λ h. refl), λ h. refl)
  transition-IsConsistent l (status_event rows total_rows status) x = ((λ h. refl), λ h. refl)

  -- Unless the lifecycle status goes to live while there is no value, the result of a transition carries
  -- the value of the live query if it has one, and none otherwise.
  pub transition-IsShown :
      (l : LiveQueryLifecycleState R) (e : Event R E)
      → (l.has_value ≡ false → (now : ℕ) → e ≢ lifecycle_status live_phase now)
      → IsShown (transition l e)
  unfolding transition transition_lifecycle_status transition_error transition_begin_attempt
      transition_retry_attempt transition_snapshot transition_status_event transition_delta
      success_result
  transition-IsShown l (lifecycle_status live_phase now) x = elim (Bool-cases l.has_value) [
    | inl h ↦ rw h (results.value_of-success _ false)
    | inr h ↦ absurd (x h now refl)
  ]
  transition-IsShown l (lifecycle_status connecting_phase now) x = waiting_lem _
  transition-IsShown l (lifecycle_status syncing_phase now) x = waiting_lem _
  transition-IsShown l (lifecycle_status closed_phase now) x = waiting_lem _
  transition-IsShown l (error e now) x = elim (Bool-cases l.has_value) [
    | inl h ↦ rw h (results.value_of-fail_with_previous e _ true true)
    | inr h ↦ rw h (results.value_of-fail e)
  ]
  transition-IsShown l (begin_attempt attempt now) x = waiting_lem _
  transition-IsShown l (retry_attempt attempt now) x = waiting_lem _
  transition-IsShown l (snapshot rows total_rows now) x = results.value_of-success _ false
  transition-IsShown l (delta rows total_rows now) x = results.value_of-success _ false
  transition-IsShown l (status_event rows total_rows status) x = results.value_of-success _ true

  transitions-IsConsistent :
      (es : List (Event R E)) (t : LiveQueryTransition results)
      → IsConsistent t.lifecycle
      → IsConsistent (transitions t es).lifecycle
  unfolding transitions
  transitions-IsConsistent [] t h = h
  transitions-IsConsistent (e ∷ es) t h =
      transitions-IsConsistent es (transition t.lifecycle e)
        (transition-IsConsistent t.lifecycle e h)

  -- After any transitions of a live query with or without initial data: if it shows `live` it is
  -- connected, and if it is connected it has a value.
  pub history_lem :
      (initial_data : Option (LiveQueryInitialData R)) (es : List (Event R E))
      → IsConsistent (transitions (initial_live_query_lifecycle results initial_data) es).lifecycle
  unfolding initial_live_query_lifecycle
  history_lem none es = transitions-IsConsistent es _ ((λ h. cc), λ h. cc)
  history_lem (some d) es = transitions-IsConsistent es _ ((λ h. cc), λ h. cc)
