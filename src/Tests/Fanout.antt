-- ===== src/Tests/Fanout.antt =====
-- A queue of at most two events that coalesces.
use view_server.Prelude.{
  ℕ, ◌+◌, ◌≡◌, refl, inr, true, false, Option, none, some, List, [], ◌∷◌, ◌++◌, arith, length,
}
use view_server.Protocol.Value.{pos}
use view_server.Worker.FanoutQueue.{EventQueues, DeltaEvent, delta, FanoutOptions, offer_delta}
use view_server.Worker.FanoutQueue.Offers.{World, Valid, Done}
use view_server.Worker.FanoutQueue.Replacing.{Replaced, offer_replacing_lem}
use view_server.Worker.FanoutQueue.{
  status, offer_replacing, offer_status, drain_queued_events, offer_queued_events,
  queue_events_version_lag, clear_pending_delta, start_pending, extend_pending,
  would_exceed_queue_limit, lags_behind, delta_version_span, offer_event,
}
use view_server.Protocol.BigInts.{difference, ◌+ℤ◌}
use view_server.Worker.FanoutQueue.Steps.{offer_delta_lem}

poll_list : List ℕ → Option (ℕ × List ℕ)
poll_list [] = none
poll_list (r ∷ rs) = some (r, rs)

poll_list_empty : (q : List ℕ) → q ≡ [] → poll_list q ≡ none
unfolding poll_list
poll_list_empty [] e = refl
poll_list_empty (r ∷ rs) e = cc

poll_list_first :
    (q : List ℕ) (r : ℕ) (rs : List ℕ)
    → q ≡ r ∷ rs
    → (rest : List ℕ) × (poll_list q ≡ some (r, rest)) × (rest ≡ rs)
unfolding poll_list
poll_list_first q r rs e = (rs, rw e refl, refl)

abbrev lists : EventQueues {0}
lists = record {
  Queue = List ℕ;
  size = length;
  offer = λ q r. q ++ r ∷ [];
  poll = poll_list;
  contents = λ q. q;
  size_lem = λ q. refl;
  contents-offer = λ q r. refl;
  poll_empty = poll_list_empty;
  poll_first = poll_list_first;
}

abbrev options : FanoutOptions
options = record { max_queue_depth = 2; delta_coalescing = true }

abbrev event : ℕ → DeltaEvent ℕ
event n = record {
  request_id = "r";
  ops = n ∷ [];
  from_version = n;
  to_version = n + 1;
  total_rows = 1;
  server_time = n;
}

-- One delta waits, and is pending.
abbrev waiting : World ℕ ℕ ℕ lists options
waiting = record {
  heap = delta (event 1) ∷ [];
  queue = 0 ∷ [];
  pending_delta_event = some 0;
  pending_lag_versions = pos 1;
}

waiting-Valid : Valid ℕ ℕ ℕ lists options waiting
waiting-Valid = ((omega arith, tt), inr ([], event 1, refl, tt, refl))

offer_delta_lem_example :
    Done ℕ ℕ ℕ lists options waiting (event 2) (offer_delta lists options waiting (event 2))
offer_delta_lem_example = offer_delta_lem ℕ ℕ ℕ lists options waiting (event 2) refl waiting-Valid

offer_replacing_lem_example :
    Replaced ℕ ℕ ℕ lists options waiting
      (status 5)
      (offer_replacing lists options waiting (status 5))
offer_replacing_lem_example =
    offer_replacing_lem ℕ ℕ ℕ lists options waiting (status 5) waiting-Valid

abbrev roomy : FanoutOptions
roomy = record { max_queue_depth = 3; delta_coalescing = true }

-- A status clears the pending delta, and the next delta makes the lag its own span, without that of the
-- delta that still waits.
lag_after_status :
    (offer_delta lists roomy
      (offer_status lists roomy waiting 5).0
      (event 2)).0.pending_lag_versions
    ≡ pos 1
unfolding offer_delta offer_status offer_replacing drain_queued_events offer_queued_events
    queue_events_version_lag clear_pending_delta start_pending extend_pending
    would_exceed_queue_limit lags_behind delta_version_span difference ◌+ℤ◌ offer_event poll_list
lag_after_status = refl

two_wait :
    (offer_delta lists roomy (offer_status lists roomy waiting 5).0 (event 2)).0.queue
    ≡ 0 ∷ 1 ∷ 2 ∷ []
unfolding offer_delta offer_status offer_replacing drain_queued_events offer_queued_events
    queue_events_version_lag clear_pending_delta start_pending extend_pending
    would_exceed_queue_limit lags_behind delta_version_span difference ◌+ℤ◌ offer_event poll_list
two_wait = refl

-- A state whose queue was read empty, with what it kept of the delta that was pending.
abbrev stale : World ℕ ℕ ℕ lists options
stale = record {
  heap = delta (event 1) ∷ [];
  queue = [];
  pending_delta_event = some 0;
  pending_lag_versions = pos 1;
}

abbrev far : DeltaEvent ℕ
far = record (event 2) { to_version = 7 }

-- A delta that spans more versions than the depth is refused, and the pending delta is cleared.
far_refused :
    offer_delta lists options stale far
    ≡ (record stale { pending_delta_event = none; pending_lag_versions = pos 0 }, false)
unfolding offer_delta clear_pending_delta start_pending extend_pending would_exceed_queue_limit
    lags_behind delta_version_span difference ◌+ℤ◌ offer_event
far_refused = refl
