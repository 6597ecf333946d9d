-- ===== src/Worker/FanoutQueue.antt =====
-- worker/fanout-queue.ts: the events that wait for a subscriber. The queue is that of the effect package,
-- a parameter; it holds references, since the delta that a later one is merged into is in the queue.
pub mod Queued
pub mod Limits
pub mod Offers
pub mod Merging
pub mod Replacing
pub mod Steps
use view_server.Prelude.{
  ℕ, zero, suc, ◌+◌, ◌≡◌, Bool, true, false, not, ◌&&◌, Option, none, some, String, List, [], ◌∷◌,
  ◌++◌, length, get_elem?, set, filter_by, map, ltb, leb, ◌==◌, if◌then◌else◌,
}
use view_server.Protocol.Value.{BigInt, pos}
use view_server.Protocol.BigInts.{difference, ◌+ℤ◌, greater_than_nat}

-- What is used of `Queue`: a queue in the order of arrival, read from its front.
pub record EventQueues {ℓ} : Type (ℓ + 1) where
  pub Queue : Type ℓ
  pub size : Queue → ℕ
  pub offer : Queue → ℕ → Queue
  pub poll : Queue → Option (ℕ × Queue)
  pub contents : Queue → List ℕ
  pub size_lem : (q : Queue) → size q ≡ length (contents q)
  pub contents-offer : (q : Queue) (r : ℕ) → contents (offer q r) ≡ contents q ++ r ∷ []
  pub poll_empty : (q : Queue) → contents q ≡ [] → poll q ≡ none
  pub poll_first :
      (q : Queue) (r : ℕ) (rs : List ℕ)
      → contents q ≡ r ∷ rs
      → (rest : Queue) × (poll q ≡ some (r, rest)) × (contents rest ≡ rs)

-- A version in an event is the decimal text of a natural number; here it is that number. The optional
-- `sourceUpdatedAt`, which the copy for coalescing leaves out, is not modelled.
pub record DeltaEvent {ℓ} (Op : Type ℓ) : Type ℓ where
  pub request_id : String
  pub ops : List Op
  pub from_version : ℕ
  pub to_version : ℕ
  pub total_rows : ℕ
  pub server_time : ℕ

-- `Status` and `Snapshot` are what a status and a snapshot carry, which nothing here reads.
pub data SubscriptionEvent {ℓ} (Op Status Snapshot : Type ℓ) : Type ℓ where
  delta : DeltaEvent Op → SubscriptionEvent Op Status Snapshot
  status : Status → SubscriptionEvent Op Status Snapshot
  snapshot : Snapshot → SubscriptionEvent Op Status Snapshot

-- A depth of 0 stands for those below 0 as well, which the code tests alike.
pub record FanoutOptions : Type 0 where
  pub max_queue_depth : ℕ
  pub delta_coalescing : Bool

module _ (options : FanoutOptions) where
  unfoldable pub would_exceed_queue_limit : ℕ → Bool
  would_exceed_queue_limit depth =
      if options.max_queue_depth == 0 then true else leb options.max_queue_depth depth

  unfoldable pub is_queue_at_limit : ℕ → Bool
  is_queue_at_limit depth =
      if options.max_queue_depth == 0 then ltb 0 depth else leb options.max_queue_depth depth

  -- `options.maxQueueDepth > 0 && lag > BigInt(options.maxQueueDepth)`
  unfoldable pub lags_behind : BigInt → Bool
  lags_behind lag = ltb 0 options.max_queue_depth && greater_than_nat lag options.max_queue_depth

  -- `subscriptionLagVersionsForQueueDepth`
  unfoldable pub lag_for_depth : ℕ → BigInt → BigInt
  lag_for_depth queue_depth pending_lag_versions =
      if queue_depth == 0
      then pos 0
      else if options.delta_coalescing
      then pending_lag_versions
      else pos queue_depth

unfoldable pub delta_version_span {ℓ} : {Op : Type ℓ} → DeltaEvent Op → BigInt
delta_version_span event = difference event.to_version event.from_version

-- The writes to the pending event: its ops grow, and all but the version it starts from is the later one's.
unfoldable pub merge_delta {ℓ} : {Op : Type ℓ} → DeltaEvent Op → DeltaEvent Op → DeltaEvent Op
merge_delta pending event = record {
  request_id = event.request_id;
  ops = pending.ops ++ event.ops;
  from_version = pending.from_version;
  to_version = event.to_version;
  total_rows = event.total_rows;
  server_time = event.server_time;
}

abbrev pub flat_ops {ℓ} : {Op : Type ℓ} → List (DeltaEvent Op) → List Op
flat_ops [] = []
flat_ops (d ∷ ds) = d.ops ++ flat_ops ds

abbrev pub last_of {ℓ} : {Op : Type ℓ} → DeltaEvent Op → List (DeltaEvent Op) → DeltaEvent Op
last_of d [] = d
last_of d (e ∷ es) = last_of e es

-- `coalesceDeltas`, which throws on an empty list.
unfoldable pub coalesce_deltas {ℓ} : {Op : Type ℓ} → List (DeltaEvent Op) → Option (DeltaEvent Op)
coalesce_deltas [] = none
coalesce_deltas (first ∷ deltas) =
    let last = last_of first deltas in
    some (record {
      request_id = last.request_id;
      ops = flat_ops (first ∷ deltas);
      from_version = first.from_version;
      to_version = last.to_version;
      total_rows = last.total_rows;
      server_time = last.server_time;
    })

-- The heap of events, the queue of references into it, and `FanoutQueueState`. `pendingDeltaOps` is the
-- array of the pending event, and set and cleared with it.
pub record Fanout {ℓ} (queues : EventQueues {ℓ}) (Op Status Snapshot : Type ℓ) : Type ℓ where
  pub heap : List (SubscriptionEvent Op Status Snapshot)
  pub queue : queues.Queue
  pub pending_delta_event : Option ℕ
  pub pending_lag_versions : BigInt

module _ {ℓ} (queues : EventQueues {ℓ}) where
  -- The loop of `drainQueuedEvents`: it ends when the queue is empty, so a fuel of its size is enough.
  unfoldable pub drain_queued_events : ℕ → queues.Queue → List ℕ × queues.Queue
  drain_queued_events zero q = ([], q)
  drain_queued_events (suc fuel) q = elim (queues.poll q) [
    | none ↦ ([], q)
    | some (r, rest) ↦ let (rs, last) = drain_queued_events fuel rest in (r ∷ rs, last)
  ]

  unfoldable pub offer_queued_events : queues.Queue → List ℕ → queues.Queue
  offer_queued_events q [] = q
  offer_queued_events q (r ∷ rs) = offer_queued_events (queues.offer q r) rs

module _ {ℓ} {Op Status Snapshot : Type ℓ} (queues : EventQueues {ℓ})
    (options : FanoutOptions) where
  unfoldable pub clear_pending_delta :
      Fanout queues Op Status Snapshot → Fanout queues Op Status Snapshot
  clear_pending_delta w = record w { pending_delta_event = none; pending_lag_versions = pos 0 }

  -- A new event, offered to the queue.
  unfoldable pub offer_event :
      Fanout queues Op Status Snapshot
      → SubscriptionEvent Op Status Snapshot
      → Fanout queues Op Status Snapshot
  offer_event w event = record w {
    heap = w.heap ++ event ∷ [];
    queue = queues.offer w.queue (length w.heap);
  }

  -- The event at the reference, with `event` merged into it.
  abbrev pub write_pending :
      List (SubscriptionEvent Op Status Snapshot)
      → ℕ
      → Option (SubscriptionEvent Op Status Snapshot)
      → DeltaEvent Op
      → List (SubscriptionEvent Op Status Snapshot)
  write_pending heap r (some (delta pending)) event = set heap r (delta (merge_delta pending event))
  write_pending heap r _ event = heap

  -- The branch of `offerDelta` with a pending delta.
  unfoldable pub extend_pending :
      Fanout queues Op Status Snapshot → ℕ → DeltaEvent Op → Fanout queues Op Status Snapshot × Bool
  unfolding lags_behind
  extend_pending w r event =
      let next_lag = w.pending_lag_versions +ℤ delta_version_span event in
      if lags_behind options next_lag then (w, false) else (
        record w {
          heap = write_pending w.heap r (get_elem? w.heap r) event;
          pending_lag_versions = next_lag;
        },
        true,
      )

  -- The branch without one.
  unfoldable pub start_pending :
      Fanout queues Op Status Snapshot → ℕ → DeltaEvent Op → Fanout queues Op Status Snapshot × Bool
  unfolding lags_behind would_exceed_queue_limit offer_event
  start_pending w depth event =
      if would_exceed_queue_limit options depth
      then (w, false)
      else if lags_behind options (delta_version_span event)
      then (w, false)
      else (
        record (offer_event w (delta event)) {
          pending_delta_event = some (length w.heap);
          pending_lag_versions = delta_version_span event;
        },
        true,
      )

  abbrev pub offer_pending :
      Option ℕ
      → Fanout queues Op Status Snapshot
      → ℕ
      → DeltaEvent Op
      → Fanout queues Op Status Snapshot × Bool
  offer_pending none w depth event = start_pending w depth event
  offer_pending (some r) w depth event = extend_pending w r event

  unfoldable pub offer_delta :
      Fanout queues Op Status Snapshot → DeltaEvent Op → Fanout queues Op Status Snapshot × Bool
  unfolding offer_event clear_pending_delta start_pending extend_pending would_exceed_queue_limit
  offer_delta w event =
      let depth = queues.size w.queue in
      if not options.delta_coalescing
      then if would_exceed_queue_limit options depth
        then (w, false)
        else (offer_event w (delta event), true)
      else let cleared = if depth == 0 then clear_pending_delta w else w in
        offer_pending cleared.pending_delta_event cleared depth event

  abbrev pub is_not_status : Option (SubscriptionEvent Op Status Snapshot) → Bool
  is_not_status (some (status s)) = false
  is_not_status _ = true

  unfoldable pub queue_events_version_lag :
      List (Option (SubscriptionEvent Op Status Snapshot)) → BigInt → BigInt
  queue_events_version_lag [] total = total
  queue_events_version_lag (some (delta event) ∷ events) total =
      queue_events_version_lag events (total +ℤ delta_version_span event)
  queue_events_version_lag (_ ∷ events) total = queue_events_version_lag events total

  -- `offerStatus` and `offerSnapshot`, whose bodies are the same.
  unfoldable pub offer_replacing :
      Fanout queues Op Status Snapshot
      → SubscriptionEvent Op Status Snapshot
      → Fanout queues Op Status Snapshot × Bool
  unfolding drain_queued_events offer_queued_events queue_events_version_lag clear_pending_delta
  offer_replacing w event =
      let (queued, empty) = drain_queued_events queues (queues.size w.queue) w.queue in
      let heap = w.heap ++ event ∷ [] in
      let next_queued =
        filter_by (λ r. is_not_status (get_elem? w.heap r)) queued ++ length w.heap ∷ [] in
      if ltb options.max_queue_depth (length next_queued)
      then (record w { queue = offer_queued_events queues empty queued }, false)
      else (
        record (clear_pending_delta w) {
          heap = heap;
          queue = offer_queued_events queues empty next_queued;
          pending_lag_versions =
              queue_events_version_lag (map (get_elem? heap) next_queued) (pos 0);
        },
        true,
      )

  unfoldable pub offer_status :
      Fanout queues Op Status Snapshot → Status → Fanout queues Op Status Snapshot × Bool
  unfolding offer_replacing
  offer_status w event = offer_replacing w (status event)

  unfoldable pub offer_snapshot :
      Fanout queues Op Status Snapshot → Snapshot → Fanout queues Op Status Snapshot × Bool
  unfolding offer_replacing
  offer_snapshot w event = offer_replacing w (snapshot event)
