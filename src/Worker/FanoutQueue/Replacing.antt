-- ===== src/Worker/FanoutQueue/Replacing.antt =====
-- worker/fanout-queue.ts: `offerStatus` and `offerSnapshot`, which drain the queue and fill it again
-- without the statuses that waited in it.
use mathlib.Core.Path.{subst}
use view_server.Prelude.{
  ℕ, ◌≤◌, ◌<◌, ◌≡◌, refl, ap, ap₂, sym, ◌∙◌, Bool, Bool-cases, inl, inr, ◌⊎◌, true, false, Option,
  none, some, List, [], ◌∷◌, ◌++◌, length, get_elem?, filter_by, map, All, if◌then◌else◌, arith,
  length-append, ltb,
}
use view_server.Protocol.Value.{pos}
use view_server.Worker.FanoutQueue.{
  EventQueues, FanoutOptions, clear_pending_delta, is_not_status, offer_replacing,
  offer_queued_events, queue_events_version_lag,
}
use view_server.Worker.FanoutQueue.Queued.{
  All-append, All-filter_by, map-append, map-filter_by, read-append, drain_queued_events_lem,
  contents-offer_queued_events,
}
use view_server.Worker.FanoutQueue.Offers.{
  World, Event, events, IsPending, Valid, longer, at_end, length-map,
}

module _ {ℓ} (Op Status Snapshot : Type ℓ) (queues : EventQueues {ℓ})
    (options : FanoutOptions) where
  -- The events that wait, without the statuses, and the new one.
  abbrev pub renewed :
      World Op Status Snapshot queues options
      → Event Op Status Snapshot queues options
      → List (Option (Event Op Status Snapshot queues options))
  renewed w event =
      filter_by (is_not_status queues options) (events Op Status Snapshot queues options w)
      ++ some event ∷ []

  -- What the offer did: all is as it was since there would be too many events, or they are renewed and
  -- there is no pending delta.
  unfoldable pub Replaced :
      World Op Status Snapshot queues options
      → Event Op Status Snapshot queues options
      → World Op Status Snapshot queues options × Bool
      → Type ℓ
  Replaced w event (w', accepted) =
      Valid Op Status Snapshot queues options w'
      × (((accepted ≡ false)
            × (options.max_queue_depth < length (renewed w event))
            × (events Op Status Snapshot queues options w'
                ≡ events Op Status Snapshot queues options w)
            × (w'.pending_delta_event ≡ w.pending_delta_event))
          ⊎ ((accepted ≡ true)
              × (length (renewed w event) ≤ options.max_queue_depth)
              × (events Op Status Snapshot queues options w' ≡ renewed w event)
              × (w'.pending_delta_event ≡ none)))

  kept : World Op Status Snapshot queues options → List ℕ → List ℕ
  kept w queued =
      filter_by (λ r. is_not_status queues options (get_elem? w.heap r)) queued
      ++ length w.heap ∷ []

  restored :
      World Op Status Snapshot queues options
      → List ℕ
      → queues.Queue
      → World Op Status Snapshot queues options
  restored w queued empty = record w { queue = offer_queued_events queues empty queued }

  filled :
      World Op Status Snapshot queues options
      → Event Op Status Snapshot queues options
      → List ℕ
      → queues.Queue
      → World Op Status Snapshot queues options
  unfolding kept
  filled w event queued empty = record {
    heap = w.heap ++ event ∷ [];
    queue = offer_queued_events queues empty (kept w queued);
    pending_delta_event = none;
    pending_lag_versions =
        queue_events_version_lag queues options
          (map (get_elem? (w.heap ++ event ∷ [])) (kept w queued)) (pos 0);
  }

  kept-events :
      (w : World Op Status Snapshot queues options)
      (event : Event Op Status Snapshot queues options)
      → All (λ r. r < length w.heap) (queues.contents w.queue)
      → map (get_elem? (w.heap ++ event ∷ [])) (kept w (queues.contents w.queue)) ≡ renewed w event
  unfolding kept
  kept-events w event b =
      let refs = queues.contents w.queue in
      let is_kept = λ (r : ℕ). is_not_status queues options (get_elem? w.heap r) in
      map-append (get_elem? (w.heap ++ event ∷ [])) (filter_by is_kept refs) (length w.heap ∷ [])
      ∙ ap₂ (λ xs x. xs ++ x ∷ [])
          (read-append w.heap (event ∷ []) (filter_by is_kept refs)
              (All-filter_by (λ r. r < length w.heap) is_kept refs b)
            ∙ map-filter_by (get_elem? w.heap) (is_not_status queues options) refs)
          (at_end w.heap event)

  refilled :
      (q : queues.Queue) (rs : List ℕ)
      → queues.contents q ≡ []
      → queues.contents (offer_queued_events queues q rs) ≡ rs
  refilled q rs e = contents-offer_queued_events queues rs q ∙ ap (λ c. c ++ rs) e

  restored_lem :
      (w : World Op Status Snapshot queues options)
      (event : Event Op Status Snapshot queues options) (empty : queues.Queue)
      → queues.contents empty ≡ []
      → Valid Op Status Snapshot queues options w
      → options.max_queue_depth < length (renewed w event)
      → Replaced w event (restored w (queues.contents w.queue) empty, false)
  unfolding Replaced restored
  restored_lem w event empty e v over =
      let back = refilled empty (queues.contents w.queue) e in
      (
        (
          subst (All (λ r. r < length w.heap)) (sym back) v.0,
          subst (λ c. IsPending Op Status Snapshot queues options w.heap c w.pending_delta_event)
              (sym back) v.1,
        ),
        inl (refl, over, ap (map (get_elem? w.heap)) back, refl),
      )

  filled_lem :
      (w : World Op Status Snapshot queues options)
      (event : Event Op Status Snapshot queues options) (empty : queues.Queue)
      → queues.contents empty ≡ []
      → Valid Op Status Snapshot queues options w
      → length (renewed w event) ≤ options.max_queue_depth
      → Replaced w event (filled w event (queues.contents w.queue) empty, true)
  unfolding Replaced filled kept
  filled_lem w event empty e v within =
      let refs = queues.contents w.queue in
      let heap = w.heap ++ event ∷ [] in
      let is_kept = λ (r : ℕ). is_not_status queues options (get_elem? w.heap r) in
      let back = refilled empty (kept w refs) e in
      let old =
        longer w.heap event (filter_by is_kept refs)
          (All-filter_by (λ r. r < length w.heap) is_kept refs v.0) in
      let bound =
        All-append (λ r. r < length heap) (filter_by is_kept refs) (length w.heap ∷ []) old
          (omega (arith, length-append w.heap (event ∷ [])), tt) in
      (
        (subst (All (λ r. r < length heap)) (sym back) bound, tt),
        inr (refl, within, ap (map (get_elem? heap)) back ∙ kept-events w event v.0, refl),
      )

  length-kept :
      (w : World Op Status Snapshot queues options)
      (event : Event Op Status Snapshot queues options)
      → All (λ r. r < length w.heap) (queues.contents w.queue)
      → length (kept w (queues.contents w.queue)) ≡ length (renewed w event)
  length-kept w event b =
      sym (length-map (get_elem? (w.heap ++ event ∷ [])) (kept w (queues.contents w.queue)))
      ∙ ap length (kept-events w event b)

  choose :
      (w : World Op Status Snapshot queues options)
      (event : Event Op Status Snapshot queues options) (queued : List ℕ) (empty : queues.Queue)
      → queued ≡ queues.contents w.queue
      → queues.contents empty ≡ []
      → Valid Op Status Snapshot queues options w
      → Replaced w event (
          if ltb options.max_queue_depth (length (kept w queued))
          then (restored w queued empty, false)
          else (filled w event queued empty, true))
  choose w event queued empty drained e v =
      rw drained
        (elim (Bool-cases
          (ltb options.max_queue_depth (length (kept w (queues.contents w.queue))))) [
            | inl over ↦
                let more : options.max_queue_depth < length (renewed w event) =
                  ground (arith, length-kept w event v.0) in
                rw over (restored_lem w event empty e v more)
            | inr within ↦
                let fit : length (renewed w event) ≤ options.max_queue_depth =
                  ground (arith, length-kept w event v.0) in
                rw within (filled_lem w event empty e v fit)
          ])

  -- A status or snapshot that is offered to a valid queue takes the place of the statuses that wait and
  -- comes last, with no pending delta left, if the events are then no more than the queue may hold;
  -- otherwise the events and the pending delta stay. The queue stays valid.
  pub offer_replacing_lem :
      (w : World Op Status Snapshot queues options)
      (event : Event Op Status Snapshot queues options)
      → Valid Op Status Snapshot queues options w
      → Replaced w event (offer_replacing queues options w event)
  unfolding offer_replacing restored filled kept clear_pending_delta
  offer_replacing_lem w event v =
      let (drained, emptied) =
        drain_queued_events_lem queues (queues.size w.queue) w.queue (queues.contents w.queue) refl
          (omega (arith, queues.size_lem w.queue)) in
      choose w event _ _ drained emptied v
