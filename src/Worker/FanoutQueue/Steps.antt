-- ===== src/Worker/FanoutQueue/Steps.antt =====
-- worker/fanout-queue.ts: the offers of a queue that coalesces deltas.
use mathlib.Core.Path.{subst}
use view_server.Protocol.Value.{BigInt, pos}
use view_server.Prelude.{
  ℕ, ◌≡◌, refl, sym, ap, ◌∙◌, ◌≢◌, inl, inr, Bool, true, false, Option, none, some, List, [], ◌∷◌,
  arith, ◌==◌, Bool-cases, length,
}
use view_server.Worker.FanoutQueue.{
  EventQueues, DeltaEvent, FanoutOptions, clear_pending_delta, extend_pending, start_pending,
  offer_pending, offer_delta,
}
use view_server.Worker.FanoutQueue.Merging.{extend_pending_lem}
use view_server.Worker.FanoutQueue.Offers.{
  World, IsPending, Valid, Offered, turned_away, appended, coalesced, Settled, Done,
  start_pending_lem,
}

module _ {ℓ} (Op Status Snapshot : Type ℓ) (queues : EventQueues {ℓ})
    (options : FanoutOptions) where
  -- Clearing the pending delta does not touch the events.
  before_clearing :
      (w : World Op Status Snapshot queues options) (event : DeltaEvent Op) (pending : Option ℕ)
      (lag : BigInt) (after : World Op Status Snapshot queues options) (accepted : Bool)
      → Offered Op Status Snapshot queues options
          (clear_pending_delta queues options w)
          pending
          lag
          event
          after
          accepted
      → Offered Op Status Snapshot queues options w pending lag event after accepted
  unfolding clear_pending_delta
  before_clearing w event pending lag after accepted (turned_away said why h q p l) =
      turned_away said why h q p l
  before_clearing w event pending lag after accepted (appended said idle fit near e p l) =
      appended said idle fit near e p l
  before_clearing w event pending lag after accepted
        (coalesced r front last merged said at near b c a p l) =
      coalesced r front last merged said at near b c a p l

  cleared_lem :
      (w : World Op Status Snapshot queues options) (event : DeltaEvent Op)
      → Valid Op Status Snapshot queues options w
      → queues.contents w.queue ≡ []
      → Done Op Status Snapshot queues options w event (
          start_pending queues options
            (clear_pending_delta queues options w)
            (queues.size w.queue)
            event)
  unfolding clear_pending_delta Settled Done
  cleared_lem w event v empty =
      let (valid, offered) =
        start_pending_lem Op Status Snapshot queues options (clear_pending_delta queues options w)
          event (v.0, tt) refl in
      rw empty (valid, before_clearing w event none (pos 0) _ _ offered)

  pending_lem :
      (w : World Op Status Snapshot queues options) (event : DeltaEvent Op) (r : ℕ)
      → Valid Op Status Snapshot queues options w
      → queues.size w.queue ≢ 0
      → w.pending_delta_event ≡ some r
      → IsPending Op Status Snapshot queues options w.heap (queues.contents w.queue) (some r)
      → Settled Op Status Snapshot queues options w event (extend_pending queues options w r event)
  pending_lem w event r v busy at (inl empty) =
      absurd (busy (queues.size_lem w.queue ∙ ap length empty))
  pending_lem w event r v busy at (inr (front, d, refs, below, read)) =
      extend_pending_lem Op Status Snapshot queues options w r d event front v at refs below read

  busy_lem :
      (w : World Op Status Snapshot queues options) (event : DeltaEvent Op) (pending : Option ℕ)
      → Valid Op Status Snapshot queues options w
      → queues.size w.queue ≢ 0
      → w.pending_delta_event ≡ pending
      → Settled Op Status Snapshot queues options w event
          (offer_pending queues options pending w (queues.size w.queue) event)
  busy_lem w event none v busy at = start_pending_lem Op Status Snapshot queues options w event v at
  busy_lem w event (some r) v busy at =
      pending_lem w event r v busy at (
        subst (IsPending Op Status Snapshot queues options w.heap (queues.contents w.queue)) at v.1)

  offer_delta_idle :
      (w : World Op Status Snapshot queues options) (event : DeltaEvent Op)
      → options.delta_coalescing ≡ true
      → (queues.size w.queue == 0) ≡ true
      → offer_delta queues options w event
        ≡ start_pending queues options
            (clear_pending_delta queues options w)
            (queues.size w.queue)
            event
  unfolding offer_delta clear_pending_delta
  offer_delta_idle w event on idle = rw (on, offer_delta) (rw idle refl)

  offer_delta_busy :
      (w : World Op Status Snapshot queues options) (event : DeltaEvent Op)
      → options.delta_coalescing ≡ true
      → (queues.size w.queue == 0) ≡ false
      → offer_delta queues options w event
        ≡ offer_pending queues options w.pending_delta_event w (queues.size w.queue) event
  unfolding offer_delta
  offer_delta_busy w event on busy = rw (on, offer_delta) (rw busy refl)

  -- What is found with events waiting is what the state has.
  found-busy :
      (w : World Op Status Snapshot queues options) (event : DeltaEvent Op)
      (result : World Op Status Snapshot queues options × Bool) (refs : List ℕ)
      → queues.contents w.queue ≡ refs
      → refs ≢ []
      → Settled Op Status Snapshot queues options w event result
      → Done Op Status Snapshot queues options w event result
  unfolding Settled Done
  found-busy w event result [] at some_wait settled = absurd (some_wait refl)
  found-busy w event result (r ∷ refs) at some_wait settled = rw at settled

  -- An offer of a delta, with coalescing on, to a queue that refers to events of the heap and whose last
  -- event, if it is not empty and a delta is pending, is that delta, keeps that so. If no event waits, it
  -- finds no pending delta and a lag of 0, whatever the state has of them, and else those of the state.
  -- Then it does one of three things. It says no, because no delta is pending and there are
  -- `max_queue_depth` events or more or the delta spans more versions than that, or because one is pending
  -- and the lag with the span would be more (a `max_queue_depth` of 0 does not bound the versions): the
  -- events, the queue, the pending delta and its lag stay as found. With no delta pending and none of
  -- this, it adds the delta at the end, pending, with its span as the lag. With one pending and none of
  -- this, it puts what `coalesceDeltas` makes of the last event and the delta in place of the last event,
  -- still pending, and adds the span to the lag.
  pub offer_delta_lem :
      (w : World Op Status Snapshot queues options) (event : DeltaEvent Op)
      → options.delta_coalescing ≡ true
      → Valid Op Status Snapshot queues options w
      → Done Op Status Snapshot queues options w event (offer_delta queues options w event)
  offer_delta_lem w event on v = elim (Bool-cases (queues.size w.queue == 0)) [
    | inl idle ↦
        let empty = no_length (queues.contents w.queue) (ground (arith, queues.size_lem w.queue)) in
        subst (Done Op Status Snapshot queues options w event)
          (sym (offer_delta_idle w event on idle)) (cleared_lem w event v empty)
    | inr busy ↦
        let nonzero : queues.size w.queue ≢ 0 = λ e. not_zero (queues.size w.queue) busy e in
        let some_wait : queues.contents w.queue ≢ [] =
          λ e. nonzero (queues.size_lem w.queue ∙ ap length e) in
        subst (Done Op Status Snapshot queues options w event)
          (sym (offer_delta_busy w event on busy))
          (found-busy w event _ (queues.contents w.queue) refl some_wait
            (busy_lem w event w.pending_delta_event v nonzero refl))
  ]
    where
      not_zero : (n : ℕ) → (n == 0) ≡ false → n ≢ 0
      not_zero n h e = ground arith

      no_length : (refs : List ℕ) → length refs ≡ 0 → refs ≡ []
      no_length [] h = refl
      no_length (r ∷ refs) h = absurd (omega arith)
