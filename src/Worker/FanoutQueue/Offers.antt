-- ===== src/Worker/FanoutQueue/Offers.antt =====
-- worker/fanout-queue.ts: what an offer of a delta may do, and the branch that adds it to the queue.
use mathlib.Core.Path.{subst}
use view_server.Protocol.Value.{BigInt, pos}
use view_server.Protocol.BigInts.{◌+ℤ◌}
use view_server.Prelude.{
  ℕ, suc, ◌≤◌, ◌<◌, ◌≡◌, refl, sym, ap, ap₂, ◌∙◌, ◌⊎◌, inl, inr, Bool, true, false, Option, none,
  some, List, [], ◌∷◌, ◌++◌, map, arith, Bool-cases, length, get_elem?, All, length-append,
}
use view_server.Ordered.{All-weaken}
use view_server.Worker.FanoutQueue.{
  EventQueues, DeltaEvent, SubscriptionEvent, delta, FanoutOptions, would_exceed_queue_limit,
  lags_behind, coalesce_deltas, Fanout, offer_event, start_pending, delta_version_span,
}
use view_server.Worker.FanoutQueue.Limits.{IsNear, Refused, fits, full, late, near}
use view_server.Worker.FanoutQueue.Queued.{All-append, map-append, read-append}

pub length-map {ℓ κ} :
    {A : Type ℓ} {B : Type κ} (f : A → B) (xs : List A) → length (map f xs) ≡ length xs
length-map f [] = refl
length-map f (x ∷ xs) = ap suc (length-map f xs)

pub at_end {ℓ} :
    {A : Type ℓ} (heap : List A) (e : A) → get_elem? (heap ++ e ∷ []) (length heap) ≡ some e
at_end [] e = refl
at_end (x ∷ heap) e = at_end heap e

pub longer {ℓ} :
    {A : Type ℓ} (heap : List A) (e : A) (rs : List ℕ)
    → All (λ r. r < length heap) rs
    → All (λ r. r < length (heap ++ e ∷ [])) rs
longer heap e rs h =
    All-weaken (λ r. r < length heap) (λ r. r < length (heap ++ e ∷ []))
      (λ r l. omega (arith, length-append heap (e ∷ []))) rs h

module _ {ℓ} (Op Status Snapshot : Type ℓ) (queues : EventQueues {ℓ})
    (options : FanoutOptions) where
  abbrev pub Event : Type ℓ
  Event = SubscriptionEvent Op Status Snapshot

  abbrev pub World : Type ℓ
  World = Fanout queues Op Status Snapshot

  -- The events that wait, the first to leave first.
  abbrev pub events : World → List (Option Event)
  events w = map (get_elem? w.heap) (queues.contents w.queue)

  -- The pending delta, if there is one and the queue is not empty, is the last event of the queue: so a
  -- later delta is merged into an event that the subscriber has not taken.
  abbrev pub IsPending : List Event → List ℕ → Option ℕ → Type ℓ
  IsPending heap refs none = Unit
  IsPending heap refs (some r) =
      (refs ≡ [])
      ⊎ ((front : List ℕ) × (d : DeltaEvent Op) × (refs ≡ front ++ r ∷ [])
          × All (λ k. k < r) front
          × (get_elem? heap r ≡ some (delta d)))

  abbrev pub Valid : World → Type ℓ
  Valid w =
      All (λ r. r < length w.heap) (queues.contents w.queue)
      × IsPending w.heap (queues.contents w.queue) w.pending_delta_event

  -- What the offer finds: `empty` if no event waits, since the pending delta is then cleared, and
  -- what the state has if one does.
  abbrev pub found {κ} : {A : Type κ} → List ℕ → A → A → A
  found [] empty kept = empty
  found (r ∷ refs) empty kept = kept

  -- What an offer of a delta does, where it finds the pending delta and its lag as `pending` and `lag`.
  pub data Offered (before : World) (pending : Option ℕ) (lag : BigInt) (event : DeltaEvent Op)
      (after : World) (accepted : Bool) : Type ℓ where
    turned_away :
        accepted ≡ false
        → Refused options (length (events before)) pending lag (delta_version_span event)
        → after.heap ≡ before.heap
        → after.queue ≡ before.queue
        → after.pending_delta_event ≡ pending
        → after.pending_lag_versions ≡ lag
        → Offered before pending lag event after accepted
    appended :
        accepted ≡ true
        → pending ≡ none
        → length (events before) < options.max_queue_depth
        → IsNear options (delta_version_span event)
        → events after ≡ events before ++ some (delta event) ∷ []
        → after.pending_delta_event ≡ some (length before.heap)
        → after.pending_lag_versions ≡ delta_version_span event
        → Offered before pending lag event after accepted
    coalesced :
        (r : ℕ) (front : List (Option Event)) (last merged : DeltaEvent Op)
        → accepted ≡ true
        → pending ≡ some r
        → IsNear options (lag +ℤ delta_version_span event)
        → events before ≡ front ++ some (delta last) ∷ []
        → coalesce_deltas (last ∷ event ∷ []) ≡ some merged
        → events after ≡ front ++ some (delta merged) ∷ []
        → after.pending_delta_event ≡ some r
        → after.pending_lag_versions ≡ lag +ℤ delta_version_span event
        → Offered before pending lag event after accepted

  unfoldable pub Settled : World → DeltaEvent Op → World × Bool → Type ℓ
  Settled w event (w', accepted) =
      Valid w' × Offered w w.pending_delta_event w.pending_lag_versions event w' accepted

  unfoldable pub Done : World → DeltaEvent Op → World × Bool → Type ℓ
  Done w event (w', accepted) =
      Valid w'
      × Offered w (found (queues.contents w.queue) none w.pending_delta_event)
          (found (queues.contents w.queue) (pos 0) w.pending_lag_versions) event w' accepted

  offer_event-contents :
      (w : World) (e : Event)
      → queues.contents (offer_event queues options w e).queue
        ≡ queues.contents w.queue ++ length w.heap ∷ []
  unfolding offer_event
  offer_event-contents w e = queues.contents-offer w.queue (length w.heap)

  -- An event that is put in the queue is the last of those that wait.
  offer_event-events :
      (w : World) (e : Event)
      → All (λ r. r < length w.heap) (queues.contents w.queue)
      → events (offer_event queues options w e) ≡ events w ++ some e ∷ []
  unfolding offer_event
  offer_event-events w e b =
      ap (map (get_elem? (w.heap ++ e ∷ []))) (queues.contents-offer w.queue (length w.heap))
      ∙ map-append (get_elem? (w.heap ++ e ∷ [])) (queues.contents w.queue) (length w.heap ∷ [])
      ∙ ap₂ (λ xs x. xs ++ x ∷ []) (read-append w.heap (e ∷ []) (queues.contents w.queue) b)
          (at_end w.heap e)

  offer_event-bound :
      (w : World) (e : Event)
      → All (λ r. r < length w.heap) (queues.contents w.queue)
      → All (λ r. r < length (w.heap ++ e ∷ [])) (queues.contents w.queue ++ length w.heap ∷ [])
  offer_event-bound w e b =
      All-append (λ r. r < length (w.heap ++ e ∷ [])) (queues.contents w.queue) (length w.heap ∷ [])
        (longer w.heap e (queues.contents w.queue) b)
        (omega (arith, length-append w.heap (e ∷ [])), tt)

  room :
      (w : World)
      → would_exceed_queue_limit options (queues.size w.queue) ≡ false
      → length (events w) < options.max_queue_depth
  room w h = omega (
    arith,
    length-map (get_elem? w.heap) (queues.contents w.queue),
    queues.size_lem w.queue,
    fits options (queues.size w.queue) h,
  )

  -- The world after a delta that is to be merged into.
  pended : World → DeltaEvent Op → World
  pended w event = record (offer_event queues options w (delta event)) {
    pending_delta_event = some (length w.heap);
    pending_lag_versions = delta_version_span event;
  }

  bound_after :
      (w : World) (e : Event)
      → All (λ r. r < length w.heap) (queues.contents w.queue)
      → All
          (λ r. r < length (w.heap ++ e ∷ []))
          (queues.contents (queues.offer w.queue (length w.heap)))
  bound_after w e b =
      subst (All (λ r. r < length (w.heap ++ e ∷ [])))
        (sym (queues.contents-offer w.queue (length w.heap))) (offer_event-bound w e b)

  pended_lem :
      (w : World) (event : DeltaEvent Op)
      → All (λ r. r < length w.heap) (queues.contents w.queue)
      → would_exceed_queue_limit options (queues.size w.queue) ≡ false
      → lags_behind options (delta_version_span event) ≡ false
      → w.pending_delta_event ≡ none
      → Settled w event (pended w event, true)
  unfolding Settled offer_event pended
  pended_lem w event b fit close idle = (
    (
      bound_after w (delta event) b,
      inr (
        queues.contents w.queue,
        event,
        queues.contents-offer w.queue (length w.heap),
        b,
        at_end w.heap (delta event),
      ),
    ),
    appended refl idle (room w fit) (near options (delta_version_span event) close)
        (offer_event-events w (delta event) b) refl refl,
  )

  start_pending_eq :
      (w : World) (event : DeltaEvent Op)
      → would_exceed_queue_limit options (queues.size w.queue) ≡ false
      → lags_behind options (delta_version_span event) ≡ false
      → start_pending queues options w (queues.size w.queue) event ≡ (pended w event, true)
  unfolding start_pending pended
  start_pending_eq w event fit close = rw (fit, start_pending) (rw close refl)

  start_pending_full :
      (w : World) (event : DeltaEvent Op)
      → would_exceed_queue_limit options (queues.size w.queue) ≡ true
      → start_pending queues options w (queues.size w.queue) event ≡ (w, false)
  unfolding start_pending
  start_pending_full w event filled = rw (filled, start_pending) refl

  start_pending_late :
      (w : World) (event : DeltaEvent Op)
      → would_exceed_queue_limit options (queues.size w.queue) ≡ false
      → lags_behind options (delta_version_span event) ≡ true
      → start_pending queues options w (queues.size w.queue) event ≡ (w, false)
  unfolding start_pending
  start_pending_late w event fit over = rw (fit, start_pending) (rw over refl)

  -- A delta that is refused.
  pub unchanged :
      (w : World) (event : DeltaEvent Op) (pending : Option ℕ)
      → Valid w
      → w.pending_delta_event ≡ pending
      → Refused options
          (length (events w))
          pending
          w.pending_lag_versions
          (delta_version_span event)
      → Settled w event (w, false)
  unfolding Settled
  unchanged w event pending v at why =
      let why' =
        subst
          (λ p.
            Refused options (length (events w)) p w.pending_lag_versions (delta_version_span event))
          (sym at) why in
      (v, turned_away refl why' refl refl refl refl)

  no_room :
      (w : World)
      → would_exceed_queue_limit options (queues.size w.queue) ≡ true
      → options.max_queue_depth ≤ length (events w)
  no_room w h = omega (
    arith,
    length-map (get_elem? w.heap) (queues.contents w.queue),
    queues.size_lem w.queue,
    full options (queues.size w.queue) h,
  )

  pub start_pending_lem :
      (w : World) (event : DeltaEvent Op)
      → Valid w
      → w.pending_delta_event ≡ none
      → Settled w event (start_pending queues options w (queues.size w.queue) event)
  start_pending_lem w event v idle =
      elim (Bool-cases (would_exceed_queue_limit options (queues.size w.queue))) [
        | inl filled ↦
            subst (Settled w event) (sym (start_pending_full w event filled))
              (unchanged w event none v idle (inl (no_room w filled)))
        | inr fit ↦ elim (Bool-cases (lags_behind options (delta_version_span event))) [
          | inl over ↦
              subst (Settled w event) (sym (start_pending_late w event fit over))
                (unchanged w event none v idle (inr (late options (delta_version_span event) over)))
          | inr close ↦
              subst (Settled w event) (sym (start_pending_eq w event fit close))
                (pended_lem w event v.0 fit close idle)
        ]
      ]
