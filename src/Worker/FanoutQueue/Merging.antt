-- ===== src/Worker/FanoutQueue/Merging.antt =====
-- worker/fanout-queue.ts: the branch of `offerDelta` that merges a delta into the pending one.
use mathlib.Core.Path.{subst}
use view_server.Prelude.{
  ℕ, ◌<◌, ◌≡◌, refl, sym, ap, ap₂, ◌∙◌, inl, inr, true, false, some, List, [], ◌∷◌, ◌++◌, map,
  append-nil, arith, Bool-cases, length, get_elem?, set, All, length-set, get_elem?-set_self,
  length_of_get_elem?,
}
use view_server.Protocol.BigInts.{◌+ℤ◌}
use view_server.Ordered.{All-weaken}
use view_server.Worker.FanoutQueue.{
  EventQueues, DeltaEvent, delta, FanoutOptions, lags_behind, merge_delta, coalesce_deltas,
  extend_pending, delta_version_span,
}
use view_server.Worker.FanoutQueue.Limits.{late, near}
use view_server.Worker.FanoutQueue.Queued.{map-append, read-set}
use view_server.Worker.FanoutQueue.Offers.{
  World, events, IsPending, Valid, coalesced, Settled, unchanged,
}

module _ {ℓ} (Op Status Snapshot : Type ℓ) (queues : EventQueues {ℓ})
    (options : FanoutOptions) where
  -- The world after a merge into the event `d` at the reference `r`.
  merged :
      World Op Status Snapshot queues options
      → ℕ
      → DeltaEvent Op
      → DeltaEvent Op
      → World Op Status Snapshot queues options
  merged w r d event = record w {
    heap = set w.heap r (delta (merge_delta d event));
    pending_lag_versions = w.pending_lag_versions +ℤ delta_version_span event;
  }

  coalesce_two :
      (d event : DeltaEvent Op) → coalesce_deltas (d ∷ event ∷ []) ≡ some (merge_delta d event)
  unfolding coalesce_deltas merge_delta
  coalesce_two d event =
      ap (λ ops. some (record (merge_delta d event) { ops = d.ops ++ ops })) (append-nil event.ops)

  merged-events :
      (w : World Op Status Snapshot queues options) (r : ℕ) (d event : DeltaEvent Op)
      (front : List ℕ)
      → queues.contents w.queue ≡ front ++ r ∷ []
      → All (λ k. k < r) front
      → get_elem? w.heap r ≡ some (delta d)
      → (events Op Status Snapshot queues options w
          ≡ map (get_elem? w.heap) front ++ some (delta d) ∷ [])
        × (events Op Status Snapshot queues options (merged w r d event)
            ≡ map (get_elem? w.heap) front ++ some (delta (merge_delta d event)) ∷ [])
  unfolding merged
  merged-events w r d event front at below read =
      let heap = set w.heap r (delta (merge_delta d event)) in
      let here =
        get_elem?-set_self w.heap r (delta (merge_delta d event))
          (length_of_get_elem? w.heap r read) in
      (
        ap (map (get_elem? w.heap)) at
            ∙ map-append (get_elem? w.heap) front (r ∷ [])
            ∙ ap (λ x. map (get_elem? w.heap) front ++ x ∷ []) read,
        ap (map (get_elem? heap)) at
            ∙ map-append (get_elem? heap) front (r ∷ [])
            ∙ ap₂ (λ xs x. xs ++ x ∷ [])
                (read-set w.heap r (delta (merge_delta d event)) front below) here,
      )

  merged_lem :
      (w : World Op Status Snapshot queues options) (r : ℕ) (d event : DeltaEvent Op)
      (front : List ℕ)
      → Valid Op Status Snapshot queues options w
      → w.pending_delta_event ≡ some r
      → queues.contents w.queue ≡ front ++ r ∷ []
      → All (λ k. k < r) front
      → get_elem? w.heap r ≡ some (delta d)
      → lags_behind options (w.pending_lag_versions +ℤ delta_version_span event) ≡ false
      → Settled Op Status Snapshot queues options w event (merged w r d event, true)
  unfolding Settled merged
  merged_lem w r d event front v pending at below read close =
      let heap = set w.heap r (delta (merge_delta d event)) in
      let here =
        get_elem?-set_self w.heap r (delta (merge_delta d event))
          (length_of_get_elem? w.heap r read) in
      let (before, after) = merged-events w r d event front at below read in
      (
        (
          All-weaken (λ k. k < length w.heap) (λ k. k < length heap)
              (λ k l. omega (arith, length-set w.heap r (delta (merge_delta d event))))
              (queues.contents w.queue) v.0,
          subst (IsPending Op Status Snapshot queues options heap (queues.contents w.queue))
              (sym pending) (inr (front, merge_delta d event, at, below, here)),
        ),
        coalesced r (map (get_elem? w.heap) front) d (merge_delta d event) refl pending
            (near options (w.pending_lag_versions +ℤ delta_version_span event) close) before
            (coalesce_two d event) after pending refl,
      )

  extend_pending_late :
      (w : World Op Status Snapshot queues options) (r : ℕ) (event : DeltaEvent Op)
      → lags_behind options (w.pending_lag_versions +ℤ delta_version_span event) ≡ true
      → extend_pending queues options w r event ≡ (w, false)
  unfolding extend_pending
  extend_pending_late w r event over = rw (over, extend_pending) refl

  extend_pending_eq :
      (w : World Op Status Snapshot queues options) (r : ℕ) (d event : DeltaEvent Op)
      → lags_behind options (w.pending_lag_versions +ℤ delta_version_span event) ≡ false
      → get_elem? w.heap r ≡ some (delta d)
      → extend_pending queues options w r event ≡ (merged w r d event, true)
  unfolding extend_pending merged
  extend_pending_eq w r d event close read = rw (close, extend_pending) (rw read refl)

  pub extend_pending_lem :
      (w : World Op Status Snapshot queues options) (r : ℕ) (d event : DeltaEvent Op)
      (front : List ℕ)
      → Valid Op Status Snapshot queues options w
      → w.pending_delta_event ≡ some r
      → queues.contents w.queue ≡ front ++ r ∷ []
      → All (λ k. k < r) front
      → get_elem? w.heap r ≡ some (delta d)
      → Settled Op Status Snapshot queues options w event (extend_pending queues options w r event)
  extend_pending_lem w r d event front v pending at below read =
      let next_lag = w.pending_lag_versions +ℤ delta_version_span event in
      elim (Bool-cases (lags_behind options next_lag)) [
        | inl over ↦
            subst (Settled Op Status Snapshot queues options w event)
              (sym (extend_pending_late w r event over))
              (unchanged Op Status Snapshot queues options w event (some r) v pending
                (late options next_lag over))
        | inr close ↦
            subst (Settled Op Status Snapshot queues options w event)
              (sym (extend_pending_eq w r d event close read))
              (merged_lem w r d event front v pending at below read close)
      ]
