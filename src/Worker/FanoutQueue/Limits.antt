-- ===== src/Worker/FanoutQueue/Limits.antt =====
-- worker/fanout-queue.ts: the limits on the events that wait and on the versions that a subscriber lags
-- behind, as bounds on numbers.
use mathlib.Core.Path.{subst}
use view_server.Prelude.{
  ℕ, ◌≤◌, ◌<◌, ◌≡◌, refl, ◌≢◌, ◌⊎◌, inl, inr, true, false, Option, none, some, arith, ℕ_discrete,
}
use view_server.Protocol.Value.{BigInt, pos, negsuc}
use view_server.Protocol.BigInts.{◌+ℤ◌}
use view_server.Worker.FanoutQueue.{FanoutOptions, would_exceed_queue_limit, lags_behind}

module _ (options : FanoutOptions) where
  -- There is a bound and the versions are more than it, or not.
  abbrev pub IsLate : BigInt → Type 0
  IsLate lag =
      (0 < options.max_queue_depth)
      × ((versions : ℕ) × (lag ≡ pos versions) × (options.max_queue_depth < versions))

  abbrev pub IsNear : BigInt → Type 0
  IsNear lag =
      (options.max_queue_depth ≡ 0)
      ⊎ ((versions : ℕ) → lag ≡ pos versions → versions ≤ options.max_queue_depth)

  -- Why a delta is not accepted: there is no room or it spans too many versions, where none is pending,
  -- and where one is, the two lag too far behind.
  abbrev pub Refused : ℕ → Option ℕ → BigInt → BigInt → Type 0
  Refused depth none lag span = (options.max_queue_depth ≤ depth) ⊎ IsLate span
  Refused depth (some r) lag span = IsLate (lag +ℤ span)

  pub fits :
      (depth : ℕ) → would_exceed_queue_limit options depth ≡ false → depth < options.max_queue_depth
  unfolding would_exceed_queue_limit
  fits depth h = ground arith

  pub full :
      (depth : ℕ) → would_exceed_queue_limit options depth ≡ true → options.max_queue_depth ≤ depth
  unfolding would_exceed_queue_limit
  full depth h = ground arith

  pub late : (lag : BigInt) → lags_behind options lag ≡ true → IsLate lag
  unfolding lags_behind
  late (pos versions) h =
      let bound : 0 < options.max_queue_depth = ground arith in
      let more : options.max_queue_depth < versions = ground arith in
      (bound, (versions, refl, more))
  late (negsuc versions) h = ground arith

  pub near : (lag : BigInt) → lags_behind options lag ≡ false → IsNear lag
  unfolding lags_behind
  near (pos n) h = elim (ℕ_discrete options.max_queue_depth 0) [
    | yes none_set ↦ inl none_set
    | no bounded ↦
        let within : n ≤ options.max_queue_depth = ground (arith, bounded) in
        inr (λ versions e. subst (λ k. k ≤ options.max_queue_depth) (same_pos e) within)
  ]
    where
      same_pos : {m k : ℕ} → pos m ≡ pos k → m ≡ k
      same_pos e = cc
  near (negsuc n) h = inr (λ versions e. absurd (not_pos e))
    where
      not_pos : {k : ℕ} → negsuc n ≢ pos k
      not_pos e = cc
