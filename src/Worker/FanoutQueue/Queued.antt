-- ===== src/Worker/FanoutQueue/Queued.antt =====
-- worker/fanout-queue.ts: draining a queue, filling it again, and reading the events that it refers to.
use view_server.Prelude.{
  ℕ, zero, suc, ◌≤◌, ◌<◌, ◌≡◌, ◌≢◌, refl, ap, ap₂, sym, ◌∙◌, Bool, Bool-cases, inl, inr, none, some,
  List, [], ◌∷◌, ◌++◌, append-nil, append_assoc, length, get_elem?, set, filter_by, map, All, arith,
  get_elem?-append_left, get_elem?-set_ne,
}
use view_server.Worker.FanoutQueue.{EventQueues, drain_queued_events, offer_queued_events}

pub All-append {ℓ κ} :
    {A : Type ℓ} (P : A → Type κ) (xs ys : List A) → All P xs → All P ys → All P (xs ++ ys)
All-append P [] ys h k = k
All-append P (x ∷ xs) ys h k = (h.0, All-append P xs ys h.1 k)

pub All-filter_by {ℓ κ} :
    {A : Type ℓ} (P : A → Type κ) (p : A → Bool) (xs : List A) → All P xs → All P (filter_by p xs)
All-filter_by P p [] h = tt
All-filter_by P p (x ∷ xs) h = elim (Bool-cases (p x)) [
  | inl e ↦ rw e (h.0, All-filter_by P p xs h.1)
  | inr e ↦ rw e (All-filter_by P p xs h.1)
]

pub map-append {ℓ κ} :
    {A : Type ℓ} {B : Type κ} (f : A → B) (xs ys : List A) → map f (xs ++ ys) ≡ map f xs ++ map f ys
map-append f [] ys = refl
map-append f (x ∷ xs) ys = ap (◌∷◌ (f x)) (map-append f xs ys)

pub map-filter_by {ℓ κ} :
    {A : Type ℓ} {B : Type κ} (f : A → B) (p : B → Bool) (xs : List A)
    → map f (filter_by (λ x. p (f x)) xs) ≡ filter_by p (map f xs)
map-filter_by f p [] = refl
map-filter_by f p (x ∷ xs) = elim (Bool-cases (p (f x))) [
  | inl e ↦ rw e (ap (◌∷◌ (f x)) (map-filter_by f p xs))
  | inr e ↦ rw e (map-filter_by f p xs)
]

module _ {ℓ} {A : Type ℓ} where
  -- The new events of a heap change no reading of the old ones.
  pub read-append :
      (heap new : List A) (rs : List ℕ)
      → All (λ r. r < length heap) rs
      → map (get_elem? (heap ++ new)) rs ≡ map (get_elem? heap) rs
  read-append heap new [] h = refl
  read-append heap new (r ∷ rs) h =
      ap₂ (λ x xs. x ∷ xs) (get_elem?-append_left heap new r h.0) (read-append heap new rs h.1)

  pub read-set :
      (heap : List A) (r : ℕ) (v : A) (rs : List ℕ)
      → All (λ k. k < r) rs
      → map (get_elem? (set heap r v)) rs ≡ map (get_elem? heap) rs
  read-set heap r v [] h = refl
  read-set heap r v (k ∷ rs) h =
      ap₂ (λ x xs. x ∷ xs) (get_elem?-set_ne heap r k v (apart k h.0)) (read-set heap r v rs h.1)
    where
      apart : (k : ℕ) → k < r → r ≢ k
      apart k l e = omega arith

module _ {ℓ} (queues : EventQueues {ℓ}) where
  drain_empty :
      (fuel : ℕ) (q : queues.Queue)
      → queues.poll q ≡ none
      → drain_queued_events queues (suc fuel) q ≡ ([], q)
  unfolding drain_queued_events
  drain_empty fuel q p = rw (p, drain_queued_events) refl

  drain_first :
      (fuel : ℕ) (q rest : queues.Queue) (r : ℕ)
      → queues.poll q ≡ some (r, rest)
      → drain_queued_events queues (suc fuel) q
        ≡ (r ∷ (drain_queued_events queues fuel rest).0, (drain_queued_events queues fuel rest).1)
  unfolding drain_queued_events
  drain_first fuel q rest r p = rw (p, drain_queued_events) refl

  -- With a fuel of at least the length, draining reads all and leaves nothing.
  pub drain_queued_events_lem :
      (fuel : ℕ) (q : queues.Queue) (rs : List ℕ)
      → queues.contents q ≡ rs
      → length rs ≤ fuel
      → ((drain_queued_events queues fuel q).0 ≡ rs)
        × (queues.contents (drain_queued_events queues fuel q).1 ≡ [])
  unfolding drain_queued_events
  drain_queued_events_lem zero q [] e h = (refl, e)
  drain_queued_events_lem zero q (r ∷ rs) e h = absurd (omega arith)
  drain_queued_events_lem (suc fuel) q [] e h =
      let d = drain_empty fuel q (queues.poll_empty q e) in
      (ap (λ p. p.0) d, ap (λ p. queues.contents p.1) d ∙ e)
  drain_queued_events_lem (suc fuel) q (r ∷ rs) e h =
      let (rest, polled, left) = queues.poll_first q r rs e in
      let (a, b) = drain_queued_events_lem fuel rest rs left (omega arith) in
      let d = drain_first fuel q rest r polled in
      (ap (λ p. p.0) d ∙ ap (◌∷◌ r) a, ap (λ p. queues.contents p.1) d ∙ b)

  pub contents-offer_queued_events :
      (rs : List ℕ) (q : queues.Queue)
      → queues.contents (offer_queued_events queues q rs) ≡ queues.contents q ++ rs
  unfolding offer_queued_events
  contents-offer_queued_events [] q = sym (append-nil (queues.contents q))
  contents-offer_queued_events (r ∷ rs) q =
      contents-offer_queued_events rs (queues.offer q r)
      ∙ ap (λ c. c ++ rs) (queues.contents-offer q r)
      ∙ append_assoc (queues.contents q) (r ∷ []) rs
