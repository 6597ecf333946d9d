-- ===== src/Worker/MutationLog/Contents.antt =====
-- What the ring of worker/mutation-log.ts holds, oldest entry first.
use native.Mathlib.Nat.{mod-add-mod}
use view_server.Prelude.{
  ℕ, zero, suc, ◌+◌, ◌-◌, ◌%◌, ◌≤◌, ◌<◌, ◌≡◌, refl, ◌≢◌, ap, sym, ◌∙◌, none, some, List, [], ◌∷◌,
  ◌++◌, true, false, length, get_elem?, set, drop, filter_by, arith, dec_lt, ltb, leb, ◌==◌,
  if◌then◌else◌, length-append, length-set, length-replicate, length-drop, drop_past, drop_step,
  get_last?, get_elem?_last, drop-append_left, nil_of_length, get_elem?-set_self, get_elem?-set_ne,
  get_elem?_past, get_elem?_within, get_elem?-append_left, get_elem?-append_right, get_elem?-drop,
}
use view_server.Worker.MutationLog.{
  MutationLogEntry, MutationLog, new_log, physical_index, slot, entry_at, last_entry, append,
  ends_cover, covers_exclusive, in_range, entries_from, entries_exclusive,
}

-- The ring holds exactly `items`: reading any logical index gives that item.
pub record Holds (log : MutationLog) (items : List MutationLogEntry) : Type 0 where
  pub storage : length log.entries ≡ log.capacity
  pub count : length items ≡ log.size
  pub fits : log.size ≤ log.capacity
  pub start_in : log.start ≤ log.capacity - 1
  pub reads :
      (i : ℕ)
      → i < log.size
      → slot (get_elem? log.entries (physical_index log i)) ≡ get_elem? items i

-- the last `n` elements
abbrev pub keep_last {ℓ} : {A : Type ℓ} → ℕ → List A → List A
keep_last n xs = drop (length xs - n) xs

-- Two indices less than a turn apart are different places of the ring.
ring_apart :
    (start capacity i j : ℕ)
    → start < capacity
    → i < j
    → j < capacity
    → (start + i) % capacity ≢ (start + j) % capacity
ring_apart start capacity i j hs hij hj = grind arith

ring_first : (start capacity : ℕ) → start < capacity → (start + 0) % capacity ≡ start
ring_first start capacity h = grind arith

ring_next :
    (start capacity i : ℕ)
    → 0 < capacity
    → ((start + 1) % capacity + i) % capacity ≡ (start + suc i) % capacity
ring_next start capacity i h = rw mod-add-mod (ap (λ k. k % capacity) (omega arith))

ring_turn :
    (start capacity i : ℕ)
    → start < capacity
    → suc i ≡ capacity
    → (start + suc i) % capacity ≡ start
ring_turn start capacity i h e = grind arith

pub new_log-Holds : (capacity : ℕ) → Holds (new_log capacity) []
unfolding new_log
new_log-Holds capacity = record {
  storage = length-replicate capacity none;
  count = refl;
  fits = omega arith;
  start_in = omega arith;
  reads = λ i h. absurd (omega arith);
}

module _ (log : MutationLog) (items : List MutationLogEntry) (e : MutationLogEntry)
    (held : Holds log items) where
  open held use {storage, count, fits, start_in, reads}

  free_reads :
      log.size < log.capacity
      → (i : ℕ) → i < log.size + 1
      → slot (
          get_elem? (set log.entries (physical_index log log.size) (some e)) (physical_index log i))
        ≡ get_elem? (items ++ e ∷ []) i
  free_reads room i h = elim (dec_lt i log.size) [
    | yes p ↦
        ap slot (
          get_elem?-set_ne log.entries (physical_index log log.size) (physical_index log i) (some e)
            (λ q. ring_apart log.start log.capacity i log.size (omega arith) p room (sym q)))
        ∙ reads i p
        ∙ sym (get_elem?-append_left items (e ∷ []) i (omega arith))
    | no p ↦
        let here : i ≡ log.size = omega arith in
        let last : i - length items ≡ 0 = omega arith in
        (rw here (
          ap slot (
            get_elem?-set_self log.entries (physical_index log log.size) (some e)
              (rw storage (grind arith)))))
        ∙ sym (get_elem?-append_right items (e ∷ []) i (omega arith) ∙ ap (get_elem? (e ∷ [])) last)
  ]

  -- the branch of `append` that fills a free place
  append_free : log.size < log.capacity → Holds (append log e) (items ++ e ∷ [])
  unfolding append
  append_free room =
      let zero_ne : (log.capacity == 0) ≡ false = ground arith in
      let test : ltb log.size log.capacity ≡ true = ground arith in
      rw (zero_ne, append)
        (rw test (record {
          storage = length-set log.entries (physical_index log log.size) (some e) ∙ storage;
          count = omega (arith, length-append items (e ∷ []));
          fits = omega arith;
          start_in = omega arith;
          reads = free_reads room;
        }))

  full_reads :
      log.size ≡ log.capacity
      → 0 < log.capacity
      → (i : ℕ) → i < log.size
      → slot (
          get_elem?
            (set log.entries log.start (some e))
            (((log.start + 1) % log.capacity + i) % log.capacity))
        ≡ get_elem? (drop 1 items ++ e ∷ []) i
  full_reads full pos i h =
      rw (ring_next log.start log.capacity i pos) (elim (dec_lt (suc i) log.size) [
        | yes p ↦
            ap slot (
              get_elem?-set_ne log.entries log.start (physical_index log (suc i)) (some e) (λ q.
                ring_apart log.start log.capacity 0 (suc i) (omega arith) (omega arith)
                  (omega arith) (ring_first log.start log.capacity (omega arith) ∙ q)))
            ∙ reads (suc i) p
            ∙ sym (
                get_elem?-append_left (drop 1 items) (e ∷ []) i (omega (arith, length-drop 1 items))
                ∙ get_elem?-drop 1 items i
                ∙ ap (get_elem? items) (omega arith))
        | no p ↦
            let last : i - length (drop 1 items) ≡ 0 = omega (arith, length-drop 1 items) in
            rw (ring_turn log.start log.capacity i (omega arith) (omega arith)) (
              ap slot (get_elem?-set_self log.entries log.start (some e) (omega arith))
              ∙ sym (
                  get_elem?-append_right (drop 1 items) (e ∷ []) i
                    (omega (arith, length-drop 1 items))
                  ∙ ap (get_elem? (e ∷ [])) last))
      ])

  -- the branch that overwrites the oldest entry
  append_full :
      log.size ≡ log.capacity → 0 < log.capacity → Holds (append log e) (drop 1 items ++ e ∷ [])
  unfolding append
  append_full full pos =
      let zero_ne : (log.capacity == 0) ≡ false = ground arith in
      let test : ltb log.size log.capacity ≡ false = ground arith in
      rw (zero_ne, append)
        (rw test (record {
          storage = length-set log.entries log.start (some e) ∙ storage;
          count = omega (arith, length-append (drop 1 items) (e ∷ []), length-drop 1 items);
          fits = omega arith;
          start_in = grind arith;
          reads = full_reads full pos;
        }))

  -- the early return at capacity 0
  append_none : log.capacity ≡ 0 → Holds (append log e) []
  unfolding append
  append_none z =
      let test : (log.capacity == 0) ≡ true = ground arith in
      let nil : items ≡ [] = nil_of_length items (omega arith) in rw (test, append) (rw nil at held)

  -- Appending keeps the last `capacity` of the entries held and the new one, in order.
  pub append-Holds : Holds (append log e) (keep_last log.capacity (items ++ e ∷ []))
  append-Holds = elim (dec_lt log.size log.capacity) [
    | yes room ↦
        let whole : length (items ++ e ∷ []) - log.capacity ≡ 0 =
          omega (arith, length-append items (e ∷ [])) in
        rw whole (append_free room)
    | no full ↦ elim (dec_lt 0 log.capacity) [
      | yes pos ↦
          let one : length (items ++ e ∷ []) - log.capacity ≡ 1 =
            omega (arith, length-append items (e ∷ [])) in
          rw (one, drop-append_left 1 items (e ∷ []) (omega arith)) (append_full (omega arith) pos)
      | no empty ↦
          rw (drop_past (length (items ++ e ∷ []) - log.capacity) (items ++ e ∷ []) (omega arith))
            (append_none (omega arith))
    ]
  ]

-- What a client reads of the ring, in terms of the entries held.
module _ (log : MutationLog) (items : List MutationLogEntry) (held : Holds log items) where
  open held use {storage, count, fits, start_in, reads}

  entry_at-Holds : (i : ℕ) → entry_at log i ≡ get_elem? items i
  unfolding entry_at
  entry_at-Holds i = elim (dec_lt i log.size) [
    | yes p ↦ ground (arith, reads i p)
    | no p ↦ ground (arith, get_elem?_past items i)
  ]

  last_entry-Holds : last_entry log ≡ get_last? items
  unfolding last_entry
  last_entry-Holds = elim (dec_lt 0 log.size) [
    | yes p ↦
        let test : (log.size == 0) ≡ false = ground arith in
        rw (test, entry_at-Holds (log.size - 1), ← count) (get_elem?_last items)
    | no p ↦
        let test : (log.size == 0) ≡ true = ground arith in
        rw (test, nil_of_length items (omega arith))
  ]

  entries_from-Holds :
      (from_version to_version index rounds : ℕ)
      → index + rounds ≡ log.size
      → entries_from log from_version to_version index rounds
        ≡ filter_by (in_range from_version to_version) (drop index items)
  unfolding entries_from
  entries_from-Holds from_version to_version index zero h = rw (drop_past index items (omega arith))
  entries_from-Holds from_version to_version index (suc rounds) h =
      let (x, found) = get_elem?_within items index (omega arith) in
      rw (
        entry_at-Holds index,
        found,
        entries_from-Holds from_version to_version (index + 1) rounds (omega arith),
        drop_step items index found,
      )

  -- `entriesExclusive` returns the entries held whose version lies in the range, in order.
  pub entries_exclusive-Holds :
      (from_version to_version : ℕ)
      → entries_exclusive log from_version to_version
        ≡ filter_by (in_range from_version to_version) items
  unfolding entries_exclusive
  entries_exclusive-Holds from_version to_version =
      entries_from-Holds from_version to_version 0 log.size (omega arith)

  -- `coversExclusive` compares the versions of the oldest and the newest entry held.
  pub covers_exclusive-Holds :
      (from_version to_version : ℕ)
      → covers_exclusive log from_version to_version ≡ (
          if leb to_version from_version
          then true
          else ends_cover (get_elem? items 0) (get_last? items) from_version to_version)
  unfolding covers_exclusive
  covers_exclusive-Holds from_version to_version = rw (entry_at-Holds 0, last_entry-Holds)
