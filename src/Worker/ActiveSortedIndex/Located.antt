-- ===== src/Worker/ActiveSortedIndex/Located.antt =====
-- The search for an id in the blocks of an index.
use Prim.Native.Nat.{Ordering, compare}
use view_server.Prelude.{
  ℕ, suc, ◌+◌, ◌≤◌, ◌<◌, ◌≡◌, refl, sym, ap, ◌∙◌, inl, inr, true, false, Option, none, some,
  some-injective, List, [], ◌∷◌, ◌++◌, arith, ltb, ltb→lt, Bool-cases, length, get_elem?, take,
  drop, All, get_elem?-drop, get_last?, take-append-drop,
}
use mathlib.Core.Path.{subst}
use view_server.Protocol.StableKey.{StableKey, stable_key_equals}
use view_server.Ordered.{is_lt, is_gt, Sorted, All-weaken}
use view_server.Worker.FanoutQueue.Queued.{All-append}
use view_server.Worker.ActiveSortedIndex.Sorting.{is_key, index_of}
use view_server.Worker.ActiveSortedIndex.{
  is_before, last_before, first_block_with_last_at_least, locate_in, locate_from, location_of,
}
use view_server.Worker.ActiveSortedIndex.Slices.{concat, concat-append}
use view_server.Worker.ActiveSortedIndex.Inserted.{
  IsFilled, Sorted-append, Sorted-get_last?, leading, search_blocks, SortedBlocks,
}
use view_server.Worker.ActiveSortedIndex.Searched.{other_rank, Answers, index_of_lem}

module _ (compare_ids : StableKey → StableKey → Ordering) (rank : StableKey → ℕ)
    (agree : (a b : StableKey) → compare_ids a b ≡ compare (rank a) (rank b)) where
  abbrev pub AllOther : StableKey → List StableKey → Type 0
  AllOther id ids = All (λ a. stable_key_equals a id ≡ false) ids

  other_below :
      (id : StableKey) (ids : List StableKey) → All (λ a. rank a < rank id) ids → AllOther id ids
  other_below id ids h =
      All-weaken (λ a. rank a < rank id) (λ a. stable_key_equals a id ≡ false)
        (λ a l. other_rank compare_ids rank agree a id (λ e. absurd (omega arith))) ids h

  other_above :
      (id : StableKey) (ids : List StableKey) → All (λ a. rank id < rank a) ids → AllOther id ids
  other_above id ids h =
      All-weaken (λ a. rank id < rank a) (λ a. stable_key_equals a id ≡ false)
        (λ a l. other_rank compare_ids rank agree a id (λ e. absurd (omega arith))) ids h

  pub other_everywhere :
      (id : StableKey) (ids : List StableKey)
      → ((i : ℕ) → i < length ids → is_key id (get_elem? ids i) ≡ false)
      → AllOther id ids
  other_everywhere id [] h = tt
  other_everywhere id (a ∷ ids) h =
      (h 0 (omega arith), other_everywhere id ids (λ i b. h (suc i) (omega arith)))

  -- A block that ends below `id` does not have it.
  other_ended :
      (id : StableKey) (block : List StableKey) (l : StableKey)
      → Sorted rank block
      → get_last? block ≡ some l
      → rank l < rank id
      → AllOther id block
  other_ended id block l s e low = other_below id block (
      All-weaken (λ a. rank a ≤ rank l) (λ a. rank a < rank id) (λ a h. omega arith) block
        (Sorted-get_last? rank block l s e))

  LocatedFrom : List (List StableKey) → StableKey → ℕ → Option (ℕ × ℕ) → Type 0
  LocatedFrom blocks id k none = AllOther id (concat blocks)
  LocatedFrom blocks id k (some (block_index, at)) =
      (d : ℕ) × (block_index ≡ k + d)
      × (block : List StableKey) × (get_elem? blocks d ≡ some block)
      × (is_key id (get_elem? block at) ≡ true)

  LocatedFrom-next :
      (block : List StableKey) (blocks : List (List StableKey)) (id : StableKey) (k : ℕ)
      (o : Option (ℕ × ℕ))
      → AllOther id block
      → LocatedFrom blocks id (k + 1) o
      → LocatedFrom (block ∷ blocks) id k o
  unfolding LocatedFrom
  LocatedFrom-next block blocks id k none other h =
      All-append (λ a. stable_key_equals a id ≡ false) block (concat blocks) other h
  LocatedFrom-next block blocks id k (some (i, at)) other (d, e, b, there, key) =
      (suc d, omega (arith, e), b, there, key)

  is_gt-rank : (a b : StableKey) → is_gt (compare_ids a b) ≡ ltb (rank b) (rank a)
  is_gt-rank a b = ground (arith, agree a b)

  is_lt-rank : (a b : StableKey) → is_lt (compare_ids a b) ≡ ltb (rank a) (rank b)
  is_lt-rank a b = ground (arith, agree a b)

  -- One round, over what the later rounds find.
  locate_in_lem :
      (block : List StableKey) (blocks : List (List StableKey)) (id : StableKey) (k : ℕ)
      (first l : StableKey) (next : Option (ℕ × ℕ)) (exact : Option ℕ)
      → Sorted rank (block ++ concat blocks)
      → get_elem? block 0 ≡ some first
      → get_last? block ≡ some l
      → LocatedFrom blocks id (k + 1) next
      → Answers compare_ids rank agree block id (λ i. i < length block) exact
      → LocatedFrom
          (block ∷ blocks)
          id
          k
          (locate_in compare_ids id k (some first) (some l) exact next)
  unfolding LocatedFrom
  locate_in_lem [] blocks id k first l next exact s ef el later found = cc
  locate_in_lem (a ∷ block) blocks id k first l next exact s ef el later found =
      elim (Bool-cases (is_gt (compare_ids first id))) [
        | inl above ↦
            let high : rank id < rank first = ltb→lt _ _ (sym (is_gt-rank first id) ∙ above) in
            let same = ap rank (some-injective a first ef) in
            rw above (
              other_above id (a ∷ (block ++ concat blocks)) (
                omega (arith, same),
                All-weaken (λ y. rank a ≤ rank y) (λ y. rank id < rank y)
                    (λ y h. omega (arith, same)) (block ++ concat blocks) s.0,
              ))
        | inr not_above ↦ elim (Bool-cases (is_lt (compare_ids l id))) [
          | inl below ↦
              let low : rank l < rank id = ltb→lt _ _ (sym (is_lt-rank l id) ∙ below) in
              rw (not_above, below)
                (LocatedFrom-next (a ∷ block) blocks id k next
                  (other_ended id (a ∷ block) l (Sorted-append rank (a ∷ block) (concat blocks) s).0
                    el low)
                  later)
          | inr not_below ↦ rw (not_above, not_below) (by_exact exact found)
        ]
      ]
    where
      by_exact :
          (o : Option ℕ)
          → Answers compare_ids rank agree (a ∷ block) id (λ i. i < length (a ∷ block)) o
          → LocatedFrom
              ((a ∷ block) ∷ blocks)
              id
              k
              (elim o [ none ↦ next | some index ↦ some (k, index) ])
      by_exact none h =
          LocatedFrom-next (a ∷ block) blocks id k next (other_everywhere id (a ∷ block) h) later
      by_exact (some i) h = (0, omega arith, a ∷ block, refl, h)

  first_of :
      (block : List StableKey) → IsFilled block → (a : StableKey) × (get_elem? block 0 ≡ some a)
  first_of [] (l, e) = cc
  first_of (a ∷ block) filled = (a, refl)

  locate_from_lem :
      (blocks : List (List StableKey)) (id : StableKey) (k : ℕ)
      → SortedBlocks compare_ids rank agree blocks
      → LocatedFrom blocks id k (locate_from compare_ids blocks id k)
  unfolding locate_from LocatedFrom
  locate_from_lem [] id k s = tt
  locate_from_lem (block ∷ blocks) id k (((l, el), filled), s) =
      let (first, ef) = first_of block (l, el) in
      let (s_block, s_rest, between) = Sorted-append rank block (concat blocks) s in
      rw (ef, el)
        (locate_in_lem block blocks id k first l (locate_from compare_ids blocks id (k + 1))
          (index_of compare_ids block id) s ef el
          (locate_from_lem blocks id (k + 1) (filled, s_rest))
          (index_of_lem compare_ids rank agree block id s_block))

  -- The blocks that end below `id` do not have it.
  leading-Other :
      (blocks : List (List StableKey)) (id : StableKey)
      → SortedBlocks compare_ids rank agree blocks
      → let n = leading (last_before compare_ids id) blocks in
        AllOther id (concat (take n blocks)) × SortedBlocks compare_ids rank agree (drop n blocks)
  leading-Other [] id s = (tt, s)
  leading-Other (block ∷ blocks) id (((l, e), filled), s) =
      let (s_block, s_rest, between) = Sorted-append rank block (concat blocks) s in
      elim (Bool-cases (last_before compare_ids id (some block))) [
        | inl ends ↦
            let test =
              sym (is_lt-rank l id) ∙ sym (ap (λ o. is_before compare_ids id o) e) ∙ ends in
            let (before, after) = leading-Other blocks id (filled, s_rest) in
            rw ends (
              All-append (λ a. stable_key_equals a id ≡ false) block
                  (concat (take (leading (last_before compare_ids id) blocks) blocks))
                  (other_ended id block l s_block e (ltb→lt _ _ test)) before,
              after,
            )
        | inr goes_on ↦ rw goes_on (tt, (((l, e), filled), s))
      ]

  -- What `locationOf` answers: where the id is, or nothing if no block has it.
  abbrev pub Locates : List (List StableKey) → StableKey → Option (ℕ × ℕ) → Type 0
  Locates blocks id none = AllOther id (concat blocks)
  Locates blocks id (some (block_index, at)) =
      (block : List StableKey) × (get_elem? blocks block_index ≡ some block)
      × (is_key id (get_elem? block at) ≡ true)

  from_start :
      (blocks : List (List StableKey)) (id : StableKey) (n : ℕ) (o : Option (ℕ × ℕ))
      → AllOther id (concat (take n blocks))
      → LocatedFrom (drop n blocks) id n o
      → Locates blocks id o
  unfolding LocatedFrom
  from_start blocks id n none before h =
      subst (AllOther id)
        (sym (concat-append (take n blocks) (drop n blocks))
          ∙ ap concat (take-append-drop n blocks))
        (All-append (λ a. stable_key_equals a id ≡ false) (concat (take n blocks))
          (concat (drop n blocks)) before h)
  from_start blocks id n (some (i, at)) before (d, e, block, there, key) =
      (block, ap (get_elem? blocks) e ∙ sym (get_elem?-drop n blocks d) ∙ there, key)

  pub location_of_lem :
      (blocks : List (List StableKey)) (id : StableKey)
      → SortedBlocks compare_ids rank agree blocks
      → Locates blocks id (location_of compare_ids blocks id)
  unfolding location_of first_block_with_last_at_least
  location_of_lem blocks id s =
      let n = leading (last_before compare_ids id) blocks in
      let (before, after) = leading-Other blocks id s in
      rw
        (search_blocks compare_ids rank agree (last_before compare_ids id) (rank id)
          (λ block l e. ap (λ o. is_before compare_ids id o) e ∙ is_lt-rank l id) blocks s)
        (from_start blocks id n (locate_from compare_ids (drop n blocks) id n) before
          (locate_from_lem (drop n blocks) id n after))
