-- ===== src/Worker/QueryEngine/Window.antt =====
-- worker/query-engine.ts: the array that `insertTopSortEntry` keeps, beside the sorted rows.
use Prim.Native.Nat.{Ordering, compare}
use view_server.Prelude.{
  ℕ, suc, ◌-◌, ◌≤◌, ◌<◌, ◌≡◌, refl, ap, ◌∙◌, sym, Bool, true, false, not, ◌&&◌, List, [], ◌∷◌, ◌++◌,
  Option, none, some, length, get_elem?, take, insert_at, All, ltb, if◌then◌else◌, arith,
  Bool-cases, inl, inr, dec_lt, All-get_elem?, get_elem?_within, length_of_get_elem?,
  drop_last-eq-take, take_whole, take-append_left,
}
use view_server.Protocol.Value.{Row}
use view_server.Protocol.Host.{Host}
use view_server.Protocol.QuerySemantics.{OrderBy, compare_rows_for_order}
use view_server.Ordered.{
  is_lt, insert_ordered, ordered_index, Sorted, insert_at-ordered_index, ordered_index-le,
  length-insert_ordered,
}
use view_server.Ordered.Search.{search_loop_lem, precedes_at}
use view_server.Worker.QueryEngine.TopRows.{
  SortEntry, compare_sort_entries, sort_entry_insertion_index, insert_top_sort_entry, goes_left,
  pop_over, too_late, or_index,
}

insert_at_end {ℓ} : {A : Type ℓ} (xs : List A) (c : A) → insert_at xs (length xs) c ≡ xs ++ c ∷ []
insert_at_end [] c = refl
insert_at_end (x ∷ xs) c = ap (◌∷◌ x) (insert_at_end xs c)

not-not : (b : Bool) → not (not b) ≡ b
not-not true = refl
not-not false = refl

and_true : (a b : Bool) → a && b ≡ true → (a ≡ true) × (b ≡ true)
and_true true true h = (refl, refl)
and_true true false h = cc
and_true false b h = cc

not-true : (b : Bool) → not b ≡ true → b ≡ false
not-true true h = cc
not-true false h = refl

past_last : (n i : ℕ) → 0 < n → i ≤ n → not (ltb (n - 1) i) ≡ false → i ≡ n
past_last n i p l h = ground arith

module _ (host : Host) (order_by : OrderBy) where
  abbrev pub row_order : SortEntry → SortEntry → Ordering
  row_order a b = compare_rows_for_order host a.row b.row order_by

  abbrev pub Before : SortEntry → SortEntry → Type 0
  Before c e = e.index < c.index

  pop_over_lem :
      (limit : ℕ) (ys : List SortEntry)
      → length ys ≤ suc limit
      → pop_over host order_by limit ys ≡ take limit ys
  pop_over_lem limit ys h = elim (dec_lt limit (length ys)) [
    | yes q ↦
        let over : ltb limit (length ys) ≡ true = ground arith in
        rw over (drop_last-eq-take limit ys (omega arith))
    | no q ↦
        let within : ltb limit (length ys) ≡ false = ground arith in
        rw within (sym (take_whole limit ys (omega arith)))
  ]

  later_lem : (o : Ordering) (i j : ℕ) → j < i → is_lt (or_index o (compare i j)) ≡ is_lt o
  later_lem Ordering.lt i j h = refl
  later_lem Ordering.gt i j h = refl
  later_lem Ordering.eq i j h = ground arith

  -- For an entry of a later row the rows alone decide.
  later :
      (c e : SortEntry)
      → Before c e
      → is_lt (compare_sort_entries host order_by c e) ≡ is_lt (row_order c e)
  unfolding compare_sort_entries
  later c e h = later_lem (row_order c e) c.index e.index h

  pub insert_ordered_later :
      (xs : List SortEntry) (c : SortEntry)
      → All (Before c) xs
      → insert_ordered (compare_sort_entries host order_by) xs c ≡ insert_ordered row_order xs c
  unfolding insert_ordered
  insert_ordered_later [] c b = refl
  insert_ordered_later (x ∷ xs) c b = rw (later c x b.0, insert_ordered_later xs c b.1) refl

  module _ {κ} (rank : Row → ℕ) (P : Row → Type κ)
      (agree : (a b : Row)
        → P a
        → P b
        → compare_rows_for_order host a b order_by ≡ compare (rank a) (rank b)) where
    abbrev pub entry_rank : SortEntry → ℕ
    entry_rank e = rank e.row

    abbrev pub Entry : SortEntry → Type κ
    Entry e = P e.row

    pub Entry-agree :
        (a b : SortEntry)
        → Entry a
        → Entry b
        → row_order a b ≡ compare (entry_rank a) (entry_rank b)
    Entry-agree a b pa pb = agree a.row b.row pa pb

    goes_right :
        (xs : List SortEntry) (c : SortEntry)
        → Entry c
        → All Entry xs
        → Sorted entry_rank xs
        → All (Before c) xs
        → (i : ℕ) → i < length xs
        → not (goes_left host order_by c (get_elem? xs i)) ≡ ltb i (ordered_index row_order xs c)
    goes_right xs c pc ps s b i h =
        let (e, at) = get_elem?_within xs i h in
        rw
          (
            at,
            later c e (All-get_elem? (Before c) xs i b at),
            precedes_at row_order entry_rank Entry Entry-agree xs c pc ps s i e at,
          )
          (not-not (ltb i (ordered_index row_order xs c)))

    index_lem :
        (xs : List SortEntry) (c : SortEntry)
        → Entry c
        → All Entry xs
        → Sorted entry_rank xs
        → All (Before c) xs
        → sort_entry_insertion_index host order_by xs c ≡ ordered_index row_order xs c
    unfolding sort_entry_insertion_index
    index_lem xs c pc ps s b =
        search_loop_lem _ (length xs) 0 (length xs) (ordered_index row_order xs c) (omega arith)
          (omega arith) (ordered_index-le row_order xs c) (goes_right xs c pc ps s b)

    insert_at_index :
        (xs : List SortEntry) (c : SortEntry)
        → Entry c
        → All Entry xs
        → Sorted entry_rank xs
        → All (Before c) xs
        → insert_at xs (sort_entry_insertion_index host order_by xs c) c
          ≡ insert_ordered row_order xs c
    insert_at_index xs c pc ps s b =
        rw (index_lem xs c pc ps s b) (insert_at-ordered_index row_order xs c)

    -- A candidate that the early return drops would come after the last entry of a full array.
    dropped :
        (xs : List SortEntry) (c e : SortEntry) (limit : ℕ)
        → get_elem? xs (length xs - 1) ≡ some e
        → 0 < length xs
        → length xs ≤ limit
        → Entry c
        → All Entry xs
        → Sorted entry_rank xs
        → All (Before c) xs
        → too_late host order_by xs c limit (some e) ≡ true
        → xs ≡ take limit (insert_ordered row_order xs c)
    dropped xs c e limit at p l pc ps s b h =
        let (full, late) = and_true _ _ h in
        let before = All-get_elem? (Before c) xs (length xs - 1) b at in
        let right =
          precedes_at row_order entry_rank Entry Entry-agree xs c pc ps s (length xs - 1) e at in
        let at_end : ordered_index row_order xs c ≡ length xs =
          past_last (length xs) (ordered_index row_order xs c) p (ordered_index-le row_order xs c)
            (sym right ∙ sym (later c e before) ∙ not-true _ late) in
        let full_length : limit ≡ length xs = ground arith in
        sym (
          ap (take limit) (
            sym (insert_at-ordered_index row_order xs c)
            ∙ ap (λ i. insert_at xs i c) at_end
            ∙ insert_at_end xs c)
          ∙ take-append_left limit xs (c ∷ []) (omega arith)
          ∙ take_whole limit xs (omega arith))

    insert_top_of :
        (xs : List SortEntry) (c : SortEntry) (limit : ℕ) (last : Option SortEntry)
        → get_elem? xs (length xs - 1) ≡ last
        → 0 < limit
        → length xs ≤ limit
        → Entry c
        → All Entry xs
        → Sorted entry_rank xs
        → All (Before c) xs
        → (if too_late host order_by xs c limit last
            then xs
            else pop_over host order_by limit
                (insert_at xs (sort_entry_insertion_index host order_by xs c) c))
          ≡ take limit (insert_ordered row_order xs c)
    insert_top_of xs c limit last at p l pc ps s b =
        elim (Bool-cases (too_late host order_by xs c limit last)) [
          | inl h ↦ rw h (full last at h)
          | inr h ↦
              rw (h, insert_at_index xs c pc ps s b)
                (pop_over_lem limit (insert_ordered row_order xs c)
                  (omega (arith, length-insert_ordered row_order xs c)))
        ]
      where
        full :
            (last : Option SortEntry)
            → get_elem? xs (length xs - 1) ≡ last
            → too_late host order_by xs c limit last ≡ true
            → xs ≡ take limit (insert_ordered row_order xs c)
        full none at h = cc
        full (some e) at h =
            dropped xs c e limit at (omega (arith, length_of_get_elem? xs (length xs - 1) at)) l pc
              ps s b h

    -- On a sorted array of at most `limit` entries, all of earlier rows, an insertion with its early
    -- return, binary search and pop gives the first `limit` elements of the ordered insertion.
    pub insert_top_sort_entry_lem :
        (xs : List SortEntry) (c : SortEntry) (limit : ℕ)
        → 0 < limit
        → length xs ≤ limit
        → Entry c
        → All Entry xs
        → Sorted entry_rank xs
        → All (Before c) xs
        → insert_top_sort_entry host order_by xs c limit
          ≡ take limit (insert_ordered row_order xs c)
    unfolding insert_top_sort_entry
    insert_top_sort_entry_lem xs c limit = insert_top_of xs c limit _ refl
