-- ===== src/Worker/QueryEngine/TopRows.antt =====
-- worker/query-engine.ts: the first rows of an order, kept while the rows are read: as a sorted array
-- (`insertTopSortEntry`), or as a heap with the last of them on top (`offerTopSortEntry`).
use Prim.Native.Nat.{Ordering, compare}
use view_server.Prelude.{
  ℕ, zero, suc, ◌+◌, ◌-◌, ◌*◌, ◌/◌, Bool, true, false, ◌&&◌, not, Option, none, some, List, [], ◌∷◌,
  ◌++◌, length, get_elem?, set, drop_last, insert_at, ltb, leb, ◌==◌, if◌then◌else◌,
}
use view_server.Protocol.Value.{Row}
use view_server.Protocol.Host.{Host}
use view_server.Protocol.QuerySemantics.{OrderBy, compare_rows_for_order}
use view_server.Ordered.{is_lt, is_gt, search_loop}

pub record SortEntry : Type 0 where
  pub row : Row
  pub index : ℕ

abbrev pub or_index : Ordering → Ordering → Ordering
or_index Ordering.eq by_index = by_index
or_index Ordering.lt by_index = Ordering.lt
or_index Ordering.gt by_index = Ordering.gt

module _ (host : Host) (order_by : OrderBy) where
  unfoldable pub compare_sort_entries : SortEntry → SortEntry → Ordering
  compare_sort_entries left right =
      or_index (compare_rows_for_order host left.row right.row order_by)
        (compare left.index right.index)

  -- `entry !== undefined && compareSortEntries(candidate, entry) < 0`, and its failure goes right.
  abbrev pub goes_left : SortEntry → Option SortEntry → Bool
  goes_left candidate none = false
  goes_left candidate (some entry) = is_lt (compare_sort_entries candidate entry)

  unfoldable pub sort_entry_insertion_index : List SortEntry → SortEntry → ℕ
  sort_entry_insertion_index entries candidate =
      search_loop (λ middle. not (goes_left candidate (get_elem? entries middle))) (length entries)
        0 (length entries)

  -- The early return: the array is full, and the candidate comes no earlier than its last entry.
  abbrev pub too_late : List SortEntry → SortEntry → ℕ → Option SortEntry → Bool
  too_late entries candidate limit none = false
  too_late entries candidate limit (some worst) =
      leb limit (length entries) && not (is_lt (compare_sort_entries candidate worst))

  -- `if (entries.length > limit) entries.pop()`
  abbrev pub pop_over : ℕ → List SortEntry → List SortEntry
  pop_over limit entries = if ltb limit (length entries) then drop_last entries else entries

  unfoldable pub insert_top_sort_entry : List SortEntry → SortEntry → ℕ → List SortEntry
  unfolding sort_entry_insertion_index
  insert_top_sort_entry entries candidate limit =
      if too_late entries candidate limit (get_elem? entries (length entries - 1))
      then entries
      else pop_over limit
          (insert_at entries (sort_entry_insertion_index entries candidate) candidate)

  abbrev pub swap_entries : List SortEntry → ℕ → ℕ → SortEntry → SortEntry → List SortEntry
  swap_entries heap i j at_i at_j = set (set heap i at_j) j at_i

  -- The comparison of `siftTopSortEntryUp`: the parent already comes no earlier.
  abbrev pub parent_settled : Option SortEntry → Option SortEntry → Bool
  parent_settled (some parent) (some current) = not (is_lt (compare_sort_entries parent current))
  parent_settled _ _ = true

  abbrev pub exchange :
      List SortEntry → ℕ → ℕ → Option SortEntry → Option SortEntry → List SortEntry
  exchange heap i j (some at_i) (some at_j) = swap_entries heap i j at_i at_j
  exchange heap i j _ _ = heap

  -- The loop of `siftTopSortEntryUp`: the index falls, so a fuel of the start index is enough.
  unfoldable pub sift_top_sort_entry_up : ℕ → List SortEntry → ℕ → List SortEntry
  sift_top_sort_entry_up zero heap index = heap
  sift_top_sort_entry_up (suc fuel) heap index =
      let parent_index = (index - 1) / 2 in
      let parent = get_elem? heap parent_index in
      let current = get_elem? heap index in
      let rest =
        sift_top_sort_entry_up fuel (exchange heap parent_index index parent current)
          parent_index in
      if index == 0 then heap else if parent_settled parent current then heap else rest

  -- `child !== undefined && worst !== undefined && compareSortEntries(child, worst) > 0`
  abbrev pub comes_later : Option SortEntry → Option SortEntry → Bool
  comes_later (some child) (some worst) = is_gt (compare_sort_entries child worst)
  comes_later _ _ = false

  abbrev pub later_index : List SortEntry → ℕ → ℕ → ℕ
  later_index heap child worst =
      if comes_later (get_elem? heap child) (get_elem? heap worst) then child else worst

  -- The loop of `siftTopSortEntryDown`: the index grows, so a fuel of the heap's length is enough.
  unfoldable pub sift_top_sort_entry_down : ℕ → List SortEntry → ℕ → List SortEntry
  sift_top_sort_entry_down zero heap index = heap
  sift_top_sort_entry_down (suc fuel) heap index =
      let left_index = index * 2 + 1 in
      let worst_index = later_index heap (left_index + 1) (later_index heap left_index index) in
      let rest =
        sift_top_sort_entry_down fuel
          (exchange heap index worst_index (get_elem? heap index) (get_elem? heap worst_index))
          worst_index in
      if worst_index == index then heap else rest

  unfoldable pub offer_top_sort_entry : List SortEntry → SortEntry → ℕ → List SortEntry
  unfolding sift_top_sort_entry_up sift_top_sort_entry_down
  offer_top_sort_entry heap candidate limit =
      if too_late heap candidate limit (get_elem? heap 0)
      then heap
      else if ltb (length heap) limit
      then sift_top_sort_entry_up (length heap) (heap ++ candidate ∷ []) (length heap)
      else sift_top_sort_entry_down (length heap) (set heap 0 candidate) 0
