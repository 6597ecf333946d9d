-- ===== src/Worker/QueryEngine/Windowed.antt =====
-- worker/query-engine.ts: the windows that `executeRawQuery` computes by the sort and by the bounded
-- sorted array. Its heap is not treated here.
use Prim.Native.Nat.{Ordering, compare}
use view_server.Prelude.{
  ℕ, zero, suc, ◌+◌, ◌≤◌, ◌<◌, ◌≡◌, refl, ap, ap₂, ◌∙◌, sym, Bool, true, List, [], ◌∷◌, length,
  take, slice, slice-take, filter_by, map, All, ltb, if◌then◌else◌, arith, Bool-cases, inl, inr,
  String, length-take, take_whole,
}
use view_server.Protocol.Value.{Row}
use view_server.Protocol.Host.{Host}
use view_server.Protocol.QuerySemantics.{OrderBy, compare_rows_for_order}
use view_server.Ordered.{
  insert_ordered, sort_into, stable_sort, Sorted, take-insert_ordered, All-insert_ordered,
  All-weaken, length-insert_ordered,
}
use view_server.Ordered.Search.{Sorted-insert_ordered}
use view_server.Worker.Projection.{project_row}
use view_server.Worker.QueryEngine.TopRows.{SortEntry, compare_sort_entries, insert_top_sort_entry}
use view_server.Worker.QueryEngine.Execute.{
  RuntimeRawQuery, QueryExecutionResult, entry_row, with_indices, stable_sort_rows, window_loop,
  window_result, execute_raw_query_windowed_splice, execute_raw_query_sorted,
}
use view_server.Worker.QueryEngine.Window.{
  row_order, insert_ordered_later, entry_rank, Entry, Entry-agree, insert_top_sort_entry_lem,
}

All-take {ℓ κ} : {A : Type ℓ} (P : A → Type κ) (n : ℕ) (xs : List A) → All P xs → All P (take n xs)
All-take P zero xs h = tt
All-take P (suc n) [] h = tt
All-take P (suc n) (x ∷ xs) h = (h.0, All-take P n xs h.1)

Sorted-take {ℓ} :
    {E : Type ℓ} (rank : E → ℕ) (n : ℕ) (xs : List E) → Sorted rank xs → Sorted rank (take n xs)
Sorted-take rank zero xs s = tt
Sorted-take rank (suc n) [] s = tt
Sorted-take rank (suc n) (x ∷ xs) s =
    (All-take (λ y. rank x ≤ rank y) n xs s.0, Sorted-take rank n xs s.1)

map-slice {ℓ κ} :
    {A : Type ℓ} {B : Type κ} (f : A → B) (xs : List A) (offset limit : ℕ)
    → map f (slice xs offset limit) ≡ slice (map f xs) offset limit
map-slice f xs zero zero = refl
map-slice f [] zero (suc limit) = refl
map-slice f (x ∷ xs) zero (suc limit) = ap (◌∷◌ (f x)) (map-slice f xs zero limit)
map-slice f [] (suc offset) zero = refl
map-slice f [] (suc offset) (suc limit) = refl
map-slice f (x ∷ xs) (suc offset) limit = map-slice f xs offset limit

map-map {ℓ κ ι} :
    {A : Type ℓ} {B : Type κ} {C : Type ι} (f : B → C) (g : A → B) (xs : List A)
    → map (λ x. f (g x)) xs ≡ map f (map g xs)
map-map f g [] = refl
map-map f g (x ∷ xs) = ap (◌∷◌ (f (g x))) (map-map f g xs)

abbrev entry : Row → ℕ → SortEntry
entry row index = record { row = row; index = index }

-- The entries of the rows that match, from row `index` on.
abbrev matched : (Row → Bool) → ℕ → List Row → List SortEntry
matched filter index [] = []
matched filter index (row ∷ rows) =
    if filter row
    then entry row index ∷ matched filter (index + 1) rows
    else matched filter (index + 1) rows

module _ (host : Host) (order_by : OrderBy) where
  abbrev compare_rows : Row → Row → Ordering
  compare_rows a b = compare_rows_for_order host a b order_by

  -- What a raw query asks for: the rows that match, in order, the window of them, and their number.
  abbrev pub window_of :
      List Row → RuntimeRawQuery → String → (Row → Bool) → ℕ → ℕ → QueryExecutionResult
  window_of rows query id_field filter offset limit = record {
    rows =
        map (λ row. project_row row query.fields id_field)
          (slice (stable_sort compare_rows (filter_by filter rows)) offset limit);
    total_rows = length (filter_by filter rows);
  }

  abbrev Earlier : ℕ → SortEntry → Type 0
  Earlier index e = e.index < index

  map-insert_ordered :
      (xs : List SortEntry) (c : SortEntry)
      → map entry_row (insert_ordered (row_order host order_by) xs c)
        ≡ insert_ordered compare_rows (map entry_row xs) c.row
  unfolding insert_ordered
  map-insert_ordered [] c = refl
  map-insert_ordered (x ∷ xs) c = ground (arith, map-insert_ordered xs c)

  Earlier-step :
      (xs : List SortEntry) (row : Row) (index : ℕ)
      → All (Earlier index) xs
      → All (Earlier (index + 1)) (insert_ordered (row_order host order_by) xs (entry row index))
  Earlier-step xs row index h =
      All-insert_ordered (row_order host order_by) (Earlier (index + 1)) xs (entry row index)
        (omega arith) (All-weaken (Earlier index) (Earlier (index + 1)) (λ e l. omega arith) xs h)

  map-sort_matched :
      (filter : Row → Bool) (rows : List Row) (index : ℕ) (xs : List SortEntry)
      → map entry_row (sort_into (row_order host order_by) xs (matched filter index rows))
        ≡ sort_into compare_rows (map entry_row xs) (filter_by filter rows)
  unfolding sort_into
  map-sort_matched filter [] index xs = refl
  map-sort_matched filter (row ∷ rows) index xs = elim (Bool-cases (filter row)) [
    | inl m ↦ rw m (
        map-sort_matched filter rows (index + 1)
          (insert_ordered (row_order host order_by) xs (entry row index))
        ∙ ap (λ ys. sort_into compare_rows ys (filter_by filter rows))
            (map-insert_ordered xs (entry row index)))
    | inr m ↦ rw m (map-sort_matched filter rows (index + 1) xs)
  ]

  -- Sorting rows with their indices as the tie break is the stable sort of the rows.
  map-sort_indexed :
      (rows : List Row) (index : ℕ) (xs : List SortEntry)
      → All (Earlier index) xs
      → map entry_row (sort_into (compare_sort_entries host order_by) xs (with_indices index rows))
        ≡ sort_into compare_rows (map entry_row xs) rows
  unfolding sort_into with_indices
  map-sort_indexed [] index xs h = refl
  map-sort_indexed (row ∷ rows) index xs h =
      ap
        (λ ys.
          map entry_row
            (sort_into (compare_sort_entries host order_by) ys (with_indices (index + 1) rows)))
        (insert_ordered_later host order_by xs (entry row index) h)
      ∙ (map-sort_indexed rows (index + 1)
            (insert_ordered (row_order host order_by) xs (entry row index))
            (Earlier-step xs row index h)
          ∙ ap (λ ys. sort_into compare_rows ys rows) (map-insert_ordered xs (entry row index)))

  length-sort_into :
      (xs rows : List Row) → length (sort_into compare_rows xs rows) ≡ length xs + length rows
  unfolding sort_into
  length-sort_into xs [] = omega arith
  length-sort_into xs (row ∷ rows) = omega (
    arith,
    length-sort_into (insert_ordered compare_rows xs row) rows,
    length-insert_ordered compare_rows xs row,
  )

  result_ext :
      (rows ys : List Row) (query : RuntimeRawQuery) (id_field : String) (n m offset limit : ℕ)
      → rows ≡ ys
      → n ≡ m
      → ◌≡◌ {A = QueryExecutionResult}
          (record {
            rows = map (λ row. project_row row query.fields id_field) (slice rows offset limit);
            total_rows = n;
          })
          (record {
            rows = map (λ row. project_row row query.fields id_field) (slice ys offset limit);
            total_rows = m;
          })
  result_ext rows ys query id_field n m offset limit p q = rw (p, q) refl

  -- At every offset and limit, sorting with the position as the tie break, slicing and projecting gives
  -- the window of the stable sort of the matching rows, and the number of them.
  pub execute_raw_query_sorted_lem :
      (rows : List Row) (query : RuntimeRawQuery) (id_field : String) (filter : Row → Bool)
      (offset limit : ℕ)
      → execute_raw_query_sorted host rows query id_field filter order_by offset limit
        ≡ window_of rows query id_field filter offset limit
  unfolding execute_raw_query_sorted stable_sort_rows
  execute_raw_query_sorted_lem rows query id_field filter offset limit =
      let sorted = map-sort_indexed (filter_by filter rows) 0 [] tt in
      result_ext _ _ query id_field _ _ offset limit sorted
        (ap length sorted ∙ length-sort_into [] (filter_by filter rows) ∙ omega arith)

  sliced :
      (rows : List Row) (query : RuntimeRawQuery) (id_field : String) (filter : Row → Bool)
      (offset limit : ℕ)
      → window_result host query id_field offset limit
          (take (offset + limit) (sort_into (row_order host order_by) [] (matched filter 0 rows)))
          (0 + length (filter_by filter rows))
        ≡ window_of rows query id_field filter offset limit
  sliced rows query id_field filter offset limit =
      let entries = sort_into (row_order host order_by) [] (matched filter 0 rows) in
      let project = λ (row : Row). project_row row query.fields id_field in
      let same_rows =
        ap (map (λ (e : SortEntry). project e.row)) (slice-take offset limit entries)
        ∙ map-map project entry_row (slice entries offset limit)
        ∙ ap (map project) (
            map-slice entry_row entries offset limit
            ∙ ap (λ ys. slice ys offset limit) (map-sort_matched filter rows 0 [])) in
      let same_total : 0 + length (filter_by filter rows) ≡ length (filter_by filter rows) =
        omega arith in
      ap₂ (λ r n. record { rows = r; total_rows = n }) same_rows same_total

  module _ {κ} (rank : Row → ℕ) (P : Row → Type κ)
      (agree : (a b : Row)
        → P a
        → P b
        → compare_rows_for_order host a b order_by ≡ compare (rank a) (rank b)) where
    step :
        (w : ℕ) (xs : List SortEntry) (row : Row) (index : ℕ)
        → P row
        → All (Entry host order_by rank P agree) xs
        → Sorted (entry_rank host order_by rank P agree) xs
        → All (Earlier index) xs
        → (if ltb 0 w
            then insert_top_sort_entry host order_by (take w xs) (entry row index) w
            else take w xs)
          ≡ take w (insert_ordered (row_order host order_by) xs (entry row index))
    step zero xs row index pr ps s b = refl
    step (suc n) xs row index pr ps s b =
        let w = suc n in
        let positive : ltb 0 w ≡ true = ground arith in
        ap
          (λ b.
            if b
            then insert_top_sort_entry host order_by (take w xs) (entry row index) w
            else take w xs)
          positive
        ∙ insert_top_sort_entry_lem host order_by rank P agree (take w xs) (entry row index) w
            (omega arith) (omega (arith, length-take w xs)) pr (All-take _ w xs ps)
            (Sorted-take _ w xs s) (All-take (Earlier index) w xs b)
        ∙ take-insert_ordered (row_order host order_by) w xs (entry row index)

    loop_lem :
        (filter : Row → Bool) (w : ℕ) (rows : List Row) (index : ℕ) (xs : List SortEntry)
        (total : ℕ)
        → All P rows
        → All (Entry host order_by rank P agree) xs
        → Sorted (entry_rank host order_by rank P agree) xs
        → All (Earlier index) xs
        → window_loop host
            (insert_top_sort_entry host order_by)
            filter
            w
            rows
            index
            (take w xs)
            total
          ≡ (
            take w (sort_into (row_order host order_by) xs (matched filter index rows)),
            total + length (filter_by filter rows),
          )
    unfolding window_loop sort_into
    loop_lem filter w [] index xs total pr ps s b = ap₂ (λ a b. (a, b)) refl (omega arith)
    loop_lem filter w (row ∷ rows) index xs total pr ps s b = elim (Bool-cases (filter row)) [
      | inl m ↦
          let e = entry row index in
          rw (m, step w xs row index pr.0 ps s b)
            (loop_lem filter w rows (index + 1) (insert_ordered (row_order host order_by) xs e)
                (total + 1) pr.1
                (All-insert_ordered (row_order host order_by) (Entry host order_by rank P agree) xs
                  e pr.0 ps)
                (Sorted-insert_ordered (row_order host order_by)
                  (entry_rank host order_by rank P agree) (Entry host order_by rank P agree)
                  (Entry-agree host order_by rank P agree) xs e pr.0 ps s)
                (Earlier-step xs row index b)
              ∙ ap₂ (λ a b. (a, b)) refl (omega arith))
      | inr m ↦ rw m (
          loop_lem filter w rows (index + 1) xs total pr.1 ps s
            (All-weaken (Earlier index) (Earlier (index + 1)) (λ e l. omega arith) xs b))
    ]

    -- For rows on which the comparison of the rows is that of some rank, the window that the array of
    -- first rows gives is the window of the sorted rows, with the same total, at every offset and limit.
    pub execute_raw_query_windowed_splice_lem :
        (rows : List Row) (query : RuntimeRawQuery) (id_field : String) (filter : Row → Bool)
        (offset limit : ℕ)
        → All P rows
        → execute_raw_query_windowed_splice host rows query id_field filter order_by offset limit
          ≡ execute_raw_query_sorted host rows query id_field filter order_by offset limit
    unfolding execute_raw_query_windowed_splice
    execute_raw_query_windowed_splice_lem rows query id_field filter offset limit pr =
        let w = offset + limit in
        let entries = sort_into (row_order host order_by) [] (matched filter 0 rows) in
        let loop = loop_lem filter w rows 0 [] 0 pr tt tt tt in
        let start : ◌≡◌ {A = List SortEntry} (take w []) [] = take_whole w [] (omega arith) in
        ap (λ r. window_result host query id_field offset limit r.0 r.1)
          (ap (λ t. window_loop host (insert_top_sort_entry host order_by) filter w rows 0 t 0)
              (sym start)
            ∙ loop)
        ∙ sliced rows query id_field filter offset limit
        ∙ sym (execute_raw_query_sorted_lem rows query id_field filter offset limit)
