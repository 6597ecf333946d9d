-- ===== src/Worker/ActiveSortedIndex/Sorting.antt =====
-- worker/active-sorted-index.ts: the array of ids, and the searches that both variants write out.
-- `compare_ids` is the comparison that the index is given, as the sign of its result.
use Prim.Native.Nat.{Ordering}
use view_server.Prelude.{
  ℕ, zero, suc, ◌+◌, ◌-◌, ◌/◌, Bool, true, false, ◌&&◌, not, Option, none, some, List, [], ◌∷◌, leb,
  if◌then◌else◌, length, get_elem?, drop,
}
use view_server.Protocol.StableKey.{StableKey, stable_key_equals}
use view_server.Ordered.{is_gt, search_loop}

abbrev pub is_eq : Ordering → Bool
is_eq Ordering.eq = true
is_eq _ = false

abbrev pub is_key : StableKey → Option StableKey → Bool
is_key id none = false
is_key id (some at) = stable_key_equals at id

-- The second loop runs if the first does not return.
abbrev pub first_found : Option ℕ → Option ℕ → Option ℕ
first_found none second = second
first_found (some index) second = some index

abbrev pub by_order : Option Ordering → Option ℕ → Option ℕ → Option ℕ → Option ℕ
by_order none right left exact = none
by_order (some Ordering.lt) right left exact = right
by_order (some Ordering.gt) right left exact = left
by_order (some Ordering.eq) right left exact = exact

module _ (compare_ids : StableKey → StableKey → Ordering) where
  -- `compareIds(at, id) <= 0`
  abbrev pub not_after : StableKey → Option StableKey → Bool
  not_after id none = false
  not_after id (some at) = not (is_gt (compare_ids at id))

  unfoldable pub insertion_index : List StableKey → StableKey → ℕ
  insertion_index ids id =
      search_loop (λ i. not_after id (get_elem? ids i)) (length ids) 0 (length ids)

  abbrev pub is_level : StableKey → Option StableKey → Bool
  is_level id none = false
  is_level id (some at) = is_eq (compare_ids at id)

  -- `compareIds(at, id)`
  abbrev pub order_at : StableKey → Option StableKey → Option Ordering
  order_at id none = none
  order_at id (some at) = some (compare_ids at id)

  -- The loop from `candidate` down.
  unfoldable pub exact_below : List StableKey → StableKey → ℕ → Option ℕ
  exact_below ids id zero =
      if is_level id (get_elem? ids 0) && is_key id (get_elem? ids 0) then some 0 else none
  exact_below ids id (suc below) =
      let rest = exact_below ids id below in
      if not (is_level id (get_elem? ids (suc below)))
      then none
      else if is_key id (get_elem? ids (suc below))
      then some (suc below)
      else rest

  -- The loop up, over the ids from `candidate` on.
  unfoldable pub exact_above : List StableKey → StableKey → ℕ → Option ℕ
  exact_above [] id candidate = none
  exact_above (at ∷ ids) id candidate =
      let above = exact_above ids id (candidate + 1) in
      if not (is_eq (compare_ids at id))
      then none
      else if stable_key_equals at id
      then some candidate
      else above

  unfoldable pub exact_index_in_equal_range : List StableKey → ℕ → StableKey → Option ℕ
  unfolding exact_below exact_above
  exact_index_in_equal_range ids index id =
      first_found (exact_below ids id index) (exact_above (drop (index + 1) ids) id (index + 1))

  -- The loop of `indexOf`. `above` is `high + 1`, as `high` may be -1; `none` is its result -1.
  unfoldable pub index_between : List StableKey → StableKey → ℕ → ℕ → ℕ → Option ℕ
  unfolding exact_index_in_equal_range
  index_between ids id zero low above = none
  index_between ids id (suc fuel) low above =
      let middle = (low + (above - 1)) / 2 in
      let right = index_between ids id fuel (middle + 1) above in
      let left = index_between ids id fuel low middle in
      if leb above low
      then none
      else by_order (order_at id (get_elem? ids middle)) right left
          (exact_index_in_equal_range ids middle id)

  unfoldable pub index_of : List StableKey → StableKey → Option ℕ
  unfolding index_between
  index_of ids id = index_between ids id (length ids) 0 (length ids)
