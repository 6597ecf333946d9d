-- ===== src/Worker/ActiveSortedIndex.antt =====
-- worker/active-sorted-index.ts: the ids of an active view in order, in one array or in blocks. Row
-- counts, sizes, offsets and limits are natural numbers, as its callers normalise them.
pub mod Sorting
pub mod Slices
pub mod Inserted
pub mod Inserts
pub mod Made
pub mod Searched
pub mod Located
pub mod Removes
use Prim.Native.Nat.{Ordering}
use view_server.Prelude.{
  ℕ, zero, suc, ◌+◌, ◌-◌, ◌*◌, ◌/◌, ◌<◌, min, max, Bool, true, false, ◌||◌, not, Option, none, some,
  List, [], ◌∷◌, ◌++◌, leb, ◌==◌, if◌then◌else◌, length, get_elem?, set, take, drop, slice,
  insert_at, remove_at, get_last?,
}
use view_server.Protocol.StableKey.{StableKey}
use view_server.Ordered.{is_lt, is_gt, search_loop, stable_sort}
use view_server.Worker.ActiveSortedIndex.Sorting.{not_after, insertion_index, index_of}

pub data ActiveSortedIndexKind : Type 0 where
  of_array of_blocks : ActiveSortedIndexKind

abbrev pub default_block_size : ℕ
default_block_size = 1024

unfoldable pub normalized_block_size : ℕ → ℕ
normalized_block_size block_size = max 32 block_size

-- `options.blockSize ?? DEFAULT_BLOCK_SIZE`
abbrev pub size_option : Option ℕ → ℕ
size_option none = default_block_size
size_option (some block_size) = block_size

-- A `kind` that is not given is not "array".
unfoldable pub estimate_active_sorted_index_bytes : ℕ → Option ActiveSortedIndexKind → Option ℕ → ℕ
unfolding normalized_block_size
estimate_active_sorted_index_bytes count (some of_array) block_size = 24 + count * 16
estimate_active_sorted_index_bytes count kind block_size =
    let size = normalized_block_size (size_option block_size) in
    let block_count = if count == 0 then 0 else (count + (size - 1)) / size in
    24 + block_count * 32 + count * 16

pub record BlockSortedIndex : Type 0 where
  pub target_block_size : ℕ
  pub blocks : List (List StableKey)
  pub size : ℕ

abbrev pub min_block_size : BlockSortedIndex → ℕ
min_block_size index = index.target_block_size / 2

abbrev pub max_block_size : BlockSortedIndex → ℕ
max_block_size index = index.target_block_size * 2

-- The loop of the constructor: each round takes a block off what is left.
unfoldable pub cut_blocks : ℕ → ℕ → List StableKey → List (List StableKey)
cut_blocks zero target sorted = []
cut_blocks (suc fuel) target [] = []
cut_blocks (suc fuel) target (id ∷ ids) =
    take target (id ∷ ids) ∷ cut_blocks fuel target (drop target (id ∷ ids))

abbrev pub split_over :
    ℕ → List (List StableKey) → ℕ → Option (List StableKey) → List (List StableKey)
split_over most blocks block_index none = blocks
split_over most blocks block_index (some block) =
    if leb (length block) most
    then blocks
    else insert_at (set blocks block_index (take (length block / 2) block)) (block_index + 1)
        (drop (length block / 2) block)

unfoldable pub split_if_needed : ℕ → List (List StableKey) → ℕ → List (List StableKey)
split_if_needed most blocks block_index =
    split_over most blocks block_index (get_elem? blocks block_index)

-- `this.#blocks[index]`, where `index` may be -1
abbrev pub previous_of : List (List StableKey) → ℕ → Option (List StableKey)
previous_of blocks zero = none
previous_of blocks (suc index) = get_elem? blocks index

-- Joins the block with the previous one, if both fit.
abbrev pub join_previous :
    ℕ → List (List StableKey) → ℕ → List StableKey → Option (List StableKey) → List (List StableKey)
join_previous most blocks block_index block none = blocks
join_previous most blocks block_index block (some previous) =
    if leb (length previous + length block) most
    then remove_at (set blocks (block_index - 1) (previous ++ block)) block_index
    else blocks

abbrev pub join_next :
    ℕ → List (List StableKey) → ℕ → List StableKey → Option (List StableKey) → List (List StableKey)
join_next most blocks block_index block none =
    join_previous most blocks block_index block (previous_of blocks block_index)
join_next most blocks block_index block (some next) =
    if leb (length block + length next) most
    then remove_at (set blocks block_index (block ++ next)) (block_index + 1)
    else join_previous most blocks block_index block (previous_of blocks block_index)

abbrev pub compact_block :
    ℕ → ℕ → List (List StableKey) → ℕ → Option (List StableKey) → List (List StableKey)
compact_block least most blocks block_index none = blocks
compact_block least most blocks block_index (some block) =
    if length block == 0
    then remove_at blocks block_index
    else if leb least (length block)
    then blocks
    else join_next most blocks block_index block (get_elem? blocks (block_index + 1))

unfoldable pub compact_if_needed : ℕ → ℕ → List (List StableKey) → ℕ → List (List StableKey)
compact_if_needed least most blocks block_index =
    compact_block least most blocks block_index (get_elem? blocks block_index)

-- The loop of `slice`.
unfoldable pub slice_blocks : ℕ → List (List StableKey) → ℕ → List StableKey → List StableKey
slice_blocks limit [] skipped result = result
slice_blocks limit (block ∷ blocks) skipped result =
    let passed = slice_blocks limit blocks (skipped - length block) result in
    let taken = result ++ slice block skipped (limit - length result) in
    let rest = slice_blocks limit blocks 0 taken in
    if leb (length block) skipped then passed else if leb limit (length taken) then taken else rest

unfoldable pub slice_of_blocks : BlockSortedIndex → ℕ → ℕ → List StableKey
unfolding slice_blocks
slice_of_blocks index offset limit =
    if limit == 0 || leb index.size offset then [] else slice_blocks limit index.blocks offset []

module _ (compare_ids : StableKey → StableKey → Ordering) where
  unfoldable pub new_block_index : List StableKey → ℕ → Bool → BlockSortedIndex
  unfolding cut_blocks normalized_block_size
  new_block_index ids block_size sorted_input =
      let target = normalized_block_size block_size in
      let sorted = if sorted_input then ids else stable_sort compare_ids ids in
      record {
        target_block_size = target;
        blocks = cut_blocks (length sorted) target sorted;
        size = length sorted;
      }

  -- `last(block)` comes after no `id`
  abbrev pub last_not_after : StableKey → Option (List StableKey) → Bool
  last_not_after id none = false
  last_not_after id (some block) = not_after compare_ids id (get_last? block)

  unfoldable pub insertion_block_index : List (List StableKey) → StableKey → ℕ
  insertion_block_index blocks id =
      min
        (search_loop (λ i. last_not_after id (get_elem? blocks i)) (length blocks) 0
          (length blocks))
        (length blocks - 1)

  abbrev pub insert_into :
      BlockSortedIndex → StableKey → ℕ → Option (List StableKey) → BlockSortedIndex
  insert_into index id block_index none = record index {
    blocks = index.blocks ++ (id ∷ []) ∷ [];
    size = index.size + 1;
  }
  insert_into index id block_index (some block) =
      let grown =
        set index.blocks block_index (insert_at block (insertion_index compare_ids block id) id) in
      record index {
        blocks = split_if_needed (max_block_size index) grown block_index;
        size = index.size + 1;
      }

  -- Into the blocks that are there, if any are.
  abbrev pub insert_among : BlockSortedIndex → StableKey → List (List StableKey) → BlockSortedIndex
  insert_among index id [] = record index { blocks = (id ∷ []) ∷ []; size = 1 }
  insert_among index id (first ∷ rest) =
      let block_index = insertion_block_index (first ∷ rest) id in
      insert_into index id block_index (get_elem? (first ∷ rest) block_index)

  unfoldable pub insert_in_blocks : BlockSortedIndex → StableKey → BlockSortedIndex
  unfolding insertion_index insertion_block_index split_if_needed
  insert_in_blocks index id = insert_among index id index.blocks

  -- `compareIds(lastId, id) < 0`
  abbrev pub is_before : StableKey → Option StableKey → Bool
  is_before id none = false
  is_before id (some at) = is_lt (compare_ids at id)

  abbrev pub last_before : StableKey → Option (List StableKey) → Bool
  last_before id none = false
  last_before id (some block) = is_before id (get_last? block)

  unfoldable pub first_block_with_last_at_least : List (List StableKey) → StableKey → ℕ
  first_block_with_last_at_least blocks id =
      search_loop (λ i. last_before id (get_elem? blocks i)) (length blocks) 0 (length blocks)

  -- One round of the loop of `locationOf`, over the result of the rounds that follow: `first` and `last`
  -- of the block, and where the id is in it.
  abbrev pub locate_in :
      StableKey
      → ℕ
      → Option StableKey
      → Option StableKey
      → Option ℕ
      → Option (ℕ × ℕ)
      → Option (ℕ × ℕ)
  locate_in id block_index none last exact next = next
  locate_in id block_index (some first) none exact next = next
  locate_in id block_index (some first) (some last) exact next =
      if is_gt (compare_ids first id)
      then none
      else if is_lt (compare_ids last id)
      then next
      else (elim exact [ none ↦ next | some index ↦ some (block_index, index) ])

  -- The loop, over the blocks from `block_index` on.
  unfoldable pub locate_from : List (List StableKey) → StableKey → ℕ → Option (ℕ × ℕ)
  unfolding index_of
  locate_from [] id block_index = none
  locate_from (block ∷ blocks) id block_index =
      locate_in id block_index (get_elem? block 0) (get_last? block) (index_of compare_ids block id)
        (locate_from blocks id (block_index + 1))

  unfoldable pub location_of : List (List StableKey) → StableKey → Option (ℕ × ℕ)
  unfolding first_block_with_last_at_least locate_from
  location_of blocks id =
      let start = first_block_with_last_at_least blocks id in
      locate_from (drop start blocks) id start

  abbrev pub remove_from : BlockSortedIndex → ℕ → ℕ → Option (List StableKey) → BlockSortedIndex
  remove_from index block_index at none = index
  remove_from index block_index at (some block) = record index {
    blocks =
        compact_if_needed (min_block_size index) (max_block_size index)
          (set index.blocks block_index (remove_at block at)) block_index;
    size = index.size - 1;
  }

  abbrev pub remove_located : BlockSortedIndex → Option (ℕ × ℕ) → BlockSortedIndex
  remove_located index none = index
  remove_located index (some (block_index, at)) =
      remove_from index block_index at (get_elem? index.blocks block_index)

  unfoldable pub remove_in_blocks : BlockSortedIndex → StableKey → BlockSortedIndex
  unfolding location_of compact_if_needed
  remove_in_blocks index id = remove_located index (location_of index.blocks id)

-- An index of either kind: the array of its ids, or its blocks.
pub data ActiveSortedIndex : Type 0 where
  in_array : List StableKey → ActiveSortedIndex
  in_blocks : BlockSortedIndex → ActiveSortedIndex

unfoldable pub size_of : ActiveSortedIndex → ℕ
size_of (in_array ids) = length ids
size_of (in_blocks index) = index.size

unfoldable pub estimated_size_bytes : ActiveSortedIndex → ℕ
unfolding estimate_active_sorted_index_bytes
estimated_size_bytes (in_array ids) =
    estimate_active_sorted_index_bytes (length ids) (some of_array) none
estimated_size_bytes (in_blocks index) =
    estimate_active_sorted_index_bytes index.size (some of_blocks) (some index.target_block_size)

unfoldable pub slice_index : ActiveSortedIndex → ℕ → ℕ → List StableKey
unfolding slice_of_blocks
slice_index (in_array ids) offset limit = slice ids offset limit
slice_index (in_blocks index) offset limit = slice_of_blocks index offset limit

-- An array without the id that was found, if one was.
abbrev pub remove_at_found : List StableKey → Option ℕ → List StableKey
remove_at_found ids none = ids
remove_at_found ids (some index) = remove_at ids index

module _ (compare_ids : StableKey → StableKey → Ordering) where
  unfoldable pub make_active_sorted_index :
      List StableKey → ActiveSortedIndexKind → Option ℕ → ActiveSortedIndex
  unfolding new_block_index
  make_active_sorted_index ids of_blocks block_size =
      in_blocks (new_block_index compare_ids ids (size_option block_size) false)
  make_active_sorted_index ids of_array block_size = in_array (stable_sort compare_ids ids)

  unfoldable pub make_active_sorted_index_from_sorted_ids :
      List StableKey → ActiveSortedIndexKind → Option ℕ → ActiveSortedIndex
  unfolding new_block_index
  make_active_sorted_index_from_sorted_ids ids of_blocks block_size =
      in_blocks (new_block_index compare_ids ids (size_option block_size) true)
  make_active_sorted_index_from_sorted_ids ids of_array block_size = in_array ids

  unfoldable pub insert_id : ActiveSortedIndex → StableKey → ActiveSortedIndex
  unfolding insert_in_blocks insertion_index
  insert_id (in_array ids) id = in_array (insert_at ids (insertion_index compare_ids ids id) id)
  insert_id (in_blocks index) id = in_blocks (insert_in_blocks compare_ids index id)

  unfoldable pub remove_id : ActiveSortedIndex → StableKey → ActiveSortedIndex
  unfolding remove_in_blocks index_of
  remove_id (in_array ids) id = in_array (remove_at_found ids (index_of compare_ids ids id))
  remove_id (in_blocks index) id = in_blocks (remove_in_blocks compare_ids index id)
