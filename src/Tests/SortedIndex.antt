-- ===== src/Tests/SortedIndex.antt =====
-- A small index of numbers in blocks.
use Prim.Native.Nat.{Ordering, compare}
use view_server.Prelude.{ℕ, ◌≡◌, refl, false, none, [], ◌∷◌, arith, ℕ_discrete, slice}
use view_server.Protocol.Value.{finite}
use view_server.Protocol.StableKey.{StableKey, num, StableKey-discrete, stable_key_equals}
use view_server.Ordered.{search_loop, insert_ordered, stable_sort}
use view_server.Worker.ActiveSortedIndex.{
  BlockSortedIndex, of_blocks, in_blocks, make_active_sorted_index, insert_id, remove_id,
  remove_in_blocks, slice_index,
}
use view_server.Worker.ActiveSortedIndex.Slices.{contents, slice_index_lem}
use view_server.Worker.ActiveSortedIndex.Inserts.{IsIndex, insert_id_lem}
use view_server.Worker.ActiveSortedIndex.Made.{make_active_sorted_index-IsIndex}
use view_server.Worker.ActiveSortedIndex.Removes.{Without, remove_id_lem}

abbrev rank : StableKey → ℕ
rank (num (finite minus n)) = n
rank _ = 0

abbrev by_rank : StableKey → StableKey → Ordering
by_rank a b = compare (rank a) (rank b)

agree : (a b : StableKey) → by_rank a b ≡ compare (rank a) (rank b)
agree a b = refl

abbrev key : ℕ → StableKey
key n = num (finite false n)

abbrev index : BlockSortedIndex
index = record {
  target_block_size = 2;
  blocks = (key 1 ∷ key 3 ∷ []) ∷ (key 5 ∷ []) ∷ [];
  size = 3;
}

index-IsIndex : IsIndex by_rank rank agree (in_blocks index)
index-IsIndex = (
  ((omega arith, (omega arith, tt)), ((omega arith, tt), (tt, tt))),
  refl,
  omega arith,
  ((omega arith, omega arith), ((omega arith, omega arith), tt)),
)

insert_id_lem_example :
    (contents (insert_id by_rank (in_blocks index) (key 4))
      ≡ insert_ordered by_rank (contents (in_blocks index)) (key 4))
    × IsIndex by_rank rank agree (insert_id by_rank (in_blocks index) (key 4))
insert_id_lem_example = insert_id_lem by_rank rank agree (in_blocks index) (key 4) index-IsIndex

remove_id_lem_example :
    Without by_rank rank agree
      (key 3)
      (contents (in_blocks index))
      (contents (remove_id by_rank (in_blocks index) (key 3)))
    × IsIndex by_rank rank agree (remove_id by_rank (in_blocks index) (key 3))
remove_id_lem_example = remove_id_lem by_rank rank agree (in_blocks index) (key 3) index-IsIndex

slice_index_lem_example : slice_index (in_blocks index) 1 2 ≡ slice (contents (in_blocks index)) 1 2
slice_index_lem_example = slice_index_lem (in_blocks index) 1 2 refl

make_active_sorted_index-IsIndex_example :
    let ids = key 2 ∷ key 1 ∷ [] in
    let made = make_active_sorted_index by_rank ids of_blocks none in
    (contents made ≡ stable_sort by_rank ids) × IsIndex by_rank rank agree made
make_active_sorted_index-IsIndex_example =
    make_active_sorted_index-IsIndex by_rank rank agree (key 2 ∷ key 1 ∷ []) of_blocks none

-- The slice runs over the end of the first block.
slice_of_two_blocks : slice_index (in_blocks index) 1 2 ≡ key 3 ∷ key 5 ∷ []
unfolding slice_index
slice_of_two_blocks = refl

-- A block that is left empty goes.
removal_of_a_block :
    remove_id by_rank (in_blocks index) (key 5)
    ≡ in_blocks (record { target_block_size = 2; blocks = (key 1 ∷ key 3 ∷ []) ∷ []; size = 2 })
unfolding remove_id remove_in_blocks stable_key_equals StableKey-discrete ℕ_discrete search_loop
removal_of_a_block = refl
