-- ===== src/Worker/ActiveSortedIndex/Made.antt =====
-- A new index of either kind.
use Prim.Native.Nat.{Ordering, compare}
use view_server.Prelude.{
  ℕ, zero, suc, ◌*◌, ◌<◌, max, ◌≡◌, refl, sym, ap, Bool, true, false, Option, List, [], ◌∷◌, arith,
  if◌then◌else◌, length, drop, All, length-take,
}
use mathlib.Core.Path.{subst}
use view_server.Protocol.StableKey.{StableKey}
use view_server.Ordered.{stable_sort, sort_into, insert_ordered, Sorted}
use view_server.Ordered.Search.{Sorted-insert_ordered}
use view_server.Worker.ActiveSortedIndex.{
  ActiveSortedIndexKind, of_array, of_blocks, in_blocks, cut_blocks, normalized_block_size,
  new_block_index, size_option, make_active_sorted_index, make_active_sorted_index_from_sorted_ids,
}
use view_server.Worker.ActiveSortedIndex.Slices.{concat, contents, cut_blocks_lem}
use view_server.Worker.ActiveSortedIndex.Inserted.{All-always}
use view_server.Worker.ActiveSortedIndex.Inserts.{Fits, IsIndex}

cut_blocks-Fits :
    (fuel target : ℕ) (ids : List StableKey)
    → 0 < target
    → All (Fits (target * 2)) (cut_blocks fuel target ids)
unfolding cut_blocks
cut_blocks-Fits zero target ids p = tt
cut_blocks-Fits (suc fuel) target [] p = tt
cut_blocks-Fits (suc fuel) target (id ∷ ids) p =
    let size = length-take target (id ∷ ids) in
    (
      (omega (arith, size), omega (arith, size)),
      cut_blocks-Fits fuel target (drop target (id ∷ ids)) p,
    )

module _ (compare_ids : StableKey → StableKey → Ordering) (rank : StableKey → ℕ)
    (agree : (a b : StableKey) → compare_ids a b ≡ compare (rank a) (rank b)) where
  sort_into-Sorted :
      (sorted ids : List StableKey)
      → Sorted rank sorted
      → Sorted rank (sort_into compare_ids sorted ids)
  unfolding sort_into
  sort_into-Sorted sorted [] s = s
  sort_into-Sorted sorted (id ∷ ids) s =
      sort_into-Sorted (insert_ordered compare_ids sorted id) ids (
        Sorted-insert_ordered compare_ids rank (λ a. Unit {0}) (λ a b u v. agree a b) sorted id tt
          (All-always compare_ids rank agree sorted) s)

  new_block_index-IsIndex :
      (ids : List StableKey) (block_size : ℕ) (sorted_input : Bool)
      → let sorted = if sorted_input then ids else stable_sort compare_ids ids in
        Sorted rank sorted
        → let index = in_blocks (new_block_index compare_ids ids block_size sorted_input) in
          (contents index ≡ sorted) × IsIndex compare_ids rank agree index
  unfolding new_block_index normalized_block_size
  new_block_index-IsIndex ids block_size sorted_input s =
      let sorted = if sorted_input then ids else stable_sort compare_ids ids in
      let target = max 32 block_size in
      let same : concat (cut_blocks (length sorted) target sorted) ≡ sorted =
        cut_blocks_lem (length sorted) target sorted (omega arith) (omega arith) in
      (
        same,
        (
          subst (Sorted rank) (sym same) s,
          ap length (sym same),
          omega arith,
          cut_blocks-Fits (length sorted) target sorted (omega arith),
        ),
      )

-- With a comparison that is total and that of some rank (no id is unknown to it, and no order value is
-- NaN): a new index of either kind is well-formed and holds the
-- stable sort of the ids.
pub make_active_sorted_index-IsIndex :
    (compare_ids : StableKey → StableKey → Ordering) (rank : StableKey → ℕ)
    (agree : (a b : StableKey) → compare_ids a b ≡ compare (rank a) (rank b)) (ids : List StableKey)
    (kind : ActiveSortedIndexKind) (block_size : Option ℕ)
    → let made = make_active_sorted_index compare_ids ids kind block_size in
      (contents made ≡ stable_sort compare_ids ids) × IsIndex compare_ids rank agree made
unfolding make_active_sorted_index
make_active_sorted_index-IsIndex compare_ids rank agree ids of_array block_size =
    (refl, sort_into-Sorted compare_ids rank agree [] ids tt)
make_active_sorted_index-IsIndex compare_ids rank agree ids of_blocks block_size =
    new_block_index-IsIndex compare_ids rank agree ids (size_option block_size) false
      (sort_into-Sorted compare_ids rank agree [] ids tt)

-- One that is made from ids in order holds these.
pub make_active_sorted_index_from_sorted_ids-IsIndex :
    (compare_ids : StableKey → StableKey → Ordering) (rank : StableKey → ℕ)
    (agree : (a b : StableKey) → compare_ids a b ≡ compare (rank a) (rank b)) (ids : List StableKey)
    (kind : ActiveSortedIndexKind) (block_size : Option ℕ)
    → Sorted rank ids
    → let made = make_active_sorted_index_from_sorted_ids compare_ids ids kind block_size in
      (contents made ≡ ids) × IsIndex compare_ids rank agree made
unfolding make_active_sorted_index_from_sorted_ids
make_active_sorted_index_from_sorted_ids-IsIndex compare_ids rank agree ids of_array block_size s =
    (refl, s)
make_active_sorted_index_from_sorted_ids-IsIndex compare_ids rank agree ids of_blocks block_size s =
    new_block_index-IsIndex compare_ids rank agree ids (size_option block_size) true s
