-- ===== src/Tests/Deltas.antt =====
-- Deltas between small lists of rows.
use view_server.Prelude.{ℕ, ◌≡◌, refl, some, List, [], ◌∷◌, ℕ_discrete, insert_at, remove_at, All}
use view_server.Protocol.Value.{Row, number, read, keys, materialize_query_value, Value-discrete}
use view_server.Protocol.StableKey.{
  StableKey, num, map_key, StableKey-discrete, map_set, map_delete,
}
use view_server.Protocol.Delta.{DeltaOperation, upsert, remove}
use view_server.Worker.MutationStore.{set_of}
use view_server.Worker.Projection.{projected_rows_equal}
use view_server.Protocol.QuerySemantics.{values_equal}
use view_server.Worker.QueryEngine.Diff.{whole, diff_visible_rows}
use view_server.Worker.QueryEngine.DiffRoundTrip.{diff_visible_rows-reproduces, AllShow, Uncrossed}
use view_server.Client.VisibleRows.{normalize_index, apply_delta_operations_sequentially}
use view_server.Client.VisibleRows.Reference.{reference_operations, find}
use view_server.Client.VisibleRows.Positions.{Distinct}
use view_server.Client.VisibleRows.Sequential.{Keyed, apply_delta_operations_sequentially-reference}
use view_server.Client.VisibleRows.DeltaTree.{
  DeltaTree, empty, branch, insert_tree_node, remove_tree_node,
}
use view_server.Client.VisibleRows.TreeOrder.{in_order, IsSized, tree_node-IsSized}
use view_server.Client.VisibleRows.Treed.{build_delta_tree, apply_delta_operations_with_tree}
use view_server.Client.VisibleRows.TreeBuilt.{build_delta_tree-IsSized}
use view_server.Tests.Window.{host}

-- A row's key is its first value.
abbrev key_of : Row → StableKey
key_of ((field, number n) ∷ fields) = num n
key_of _ = num (whole 0)

abbrev row : ℕ → ℕ → Row
row id v = ("id", number (whole id)) ∷ ("v", number (whole v)) ∷ []

abbrev before : List Row
before = row 1 5 ∷ row 2 5 ∷ row 3 5 ∷ []

abbrev after : List Row
after = row 1 5 ∷ row 3 6 ∷ row 4 5 ∷ []

before-Distinct : Distinct key_of before
unfolding find map_key StableKey-discrete ℕ_discrete
before-Distinct = (refl, (refl, (refl, tt)))

after-Distinct : Distinct key_of after
unfolding find map_key StableKey-discrete ℕ_discrete
after-Distinct = (refl, (refl, (refl, tt)))

abbrev delta : List DeltaOperation
delta =
    remove (num (whole 2))
    ∷ upsert (row 3 6) (some (num (whole 3))) (some (whole 1))
    ∷ upsert (row 4 5) (some (num (whole 4))) (some (whole 2))
    ∷ []

diff_visible_rows_example : diff_visible_rows host key_of before after ≡ delta
unfolding diff_visible_rows projected_rows_equal StableKey-discrete map_key read map_set ℕ_discrete
    set_of keys values_equal materialize_query_value Value-discrete
diff_visible_rows_example = refl

after-Uncrossed : Uncrossed host key_of before 0 after
unfolding find map_key StableKey-discrete ℕ_discrete
after-Uncrossed =
    (λ p stands same equal. refl, (λ p stands same equal. refl, (λ p stands same equal. refl, tt)))

diff_visible_rows-reproduces_example :
    AllShow host key_of
      (apply_delta_operations_sequentially key_of before
        (diff_visible_rows host key_of before after))
      after
diff_visible_rows-reproduces_example =
    diff_visible_rows-reproduces host key_of before after before-Distinct after-Distinct
      after-Uncrossed

delta-Keyed : All (Keyed key_of) delta
delta-Keyed = (tt, (refl, (refl, tt)))

apply_delta_operations_sequentially-reference_example :
    (apply_delta_operations_sequentially key_of before delta
      ≡ reference_operations key_of before delta)
    × Distinct key_of (apply_delta_operations_sequentially key_of before delta)
apply_delta_operations_sequentially-reference_example =
    apply_delta_operations_sequentially-reference key_of before delta before-Distinct delta-Keyed

-- The second row keeps its place while the first and the last change theirs, and the third changes:
-- the client ends with the second and the third row exchanged.
abbrev swapped_from : List Row
swapped_from = row 1 5 ∷ row 2 5 ∷ row 3 5 ∷ row 4 5 ∷ []

abbrev swapped_to : List Row
swapped_to = row 4 5 ∷ row 2 5 ∷ row 3 6 ∷ row 1 5 ∷ []

diff_visible_rows_crossed :
    apply_delta_operations_sequentially key_of swapped_from
      (diff_visible_rows host key_of swapped_from swapped_to)
    ≡ row 4 5 ∷ row 3 6 ∷ row 2 5 ∷ row 1 5 ∷ []
unfolding diff_visible_rows projected_rows_equal StableKey-discrete map_key read map_set ℕ_discrete
    set_of keys values_equal materialize_query_value Value-discrete
    apply_delta_operations_sequentially normalize_index map_delete
diff_visible_rows_crossed = refl

-- A tree of two nodes, where a third one goes between them.
abbrev pair : DeltaTree
pair = branch (branch empty 0 1 empty) 1 2 empty

tree_node-IsSized_example :
    (in_order (insert_tree_node (λ id. id) pair 1 2) ≡ insert_at (in_order pair) 1 2)
    × IsSized (insert_tree_node (λ id. id) pair 1 2)
    × (in_order (remove_tree_node (λ id. id) pair 1) ≡ remove_at (in_order pair) 1)
    × IsSized (remove_tree_node (λ id. id) pair 1)
tree_node-IsSized_example = tree_node-IsSized (λ id. id) pair 1 2 (refl, (refl, tt, tt), tt)

build_delta_tree-IsSized_example :
    IsSized (build_delta_tree key_of before).root
    × (apply_delta_operations_with_tree key_of before [] ≡ before)
build_delta_tree-IsSized_example = build_delta_tree-IsSized key_of before

-- The tree does with a delta what the array does.
with_tree_agrees :
    apply_delta_operations_with_tree key_of before delta
    ≡ apply_delta_operations_sequentially key_of before delta
unfolding apply_delta_operations_with_tree apply_delta_operations_sequentially normalize_index
    map_set StableKey-discrete map_key ℕ_discrete map_delete
with_tree_agrees = refl
