-- ===== src/Client/VisibleRows/TreeBuilt.antt =====
-- The tree that is built from rows.
use view_server.Prelude.{
  ℕ, zero, suc, ◌+◌, ◌≡◌, refl, sym, ap, ap₂, ◌∙◌, List, [], ◌∷◌, ◌++◌, map, append-nil,
  append_assoc, arith, length, length-append, get_elem?-between,
}
use view_server.Protocol.Value.{Row}
use view_server.Worker.FanoutQueue.Queued.{map-append}
use view_server.Protocol.StableKey.{StableKey, empty_map}
use view_server.Client.VisibleRows.DeltaTree.{
  DeltaTreeNode, empty, priority_for_index, single, merge_trees,
}
use view_server.Client.VisibleRows.TreeOrder.{in_order, IsSized, merge_trees_lem, flatten_tree_lem}
use view_server.Client.VisibleRows.Treed.{
  DeltaTreeIndex, priority_of, rows_of_nodes, build_from, build_delta_tree,
  apply_delta_operations_with_tree, apply_tree_operations,
}

-- `count` nodes from `first` on
abbrev nodes_from : ℕ → ℕ → List ℕ
nodes_from first zero = []
nodes_from first (suc count) = first ∷ nodes_from (first + 1) count

nodes_from-last :
    (first count : ℕ)
    → nodes_from first count ++ (first + count) ∷ [] ≡ nodes_from first (suc count)
nodes_from-last first zero = ap (λ n. n ∷ []) {x = first + 0} (omega arith)
nodes_from-last first (suc count) =
    ap (λ n. first ∷ (nodes_from (first + 1) count ++ n ∷ [])) {y = (first + 1) + count}
      (omega arith)
    ∙ ap (◌∷◌ first) (nodes_from-last (first + 1) count)

rows_of_nodes-all :
    (before after : List DeltaTreeNode)
    → rows_of_nodes (before ++ after) (nodes_from (length before) (length after))
      ≡ map (λ node. node.row) after
unfolding rows_of_nodes
rows_of_nodes-all before [] = refl
rows_of_nodes-all before (node ∷ after) =
    let next = rows_of_nodes-all (before ++ node ∷ []) after in
    let moved : rows_of_nodes (before ++ node ∷ after)
          (nodes_from (length before + 1) (length after))
        ≡ map (λ node. node.row) after =
      ap₂ (λ l n. rows_of_nodes l (nodes_from n (length after)))
        (sym (append_assoc before (node ∷ []) after)) (sym (length-append before (node ∷ [])))
      ∙ next in
    rw (get_elem?-between before after node) (ap (◌∷◌ node.row) moved)

module _ (row_key : Row → StableKey) where
  build_from_lem :
      (rows : List Row) (s : DeltaTreeIndex) (index : ℕ)
      → IsSized s.root
      → in_order s.root ≡ nodes_from 0 (length s.nodes)
      → let built = build_from row_key s index rows in
        IsSized built.root
        × (in_order built.root ≡ nodes_from 0 (length built.nodes))
        × (map (λ node. node.row) built.nodes ≡ map (λ node. node.row) s.nodes ++ rows)
  unfolding build_from
  build_from_lem [] s index sized order = (sized, order, sym (append-nil _))
  build_from_lem (row ∷ rows) s index sized order =
      let node : DeltaTreeNode = record { row = row; priority = priority_for_index index } in
      let nodes = s.nodes ++ node ∷ [] in
      let (merged, merged_sized) =
        merge_trees_lem (priority_of nodes) s.root (single (priority_of nodes) (length s.nodes))
          sized (omega arith, tt, tt) in
      let next_order : in_order
            (merge_trees (priority_of nodes) s.root (single (priority_of nodes) (length s.nodes)))
          ≡ nodes_from 0 (length nodes) =
        merged
        ∙ ap (λ ids. ids ++ length s.nodes ∷ []) order
        ∙ ap (λ n. nodes_from 0 (length s.nodes) ++ n ∷ []) {y = 0 + length s.nodes} (omega arith)
        ∙ nodes_from-last 0 (length s.nodes)
        ∙ ap (nodes_from 0) {x = suc (length s.nodes)} {y = length nodes}
            (omega (arith, length-append s.nodes (node ∷ []))) in
      let (built_sized, built_order, built_rows) =
        build_from_lem rows _ (index + 1) merged_sized next_order in
      (
        built_sized,
        built_order,
        built_rows
            ∙ ap (λ l. l ++ rows) (map-append (λ (n : DeltaTreeNode). n.row) s.nodes (node ∷ []))
            ∙ append_assoc (map (λ n. n.row) s.nodes) (row ∷ []) rows,
      )

  -- Building the tree and flattening it gives the rows, in order, and its cached sizes are right.
  pub build_delta_tree-IsSized :
      (rows : List Row)
      → IsSized (build_delta_tree row_key rows).root
        × (apply_delta_operations_with_tree row_key rows [] ≡ rows)
  unfolding build_delta_tree apply_delta_operations_with_tree apply_tree_operations
  build_delta_tree-IsSized rows =
      let built = build_delta_tree row_key rows in
      let (sized, order, same) =
        build_from_lem rows
          (record {
            nodes = [];
            root = empty;
            nodes_by_key = empty_map;
            next_priority = length rows + 1;
          })
          0 tt refl in
      (
        sized,
        ap (rows_of_nodes built.nodes) (flatten_tree_lem built.root ∙ order)
            ∙ rows_of_nodes-all [] built.nodes
            ∙ same,
      )
