-- ===== src/Client/VisibleRows/Treed.antt =====
-- client/visible-rows.ts: the operations of a large delta on the tree, and the choice between the two
-- ways (`applyDeltaOperations`). `row_key` is the function that the code takes.
use view_server.Prelude.{
  ℕ, ◌+◌, Bool, ◌&&◌, Option, none, some, List, [], ◌∷◌, ◌++◌, leb, if◌then◌else◌, length,
  get_elem?, set,
}
use view_server.Protocol.Value.{Number, Row}
use view_server.Protocol.StableKey.{StableKey, KeyMap, empty_map, map_set, map_delete}
use view_server.Protocol.Delta.{DeltaOperation, upsert, patch, remove}
use view_server.Client.VisibleRows.{
  is_some, or_default, normalize_index, assign, apply_delta_operations_sequentially,
}
use view_server.Client.VisibleRows.DeltaTree.{
  DeltaTreeNode, DeltaTree, empty, tree_size, priority_for_index, merge_trees, single,
  insert_tree_node, remove_tree_node, tree_rank, flatten_tree,
}

-- The nodes that were made, the tree of those that are linked, and the map of nodes by key.
pub record DeltaTreeIndex : Type 0 where
  pub nodes : List DeltaTreeNode
  pub root : DeltaTree
  pub nodes_by_key : KeyMap ℕ
  pub next_priority : ℕ

abbrev pub priority_of : List DeltaTreeNode → ℕ → ℕ
priority_of nodes id = read_priority (get_elem? nodes id)
  where
    read_priority : Option DeltaTreeNode → ℕ
    read_priority none = 0
    read_priority (some node) = node.priority

-- `node.row = row`
abbrev write_row : List DeltaTreeNode → ℕ → Option DeltaTreeNode → Row → List DeltaTreeNode
write_row nodes id none row = nodes
write_row nodes id (some node) row = set nodes id (record node { row = row })

abbrev pub push_row : Option DeltaTreeNode → List Row → List Row
push_row none rows = rows
push_row (some node) rows = node.row ∷ rows

-- The rows of nodes, in their order.
unfoldable pub rows_of_nodes : List DeltaTreeNode → List ℕ → List Row
rows_of_nodes nodes [] = []
rows_of_nodes nodes (id ∷ ids) = push_row (get_elem? nodes id) (rows_of_nodes nodes ids)

unfoldable pub should_use_indexed_tree : ℕ → ℕ → Bool
should_use_indexed_tree row_count operation_count = leb 1000 row_count && leb 32 operation_count

module _ (row_key : Row → StableKey) where
  -- The loop of `buildDeltaTree`; the next node is the one of the row at `index`.
  unfoldable pub build_from : DeltaTreeIndex → ℕ → List Row → DeltaTreeIndex
  unfolding merge_trees priority_for_index
  build_from s index [] = s
  build_from s index (row ∷ rows) =
      let nodes = s.nodes ++ record { row = row; priority = priority_for_index index } ∷ [] in
      let known = is_some (s.nodes_by_key (row_key row)) in
      build_from
        (record s {
          nodes = nodes;
          nodes_by_key =
              if known
              then s.nodes_by_key
              else map_set s.nodes_by_key (row_key row) (length s.nodes);
          root =
              merge_trees (priority_of nodes) s.root (single (priority_of nodes) (length s.nodes));
        })
        (index + 1) rows

  unfoldable pub build_delta_tree : List Row → DeltaTreeIndex
  unfolding build_from
  build_delta_tree rows =
      build_from
        (record {
          nodes = [];
          root = empty;
          nodes_by_key = empty_map;
          next_priority = length rows + 1;
        })
        0 rows

  -- Takes a node out of the tree, and its key out of the map.
  abbrev unlink : DeltaTreeIndex → StableKey → ℕ → DeltaTreeIndex
  unlink s key node = record s {
    root = remove_tree_node (priority_of s.nodes) s.root (tree_rank s.root node);
    nodes_by_key = map_delete s.nodes_by_key key;
  }

  -- Writes the row of an unlinked node, and links it at an index.
  abbrev link : DeltaTreeIndex → ℕ → Row → Option Number → ℕ → DeltaTreeIndex
  link s node row to fallback = record s {
    nodes = write_row s.nodes node (get_elem? s.nodes node) row;
    root =
        insert_tree_node (priority_of s.nodes) s.root
          (normalize_index to (tree_size s.root) fallback) node;
    nodes_by_key = map_set s.nodes_by_key (row_key row) node;
  }

  abbrev remove_node : DeltaTreeIndex → StableKey → Option ℕ → DeltaTreeIndex
  remove_node s key none = s
  remove_node s key (some node) = unlink s key node

  abbrev row_of : Option DeltaTreeNode → Row
  row_of none = []
  row_of (some node) = node.row

  abbrev patch_node : DeltaTreeIndex → StableKey → Row → Option Number → Option ℕ → DeltaTreeIndex
  patch_node s key changes to none = s
  patch_node s key changes to (some node) =
      link (unlink s key node) node (assign (row_of (get_elem? s.nodes node)) changes) to
        (tree_rank s.root node)

  abbrev upsert_node : DeltaTreeIndex → StableKey → Row → Option Number → Option ℕ → DeltaTreeIndex
  upsert_node s key row to none =
      let made : DeltaTreeNode = record {
        row = row;
        priority = priority_for_index s.next_priority;
      } in
      link (record s { nodes = s.nodes ++ made ∷ []; next_priority = s.next_priority + 1 })
        (length s.nodes) row to (tree_size s.root)
  upsert_node s key row to (some existing) =
      link (unlink s key existing) existing row to (tree_rank s.root existing)

  unfoldable pub apply_tree_operation : DeltaTreeIndex → DeltaOperation → DeltaTreeIndex
  unfolding remove_tree_node insert_tree_node tree_rank tree_size
  apply_tree_operation s (remove key) = remove_node s key (s.nodes_by_key key)
  apply_tree_operation s (patch key changes to) = patch_node s key changes to (s.nodes_by_key key)
  apply_tree_operation s (upsert row key to) =
      let k = or_default key (row_key row) in upsert_node s k row to (s.nodes_by_key k)

  unfoldable pub apply_tree_operations : DeltaTreeIndex → List DeltaOperation → DeltaTreeIndex
  unfolding apply_tree_operation
  apply_tree_operations s [] = s
  apply_tree_operations s (operation ∷ operations) =
      apply_tree_operations (apply_tree_operation s operation) operations

  unfoldable pub apply_delta_operations_with_tree : List Row → List DeltaOperation → List Row
  unfolding apply_tree_operations build_delta_tree flatten_tree rows_of_nodes
  apply_delta_operations_with_tree rows operations =
      let index = apply_tree_operations (build_delta_tree rows) operations in
      rows_of_nodes index.nodes (flatten_tree index.root)

  unfoldable pub apply_delta_operations : List Row → List DeltaOperation → List Row
  unfolding apply_delta_operations_with_tree apply_delta_operations_sequentially
  apply_delta_operations rows operations =
      if should_use_indexed_tree (length rows) (length operations)
      then apply_delta_operations_with_tree rows operations
      else apply_delta_operations_sequentially row_key rows operations
