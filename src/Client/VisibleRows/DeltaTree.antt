-- ===== src/Client/VisibleRows/DeltaTree.antt =====
-- client/visible-rows.ts: large deltas are applied to a tree with random priorities that has the rows in
-- order (`applyDeltaOperationsWithTree`). The nodes are objects: their rows and priorities stand in a
-- list, a node is its index in it, and the tree says how nodes are linked. A node's parents are the path
-- to it from the root.
use Prim.Native.Nat.{bit_xor}
use view_server.Prelude.{
  ℕ, zero, suc, ◌+◌, ◌-◌, ◌*◌, ◌/◌, ◌%◌, ◌^◌, Option, none, some, List, [], ◌∷◌, leb, ◌==◌,
  if◌then◌else◌,
}
use view_server.Protocol.Value.{Row}

-- What does not change as a node moves, but for the row, which operations write.
pub record DeltaTreeNode : Type 0 where
  pub row : Row
  pub priority : ℕ

-- A node with what is left and right of it, and its cached size.
pub data DeltaTree : Type 0 where
  empty : DeltaTree
  branch : DeltaTree → ℕ → ℕ → DeltaTree → DeltaTree

-- `Math.imul` on the 32 bits as an unsigned number
abbrev imul : ℕ → ℕ → ℕ
imul a b = (a * b) % 2 ^ 32

unfoldable pub priority_for_index : ℕ → ℕ
priority_for_index index =
    let first = imul (index + 1) 2654435761 in
    let mixed = imul (bit_xor first (first / 2 ^ 16)) 2246822519 in bit_xor mixed (mixed / 2 ^ 13)

unfoldable pub tree_size : DeltaTree → ℕ
tree_size empty = 0
tree_size (branch left id size right) = size

-- `setTreeLeft` and `setTreeRight`, with the size that they refresh
unfoldable pub linked : DeltaTree → ℕ → DeltaTree → DeltaTree
unfolding tree_size
linked left id right = branch left id (tree_size left + tree_size right + 1) right

unfoldable pub split_tree : DeltaTree → ℕ → DeltaTree × DeltaTree
unfolding linked
split_tree empty count = (empty, empty)
split_tree (branch left id size right) count =
    let in_left = split_tree left count in
    let in_right = split_tree right (count - tree_size left - 1) in
    if leb count (tree_size left)
    then (in_left.0, linked in_left.1 id right)
    else (linked left id in_right.0, in_right.1)

module _ (priority_of : ℕ → ℕ) where
  -- `mergeTrees(left, right)` where `left` is the branch of these parts; `rest` merges what is right of it.
  unfoldable pub merge_into :
      (DeltaTree → DeltaTree) → DeltaTree → ℕ → ℕ → DeltaTree → DeltaTree → DeltaTree
  unfolding linked
  merge_into rest left id size right empty = branch left id size right
  merge_into rest left id size right (branch left' id' size' right') =
      let below = merge_into rest left id size right left' in
      if leb (priority_of id) (priority_of id')
      then linked left id (rest (branch left' id' size' right'))
      else linked below id' right'

  unfoldable pub merge_trees : DeltaTree → DeltaTree → DeltaTree
  unfolding merge_into
  merge_trees empty other = other
  merge_trees (branch left id size right) other =
      merge_into (λ t. merge_trees right t) left id size right other

  -- A node alone in its tree, as `resetTreeNode` leaves it.
  abbrev pub single : ℕ → DeltaTree
  single id = branch empty id 1 empty

  unfoldable pub insert_tree_node : DeltaTree → ℕ → ℕ → DeltaTree
  unfolding split_tree merge_trees
  insert_tree_node root index id =
      let (before, after) = split_tree root index in
      merge_trees (merge_trees before (single id)) after

  -- Takes out the node at this rank.
  unfoldable pub remove_tree_node : DeltaTree → ℕ → DeltaTree
  unfolding split_tree merge_trees
  remove_tree_node root rank =
      let (before, from_node) = split_tree root rank in
      let (removed, after) = split_tree from_node 1 in merge_trees before after

-- The rank of a node, summed on the path to it; none where it is not in this tree.
unfoldable pub rank_in : DeltaTree → ℕ → Option ℕ
rank_in empty node = none
rank_in (branch left id size right) node =
    let in_left = rank_in left node in
    let in_right = rank_in right node in
    if id == node then some (tree_size left) else (elim in_left [
      | some rank ↦ some rank
      | none ↦ elim in_right [ some rank ↦ some (rank + (tree_size left + 1)) | none ↦ none ]
    ])

-- A node that is in no tree has no parent and nothing left of it.
unfoldable pub tree_rank : DeltaTree → ℕ → ℕ
unfolding rank_in
tree_rank root node = or_rank (rank_in root node)
  where
    or_rank : Option ℕ → ℕ
    or_rank none = 0
    or_rank (some rank) = rank

-- The stack after the inner loop of `flattenTree`, which goes left from `current`.
unfoldable pub push_left : DeltaTree → List DeltaTree → List DeltaTree
push_left empty stack = stack
push_left (branch left id size right) stack = push_left left (branch left id size right ∷ stack)

-- The outer loop, from the stack after the inner one: each round pops a node.
unfoldable pub flatten_loop : ℕ → List DeltaTree → List ℕ
unfolding push_left
flatten_loop zero stack = []
flatten_loop (suc fuel) [] = []
flatten_loop (suc fuel) (empty ∷ stack) = flatten_loop fuel stack
flatten_loop (suc fuel) (branch left id size right ∷ stack) =
    id ∷ flatten_loop fuel (push_left right stack)

abbrev pub node_count : DeltaTree → ℕ
node_count empty = 0
node_count (branch left id size right) = node_count left + suc (node_count right)

unfoldable pub flatten_tree : DeltaTree → List ℕ
unfolding flatten_loop
flatten_tree root = flatten_loop (node_count root) (push_left root [])
