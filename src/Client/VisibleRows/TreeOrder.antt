-- ===== src/Client/VisibleRows/TreeOrder.antt =====
-- The nodes of a tree in order: what splitting, merging and flattening do to them.
use view_server.Prelude.{
  ℕ, zero, suc, ◌+◌, ◌-◌, ◌≤◌, ◌<◌, ◌≡◌, refl, sym, ap, ap₂, ◌∙◌, inl, inr, List, [], ◌∷◌, ◌++◌,
  append-nil, append_assoc, arith, leb, leb→le, leb→gt, Bool-cases, length, take, drop, insert_at,
  remove_at, length-append, drop_past, drop-append_left, take_whole, take-append_left,
}
use view_server.Client.VisibleRows.DeltaTree.{
  DeltaTree, empty, branch, tree_size, linked, split_tree, merge_into, merge_trees, single,
  insert_tree_node, remove_tree_node, push_left, flatten_loop, node_count, flatten_tree,
}

module _ {ℓ} {A : Type ℓ} where
  take_past_one :
      (count : ℕ) (xs : List A) (x : A) (ys : List A)
      → length xs < count
      → take count (xs ++ x ∷ ys) ≡ xs ++ x ∷ take (count - length xs - 1) ys
  take_past_one zero xs x ys h = absurd (omega arith)
  take_past_one (suc count) [] x ys h =
      ap (λ n. x ∷ take n ys) {x = count} {y = suc count - 0 - 1} (omega arith)
  take_past_one (suc count) (z ∷ xs) x ys h = ap (◌∷◌ z) (
      take_past_one count xs x ys (omega arith)
      ∙ ap (λ n. xs ++ x ∷ take n ys) {x = count - length xs - 1}
          {y = suc count - length (z ∷ xs) - 1} (omega arith))

  drop_past_one :
      (count : ℕ) (xs : List A) (x : A) (ys : List A)
      → length xs < count
      → drop count (xs ++ x ∷ ys) ≡ drop (count - length xs - 1) ys
  drop_past_one zero xs x ys h = absurd (omega arith)
  drop_past_one (suc count) [] x ys h =
      ap (λ n. drop n ys) {x = count} {y = suc count - 0 - 1} (omega arith)
  drop_past_one (suc count) (z ∷ xs) x ys h =
      drop_past_one count xs x ys (omega arith)
      ∙ ap (λ n. drop n ys) {x = count - length xs - 1} {y = suc count - length (z ∷ xs) - 1}
          (omega arith)

abbrev pub in_order : DeltaTree → List ℕ
in_order empty = []
in_order (branch left id size right) = in_order left ++ id ∷ in_order right

-- Every cached size is right.
abbrev pub IsSized : DeltaTree → Type 0
IsSized empty = Unit
IsSized (branch left id size right) =
    (size ≡ length (in_order left) + length (in_order right) + 1) × IsSized left × IsSized right

pub tree_size-length : (t : DeltaTree) → IsSized t → tree_size t ≡ length (in_order t)
unfolding tree_size
tree_size-length empty s = refl
tree_size-length (branch left id size right) (e, l, r) =
    omega (arith, e, length-append (in_order left) (id ∷ in_order right))

linked-IsSized :
    (left : DeltaTree) (id : ℕ) (right : DeltaTree)
    → IsSized left
    → IsSized right
    → (in_order (linked left id right) ≡ in_order left ++ id ∷ in_order right)
      × IsSized (linked left id right)
unfolding linked
linked-IsSized left id right l r =
    (refl, (omega (arith, tree_size-length left l, tree_size-length right r), l, r))

-- Splitting cuts the order at `count`.
pub split_tree_lem :
    (t : DeltaTree) (count : ℕ)
    → IsSized t
    → let (before, after) = split_tree t count in
      (in_order before ≡ take count (in_order t))
      × (in_order after ≡ drop count (in_order t))
      × IsSized before
      × IsSized after
unfolding split_tree
split_tree_lem empty count s =
    (sym (take_whole count [] (omega arith)), sym (drop_past count [] (omega arith)), tt, tt)
split_tree_lem (branch left id size right) count (e, l, r) =
    let cached = tree_size-length left l in
    elim (Bool-cases (leb count (tree_size left))) [
      | inl in_left ↦
          let (before, after, b, a) = split_tree_lem left count l in
          let within : count ≤ length (in_order left) = omega (arith, cached, leb→le _ _ in_left) in
          let (order, sized) = linked-IsSized (split_tree left count).1 id right a r in
          rw in_left (
            before ∙ sym (take-append_left count (in_order left) (id ∷ in_order right) within),
            order
                ∙ ap (λ l. l ++ id ∷ in_order right) after
                ∙ sym (drop-append_left count (in_order left) (id ∷ in_order right) within),
            b,
            sized,
          )
      | inr in_right ↦
          let rest = count - tree_size left - 1 in
          let (before, after, b, a) = split_tree_lem right rest r in
          let past : length (in_order left) < count = omega (arith, cached, leb→gt _ _ in_right) in
          let (order, sized) = linked-IsSized left id (split_tree right rest).0 l b in
          let same : rest ≡ count - length (in_order left) - 1 = omega (arith, cached) in
          rw in_right (
            order
                ∙ ap (λ l. in_order left ++ id ∷ l)
                    (before ∙ ap (λ n. take n (in_order right)) same)
                ∙ sym (take_past_one count (in_order left) id (in_order right) past),
            after
                ∙ ap (λ n. drop n (in_order right)) same
                ∙ sym (drop_past_one count (in_order left) id (in_order right) past),
            sized,
            a,
          )
    ]

-- Merging puts the second order after the first, whatever the priorities.
merge_into_lem :
    (priority_of : ℕ → ℕ) (rest : DeltaTree → DeltaTree) (left : DeltaTree) (id size : ℕ)
    (right other : DeltaTree)
    → ((t : DeltaTree)
        → IsSized t
        → (in_order (rest t) ≡ in_order right ++ in_order t) × IsSized (rest t))
    → IsSized (branch left id size right)
    → IsSized other
    → let merged = merge_into priority_of rest left id size right other in
      (in_order merged ≡ in_order (branch left id size right) ++ in_order other) × IsSized merged
unfolding merge_into
merge_into_lem priority_of rest left id size right empty h s t =
    (sym (append-nil (in_order left ++ id ∷ in_order right)), s)
merge_into_lem priority_of rest left id size right (branch left' id' size' right') h (e, l, r)
      (e', l', r') =
    elim (Bool-cases (leb (priority_of id) (priority_of id'))) [
      | inl under ↦
          let other = branch left' id' size' right' in
          let (order, sized) = h other (e', l', r') in
          let (whole_order, whole_sized) = linked-IsSized left id (rest other) l sized in
          rw under (
            whole_order
                ∙ ap (λ ids. in_order left ++ id ∷ ids) order
                ∙ sym (append_assoc (in_order left) (id ∷ in_order right) (in_order other)),
            whole_sized,
          )
      | inr over ↦
          let below = merge_into priority_of rest left id size right left' in
          let (order, sized) =
            merge_into_lem priority_of rest left id size right left' h (e, l, r) l' in
          let (whole_order, whole_sized) = linked-IsSized below id' right' sized r' in
          rw over (
            whole_order
                ∙ ap (λ ids. ids ++ id' ∷ in_order right') order
                ∙ append_assoc (in_order left ++ id ∷ in_order right) (in_order left')
                    (id' ∷ in_order right'),
            whole_sized,
          )
    ]

pub merge_trees_lem :
    (priority_of : ℕ → ℕ) (t u : DeltaTree)
    → IsSized t
    → IsSized u
    → (in_order (merge_trees priority_of t u) ≡ in_order t ++ in_order u)
      × IsSized (merge_trees priority_of t u)
unfolding merge_trees
merge_trees_lem priority_of empty u s v = (refl, v)
merge_trees_lem priority_of (branch left id size right) u (e, l, r) v =
    merge_into_lem priority_of (λ t. merge_trees priority_of right t) left id size right u
      (λ t s. merge_trees_lem priority_of right t r s) (e, l, r) v

module _ {ℓ} {A : Type ℓ} where
  insert_at-take : (xs : List A) (i : ℕ) (v : A) → take i xs ++ v ∷ drop i xs ≡ insert_at xs i v
  insert_at-take xs zero v = refl
  insert_at-take [] (suc i) v = refl
  insert_at-take (x ∷ xs) (suc i) v = ap (◌∷◌ x) (insert_at-take xs i v)

  remove_at-take : (xs : List A) (i : ℕ) → take i xs ++ drop 1 (drop i xs) ≡ remove_at xs i
  remove_at-take [] zero = refl
  remove_at-take [] (suc i) = refl
  remove_at-take (x ∷ xs) zero = refl
  remove_at-take (x ∷ xs) (suc i) = ap (◌∷◌ x) (remove_at-take xs i)

-- Where the cached sizes are right, inserting a node into the tree and removing the one at a rank do to
-- the order of the nodes what `splice` does to an array, whatever the priorities, and the cached sizes
-- stay right.
pub tree_node-IsSized :
    (priority_of : ℕ → ℕ) (root : DeltaTree) (index id : ℕ)
    → IsSized root
    → (in_order (insert_tree_node priority_of root index id) ≡ insert_at (in_order root) index id)
      × IsSized (insert_tree_node priority_of root index id)
      × (in_order (remove_tree_node priority_of root index) ≡ remove_at (in_order root) index)
      × IsSized (remove_tree_node priority_of root index)
unfolding insert_tree_node remove_tree_node
tree_node-IsSized priority_of root index id s =
    let (before, after, b, a) = split_tree_lem root index s in
    let first = (split_tree root index).0 in
    let second = (split_tree root index).1 in
    let (left_order, left_sized) =
      merge_trees_lem priority_of first (single priority_of id) b (omega arith, tt, tt) in
    let (grown_order, grown_sized) =
      merge_trees_lem priority_of (merge_trees priority_of first (single priority_of id)) second
        left_sized a in
    let (one, later, o, t) = split_tree_lem second 1 a in
    let (cut_order, cut_sized) = merge_trees_lem priority_of first (split_tree second 1).1 b t in
    (
      grown_order
          ∙ ap (λ ids. ids ++ in_order second) left_order
          ∙ append_assoc (in_order first) (id ∷ []) (in_order second)
          ∙ ap₂ (λ l r. l ++ id ∷ r) before after
          ∙ insert_at-take (in_order root) index id,
      grown_sized,
      cut_order
          ∙ ap₂ ◌++◌ before (later ∙ ap (drop 1) after)
          ∙ remove_at-take (in_order root) index,
      cut_sized,
    )

-- What a stack still has to give, and how many rounds that takes.
abbrev stacked : List DeltaTree → List ℕ
stacked [] = []
stacked (empty ∷ stack) = stacked stack
stacked (branch left id size right ∷ stack) = id ∷ in_order right ++ stacked stack

abbrev rounds : List DeltaTree → ℕ
rounds [] = 0
rounds (empty ∷ stack) = suc (rounds stack)
rounds (branch left id size right ∷ stack) = suc (node_count right + rounds stack)

push_left_lem :
    (t : DeltaTree) (stack : List DeltaTree)
    → (stacked (push_left t stack) ≡ in_order t ++ stacked stack)
      × (rounds (push_left t stack) ≡ node_count t + rounds stack)
unfolding push_left
push_left_lem empty stack = (refl, omega arith)
push_left_lem (branch left id size right) stack =
    let (order, count) = push_left_lem left (branch left id size right ∷ stack) in
    (
      order ∙ sym (append_assoc (in_order left) (id ∷ in_order right) (stacked stack)),
      omega (arith, count),
    )

flatten_loop_lem :
    (fuel : ℕ) (stack : List DeltaTree)
    → rounds stack ≤ fuel
    → flatten_loop fuel stack ≡ stacked stack
unfolding flatten_loop
flatten_loop_lem zero [] h = refl
flatten_loop_lem zero (empty ∷ stack) h = absurd (omega arith)
flatten_loop_lem zero (branch left id size right ∷ stack) h = absurd (omega arith)
flatten_loop_lem (suc fuel) [] h = refl
flatten_loop_lem (suc fuel) (empty ∷ stack) h = flatten_loop_lem fuel stack (omega arith)
flatten_loop_lem (suc fuel) (branch left id size right ∷ stack) h =
    let (order, count) = push_left_lem right stack in
    ap (◌∷◌ id) (flatten_loop_lem fuel (push_left right stack) (omega (arith, count)) ∙ order)

-- The loop with a stack visits all nodes, in order: its fuel, the number of nodes, is enough.
pub flatten_tree_lem : (root : DeltaTree) → flatten_tree root ≡ in_order root
unfolding flatten_tree
flatten_tree_lem root =
    let (order, count) = push_left_lem root [] in
    flatten_loop_lem (node_count root) (push_left root []) (omega (arith, count))
    ∙ order
    ∙ append-nil (in_order root)
