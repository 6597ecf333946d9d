-- ===== src/Worker/ActiveSortedIndex/Inserts.antt =====
-- What an insertion does to an index, whichever way it keeps its ids.
use Prim.Native.Nat.{Ordering, compare}
use view_server.Prelude.{
  ℕ, zero, suc, ◌+◌, ◌*◌, ◌/◌, ◌≤◌, ◌<◌, min, ◌≡◌, refl, sym, ap, ◌∙◌, inl, inr, some,
  some-injective, List, [], ◌∷◌, ◌++◌, append-nil, append_assoc, arith, ltb, leb, leb→le, leb→gt,
  Bool-cases, Option-cases, length, get_elem?, set, take, drop, insert_at, All, get_elem?-set_self,
  length-drop, length-take, length_of_get_elem?, All-get_elem?, take-append-drop,
}
use mathlib.Core.Path.{subst}
use view_server.Protocol.StableKey.{StableKey}
use view_server.Ordered.{insert_ordered, length-insert_ordered, Sorted, All-weaken}
use view_server.Ordered.Search.{Sorted-insert_ordered}
use view_server.Worker.ActiveSortedIndex.Sorting.{insertion_index}
use view_server.Worker.ActiveSortedIndex.{
  BlockSortedIndex, ActiveSortedIndex, in_array, in_blocks, max_block_size, last_not_after,
  split_if_needed, insertion_block_index, insert_in_blocks, insert_id,
}
use view_server.Worker.ActiveSortedIndex.Slices.{concat, contents, IsCounted}
use view_server.Worker.ActiveSortedIndex.Inserted.{
  IsFilled, Sorted-append, Sorted-get_last?, insertion_index_lem, insert_ordered-append_left,
  insert_ordered-append_right, leading, search_blocks, All-always, SortedBlocks, after_last,
  last_not_after_lem,
}

abbrev pub Fits {ℓ} : {A : Type ℓ} → ℕ → List A → Type 0
Fits most block = (0 < length block) × (length block ≤ most)

pub IsFilled-of_length {ℓ} : {A : Type ℓ} (xs : List A) → 0 < length xs → IsFilled xs
IsFilled-of_length [] h = absurd (omega arith)
IsFilled-of_length (x ∷ []) h = (x, refl)
IsFilled-of_length (x ∷ y ∷ xs) h = IsFilled-of_length (y ∷ xs) (omega arith)

module _ {ℓ} {A : Type ℓ} where
  -- One block cut in two holds the same.
  concat-split :
      (blocks : List (List A)) (i : ℕ) (block front back : List A)
      → get_elem? blocks i ≡ some block
      → front ++ back ≡ block
      → concat (insert_at (set blocks i front) (suc i) back) ≡ concat blocks
  concat-split [] i block front back h e = cc
  concat-split (b ∷ blocks) zero block front back h e =
      sym (append_assoc front back (concat blocks))
      ∙ ap (λ l. l ++ concat blocks) (e ∙ sym (some-injective b block h))
  concat-split (b ∷ blocks) (suc i) block front back h e =
      ap (◌++◌ b) (concat-split blocks i block front back h e)

  pub All-set {κ} :
      (P : A → Type κ) (xs : List A) (i : ℕ) (v : A) → P v → All P xs → All P (set xs i v)
  All-set P [] i v p h = tt
  All-set P (x ∷ xs) zero v p h = (p, h.1)
  All-set P (x ∷ xs) (suc i) v p h = (h.0, All-set P xs i v p h.1)

  pub All-insert_at {κ} :
      (P : A → Type κ) (xs : List A) (i : ℕ) (v : A) → P v → All P xs → All P (insert_at xs i v)
  All-insert_at P xs zero v p h = (p, h)
  All-insert_at P [] (suc i) v p h = (p, tt)
  All-insert_at P (x ∷ xs) (suc i) v p h = (h.0, All-insert_at P xs i v p h.1)

  length-insert_at : (xs : List A) (i : ℕ) (v : A) → length (insert_at xs i v) ≡ suc (length xs)
  length-insert_at xs zero v = refl
  length-insert_at [] (suc i) v = refl
  length-insert_at (x ∷ xs) (suc i) v = ap suc (length-insert_at xs i v)

  set-set : (xs : List A) (i : ℕ) (v w : A) → set (set xs i v) i w ≡ set xs i w
  set-set [] i v w = refl
  set-set (x ∷ xs) zero v w = refl
  set-set (x ∷ xs) (suc i) v w = ap (◌∷◌ x) (set-set xs i v w)

split_if_needed-concat :
    (most : ℕ) (blocks : List (List StableKey)) (i : ℕ)
    → concat (split_if_needed most blocks i) ≡ concat blocks
unfolding split_if_needed
split_if_needed-concat most blocks i = elim (Option-cases (get_elem? blocks i)) [
  | inl none_there ↦ rw none_there refl
  | inr (block, there) ↦ elim (Bool-cases (leb (length block) most)) [
    | inl fits ↦ rw (there, fits) refl
    | inr over ↦
        rw (there, over)
          (ap
              (λ k. concat (
                insert_at (set blocks i (take (length block / 2) block)) k
                  (drop (length block / 2) block)))
              {y = suc i} (omega arith)
            ∙ concat-split blocks i block _ _ there (take-append-drop (length block / 2) block))
  ]
]

-- A block that has grown by one fits, or its halves do.
split_if_needed-Fits :
    (most : ℕ) (blocks : List (List StableKey)) (i : ℕ) (grown : List StableKey)
    → 0 < most
    → i < length blocks
    → 0 < length grown
    → length grown ≤ suc most
    → All (Fits most) blocks
    → All (Fits most) (split_if_needed most (set blocks i grown) i)
unfolding split_if_needed
split_if_needed-Fits most blocks i grown some_room b low high fit =
    let there = get_elem?-set_self blocks i grown b in
    elim (Bool-cases (leb (length grown) most)) [
      | inl fits ↦ rw (there, fits) (All-set (Fits most) blocks i grown (low, leb→le _ _ fits) fit)
      | inr over ↦
          let half = length grown / 2 in
          let left = length-take half grown in
          let right = length-drop half grown in
          let large = leb→gt _ _ over in
          rw (there, over, set-set blocks i grown (take half grown))
            (All-insert_at (Fits most) (set blocks i (take half grown)) (i + 1) (drop half grown)
              (omega (arith, right, large), omega (arith, right, large))
              (All-set (Fits most) blocks i (take half grown)
                (omega (arith, left, large), omega (arith, left, large)) fit))
    ]

module _ (compare_ids : StableKey → StableKey → Ordering) (rank : StableKey → ℕ)
    (agree : (a b : StableKey) → compare_ids a b ≡ compare (rank a) (rank b)) where
  abbrev grow : StableKey → List StableKey → List StableKey
  grow id block = insert_at block (insertion_index compare_ids block id) id

  Grown : List (List StableKey) → StableKey → ℕ → Type 0
  Grown blocks id k =
      (block : List StableKey) × (get_elem? blocks k ≡ some block)
      × (concat (set blocks k (grow id block)) ≡ insert_ordered compare_ids (concat blocks) id)

  place-Grown :
      (first : List StableKey) (blocks : List (List StableKey)) (id : StableKey)
      → SortedBlocks compare_ids rank agree (first ∷ blocks)
      → Grown
          (first ∷ blocks)
          id
          (min (leading (last_not_after compare_ids id) (first ∷ blocks)) (length blocks))
  unfolding Grown
  place-Grown first [] id (filled, s) = subst (Grown (first ∷ []) id) {x = 0} (omega arith) (
    first,
    refl,
    append-nil (grow id first)
        ∙ insertion_index_lem compare_ids rank agree first id (Sorted-append rank first [] s).0
        ∙ ap (λ ids. insert_ordered compare_ids ids id) (sym (append-nil first)),
  )
  place-Grown first (next ∷ blocks) id (((l, e), filled), s) =
      let rest = concat (next ∷ blocks) in
      let (s_first, s_rest, between) = Sorted-append rank first rest s in
      elim (Bool-cases (last_not_after compare_ids id (some first))) [
        | inl test ↦
            let later : leading (last_not_after compare_ids id) (first ∷ next ∷ blocks)
                ≡ suc (leading (last_not_after compare_ids id) (next ∷ blocks)) =
              rw test refl in
            let (block, there, same) = place-Grown next blocks id (filled, s_rest) in
            let low : rank l ≤ rank id =
              ground (arith, sym (last_not_after_lem compare_ids rank agree id first l e) ∙ test) in
            subst (Grown (first ∷ next ∷ blocks) id)
              {x = suc
                (min (leading (last_not_after compare_ids id) (next ∷ blocks)) (length blocks))}
              (omega (arith, later))
              (
                block,
                there,
                ap (◌++◌ first) same
                    ∙ sym (
                        insert_ordered-append_right compare_ids rank agree first rest id (
                          All-weaken (λ x. rank x ≤ rank l) (λ x. rank x ≤ rank id)
                            (λ x h. omega arith) first (Sorted-get_last? rank first l s_first e))),
              )
        | inr test ↦
            let none_before : leading (last_not_after compare_ids id) (first ∷ next ∷ blocks) ≡ 0 =
              rw test refl in
            let high : rank id < rank l =
              ground (arith, sym (last_not_after_lem compare_ids rank agree id first l e) ∙ test) in
            subst (Grown (first ∷ next ∷ blocks) id) {x = 0} (omega (arith, none_before)) (
              first,
              refl,
              ap (λ ids. ids ++ rest) (insertion_index_lem compare_ids rank agree first id s_first)
                  ∙ sym (
                      insert_ordered-append_left compare_ids rank agree first rest id (
                        All-weaken (λ y. rank l ≤ rank y) (λ y. rank id < rank y)
                          (λ y h. omega arith) rest
                          (after_last compare_ids rank agree first (next ∷ blocks) l s e))),
            )
      ]

  insertion_block_index-Grown :
      (first : List StableKey) (blocks : List (List StableKey)) (id : StableKey)
      → SortedBlocks compare_ids rank agree (first ∷ blocks)
      → Grown (first ∷ blocks) id (insertion_block_index compare_ids (first ∷ blocks) id)
  unfolding insertion_block_index
  insertion_block_index-Grown first blocks id s =
      let all = first ∷ blocks in
      let found =
        search_blocks compare_ids rank agree (last_not_after compare_ids id) (suc (rank id))
          (λ block l e.
            last_not_after_lem compare_ids rank agree id block l e ∙ leb-suc (rank l) (rank id))
          all s in
      subst (Grown all id) {x = min (leading (last_not_after compare_ids id) all) (length blocks)}
        (omega (arith, found)) (place-Grown first blocks id s)
    where
      leb-suc : (a b : ℕ) → leb a b ≡ ltb a (suc b)
      leb-suc a b = ground arith

  -- The index is sorted, its size is right, no block is empty, and none is over its greatest size.
  abbrev pub IsIndex : ActiveSortedIndex → Type 0
  IsIndex (in_array ids) = Sorted rank ids
  IsIndex (in_blocks index) =
      Sorted rank (concat index.blocks)
      × IsCounted index
      × (0 < index.target_block_size)
      × All (Fits (max_block_size index)) index.blocks

  -- The ids after an insertion of `id`, in an index that is well-formed again.
  Inserts : StableKey → ActiveSortedIndex → ActiveSortedIndex → Type 0
  Inserts id before after =
      (contents after ≡ insert_ordered compare_ids (contents before) id) × IsIndex after

  insert_in_blocks_lem :
      (target size : ℕ) (blocks : List (List StableKey)) (id : StableKey)
      → let index : BlockSortedIndex = record {
        target_block_size = target;
        blocks = blocks;
        size = size;
      } in
        IsIndex (in_blocks index)
        → Inserts id (in_blocks index) (in_blocks (insert_in_blocks compare_ids index id))
  unfolding Grown Inserts insert_in_blocks insert_ordered
  insert_in_blocks_lem target size [] id (s, counted, t, fit) =
      (refl, ((tt, tt), refl, t, ((omega arith, omega arith), tt)))
  insert_in_blocks_lem target size (first ∷ blocks) id (s, counted, t, fit) =
      let all = first ∷ blocks in
      let most = target * 2 in
      let at = insertion_block_index compare_ids all id in
      let (block, there, grown) =
        insertion_block_index-Grown first blocks id
          (All-weaken (Fits most) IsFilled (λ b h. IsFilled-of_length b h.0) all fit, s) in
      let size_of_block = insertion_index_length block id in
      let (low, high) = All-get_elem? (Fits most) all at fit there in
      let same = split_if_needed-concat most (set all at (grow id block)) at ∙ grown in
      rw there (
        same,
        (
          subst (Sorted rank) (sym same) (
              Sorted-insert_ordered compare_ids rank (λ a. Unit {0}) (λ a b u v. agree a b)
                (concat all) id tt (All-always compare_ids rank agree (concat all)) s),
          omega (arith, counted, ap length same, length-insert_ordered compare_ids (concat all) id),
          t,
          split_if_needed-Fits most all at (grow id block) (omega arith)
              (length_of_get_elem? all at there) (omega (arith, size_of_block))
              (omega (arith, size_of_block)) fit,
        ),
      )
    where
      insertion_index_length :
          (block : List StableKey) (id : StableKey) → length (grow id block) ≡ suc (length block)
      insertion_index_length block id =
          length-insert_at block (insertion_index compare_ids block id) id

-- With a comparison that is total and that of some rank (no id is unknown to it, and no order value is
-- NaN): an insertion into a well-formed index puts the id after
-- all that do not follow it, and leaves the index well-formed, whether it is one array or blocks.
pub insert_id_lem :
    (compare_ids : StableKey → StableKey → Ordering) (rank : StableKey → ℕ)
    (agree : (a b : StableKey) → compare_ids a b ≡ compare (rank a) (rank b))
    (index : ActiveSortedIndex) (id : StableKey)
    → IsIndex compare_ids rank agree index
    → (contents (insert_id compare_ids index id) ≡ insert_ordered compare_ids (contents index) id)
      × IsIndex compare_ids rank agree (insert_id compare_ids index id)
unfolding insert_id Inserts
insert_id_lem compare_ids rank agree (in_array ids) id s =
    let same = insertion_index_lem compare_ids rank agree ids id s in
    (
      same,
      subst (Sorted rank) (sym same) (
          Sorted-insert_ordered compare_ids rank (λ a. Unit {0}) (λ a b u v. agree a b) ids id tt
            (All-always compare_ids rank agree ids) s),
    )
insert_id_lem compare_ids rank agree (in_blocks index) id good =
    insert_in_blocks_lem compare_ids rank agree index.target_block_size index.size index.blocks id
      good
