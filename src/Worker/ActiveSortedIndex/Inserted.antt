-- ===== src/Worker/ActiveSortedIndex/Inserted.antt =====
-- Where an id goes in an index that is sorted by some rank.
use Prim.Native.Nat.{Ordering, compare}
use view_server.Prelude.{
  ℕ, zero, suc, ◌≤◌, ◌<◌, ◌≡◌, refl, sym, ap, ◌∙◌, inl, inr, Bool, true, false, not, Option, some,
  some-injective, List, [], ◌∷◌, ◌++◌, arith, ltb, leb, if◌then◌else◌, Bool-cases, length,
  get_elem?, insert_at, All, get_elem?_within, get_last?,
}
use view_server.Protocol.StableKey.{StableKey}
use mathlib.Core.Path.{subst}
use view_server.Ordered.{
  is_lt, search_loop, insert_ordered, ordered_index, insert_at-ordered_index, ordered_index-le,
  Sorted, All-weaken,
}
use view_server.Ordered.Search.{search_loop_lem, precedes_at}
use view_server.Worker.ActiveSortedIndex.Sorting.{not_after, insertion_index}
use view_server.Worker.ActiveSortedIndex.{last_not_after}
use view_server.Worker.ActiveSortedIndex.Slices.{concat}

-- The element that is there.
abbrev pub IsFilled {ℓ} : {A : Type ℓ} → List A → Type ℓ
IsFilled xs = (x : _) × (get_last? xs ≡ some x)

pub All-parts {ℓ κ} :
    {E : Type ℓ} (P : E → Type κ) (xs ys : List E) → All P (xs ++ ys) → All P xs × All P ys
All-parts P [] ys h = (tt, h)
All-parts P (x ∷ xs) ys h = let (l, r) = All-parts P xs ys h.1 in ((h.0, l), r)

pub Sorted-append {ℓ} :
    {E : Type ℓ} (rank : E → ℕ) (xs ys : List E)
    → Sorted rank (xs ++ ys)
    → Sorted rank xs × Sorted rank ys × All (λ x. All (λ y. rank x ≤ rank y) ys) xs
Sorted-append rank [] ys s = (tt, s, tt)
Sorted-append rank (x ∷ xs) ys (low, s) =
    let (sx, sy, between) = Sorted-append rank xs ys s in
    let (lx, ly) = All-parts (λ y. rank x ≤ rank y) xs ys low in ((lx, sx), sy, (ly, between))

All-get_last? {ℓ κ} :
    {E : Type ℓ} (P : E → Type κ) (xs : List E) (l : E) → All P xs → get_last? xs ≡ some l → P l
All-get_last? P [] l h e = cc
All-get_last? P (x ∷ []) l h e = subst P (some-injective x l e) h.0
All-get_last? P (x ∷ y ∷ xs) l h e = All-get_last? P (y ∷ xs) l h.1 e

-- The last element of a sorted list is its greatest.
pub Sorted-get_last? {ℓ} :
    {E : Type ℓ} (rank : E → ℕ) (xs : List E) (l : E)
    → Sorted rank xs
    → get_last? xs ≡ some l
    → All (λ x. rank x ≤ rank l) xs
Sorted-get_last? rank [] l s e = tt
Sorted-get_last? rank (x ∷ []) l s e = (ap_le (some-injective x l e), tt)
  where
    ap_le : x ≡ l → rank x ≤ rank l
    ap_le e = omega (arith, ap rank e)
Sorted-get_last? rank (x ∷ y ∷ xs) l s e =
    (All-get_last? (λ z. rank x ≤ rank z) (y ∷ xs) l s.0 e, Sorted-get_last? rank (y ∷ xs) l s.1 e)

-- How many blocks lead for which the test holds.
abbrev pub leading : (Option (List StableKey) → Bool) → List (List StableKey) → ℕ
leading test [] = 0
leading test (block ∷ blocks) = if test (some block) then suc (leading test blocks) else 0

leading-bound :
    (test : Option (List StableKey) → Bool) (blocks : List (List StableKey))
    → leading test blocks ≤ length blocks
leading-bound test [] = omega arith
leading-bound test (block ∷ blocks) = ground (arith, leading-bound test blocks)

module _ (compare_ids : StableKey → StableKey → Ordering) (rank : StableKey → ℕ)
    (agree : (a b : StableKey) → compare_ids a b ≡ compare (rank a) (rank b)) where
  is_lt-rank : (a b : StableKey) → is_lt (compare_ids a b) ≡ ltb (rank a) (rank b)
  is_lt-rank a b = ground (arith, agree a b)

  not_after-rank : (a id : StableKey) → not_after compare_ids id (some a) ≡ leb (rank a) (rank id)
  not_after-rank a id = ground (arith, agree a id)

  pub All-always : (ids : List StableKey) → All (λ a. Unit {0}) ids
  All-always [] = tt
  All-always (id ∷ ids) = (tt, All-always ids)

  -- In a sorted array the search ends at the place of ordered insertion.
  pub insertion_index_lem :
      (ids : List StableKey) (id : StableKey)
      → Sorted rank ids
      → insert_at ids (insertion_index compare_ids ids id) id ≡ insert_ordered compare_ids ids id
  unfolding insertion_index
  insertion_index_lem ids id s =
      ap (λ i. insert_at ids i id)
        (search_loop_lem (λ i. not_after compare_ids id (get_elem? ids i)) (length ids) 0
          (length ids) (ordered_index compare_ids ids id) (omega arith) (omega arith)
          (ordered_index-le compare_ids ids id) at)
      ∙ insert_at-ordered_index compare_ids ids id
    where
      flipped : (a b : ℕ) (c : Bool) → ltb b a ≡ not c → leb a b ≡ c
      flipped a b true h = ground arith
      flipped a b false h = ground arith

      at :
          (i : ℕ)
          → i < length ids
          → not_after compare_ids id (get_elem? ids i) ≡ ltb i (ordered_index compare_ids ids id)
      at i b =
          let (e, there) = get_elem?_within ids i b in
          let p =
            precedes_at compare_ids rank (λ a. Unit {0}) (λ a c u v. agree a c) ids id tt
              (All-always ids) s i e there in
          ap (not_after compare_ids id) there
          ∙ not_after-rank e id
          ∙ flipped (rank e) (rank id) (ltb i (ordered_index compare_ids ids id))
              (sym (is_lt-rank id e) ∙ p)

  pub insert_ordered-append_right :
      (xs ys : List StableKey) (id : StableKey)
      → All (λ x. rank x ≤ rank id) xs
      → insert_ordered compare_ids (xs ++ ys) id ≡ xs ++ insert_ordered compare_ids ys id
  unfolding insert_ordered
  insert_ordered-append_right [] ys id h = refl
  insert_ordered-append_right (x ∷ xs) ys id h =
      let test : is_lt (compare_ids id x) ≡ false = is_lt-rank id x ∙ ground (arith, h.0) in
      rw test (ap (◌∷◌ x) (insert_ordered-append_right xs ys id h.1))

  pub insert_ordered-append_left :
      (xs ys : List StableKey) (id : StableKey)
      → All (λ y. rank id < rank y) ys
      → insert_ordered compare_ids (xs ++ ys) id ≡ insert_ordered compare_ids xs id ++ ys
  unfolding insert_ordered
  insert_ordered-append_left [] [] id h = refl
  insert_ordered-append_left [] (y ∷ ys) id h =
      let test : is_lt (compare_ids id y) ≡ true = is_lt-rank id y ∙ ground (arith, h.0) in
      rw test refl
  insert_ordered-append_left (x ∷ xs) ys id h = elim (Bool-cases (is_lt (compare_ids id x))) [
    | inl e ↦ rw e refl
    | inr e ↦ rw e (ap (◌∷◌ x) (insert_ordered-append_left xs ys id h))
  ]

  -- The blocks, sorted one after another.
  abbrev pub SortedBlocks : List (List StableKey) → Type 0
  SortedBlocks blocks = All IsFilled blocks × Sorted rank (concat blocks)

  SortedBlocks-tail :
      (block : List StableKey) (blocks : List (List StableKey))
      → SortedBlocks (block ∷ blocks)
      → SortedBlocks blocks
  SortedBlocks-tail block blocks (filled, s) =
      (filled.1, (Sorted-append rank block (concat blocks) s).1)

  -- From the last id of a block on, all are no smaller.
  pub after_last :
      (block : List StableKey) (blocks : List (List StableKey)) (l : StableKey)
      → Sorted rank (block ++ concat blocks)
      → get_last? block ≡ some l
      → All (λ y. rank l ≤ rank y) (concat blocks)
  after_last block blocks l s e =
      All-get_last? (λ x. All (λ y. rank x ≤ rank y) (concat blocks)) block l
        (Sorted-append rank block (concat blocks) s).2 e

  pub last_not_after_lem :
      (id : StableKey) (block : List StableKey) (l : StableKey)
      → get_last? block ≡ some l
      → last_not_after compare_ids id (some block) ≡ leb (rank l) (rank id)
  last_not_after_lem id block l e = ap (not_after compare_ids id) e ∙ not_after-rank l id

  -- Where a test of blocks holds if their last id ranks below some bound, it holds for those that lead.
  module _ (test : Option (List StableKey) → Bool) (bound : ℕ)
      (bounded : (block : List StableKey) (l : StableKey)
        → get_last? block ≡ some l
        → test (some block) ≡ ltb (rank l) bound) where
    last_beyond :
        (blocks : List (List StableKey)) (i : ℕ)
        → All IsFilled blocks
        → All (λ y. bound ≤ rank y) (concat blocks)
        → i < length blocks
        → test (get_elem? blocks i) ≡ false
    last_beyond [] i filled above b = absurd (omega arith)
    last_beyond (block ∷ blocks) zero ((l, e), filled) above b =
        let low : bound ≤ rank l =
          All-get_last? (λ y. bound ≤ rank y) block l
            (All-parts (λ y. bound ≤ rank y) block (concat blocks) above).0 e in
        bounded block l e ∙ ground arith
    last_beyond (block ∷ blocks) (suc i) (first, filled) above b =
        last_beyond blocks i filled (All-parts (λ y. bound ≤ rank y) block (concat blocks) above).1
          (omega arith)

    leading_lem :
        (blocks : List (List StableKey)) (i : ℕ)
        → SortedBlocks blocks
        → i < length blocks
        → test (get_elem? blocks i) ≡ ltb i (leading test blocks)
    leading_lem [] i s b = absurd (omega arith)
    leading_lem (block ∷ blocks) zero s b = elim (Bool-cases (test (some block))) [
      | inl yes_here ↦
          let below : ltb 0 (suc (leading test blocks)) ≡ true = ground arith in
          rw yes_here (sym below)
      | inr no_more ↦ rw no_more refl
    ]
    leading_lem (block ∷ blocks) (suc i) (((l, e), filled), s) b =
        elim (Bool-cases (test (some block))) [
          | inl yes_here ↦ rw yes_here (
              leading_lem blocks i (filled, (Sorted-append rank block (concat blocks) s).1)
                (omega arith)
              ∙ ground arith)
          | inr no_more ↦
              let larger : bound ≤ rank l = ground (arith, sym (bounded block l e) ∙ no_more) in
              rw no_more (
                last_beyond blocks i filled
                  (All-weaken (λ y. rank l ≤ rank y) (λ y. bound ≤ rank y) (λ y h. omega arith)
                    (concat blocks) (after_last block blocks l s e))
                  (omega arith)
                ∙ ground arith)
        ]

    -- The binary search over the blocks counts those that lead.
    pub search_blocks :
        (blocks : List (List StableKey))
        → SortedBlocks blocks
        → search_loop (λ i. test (get_elem? blocks i)) (length blocks) 0 (length blocks)
          ≡ leading test blocks
    search_blocks blocks s =
        search_loop_lem (λ i. test (get_elem? blocks i)) (length blocks) 0 (length blocks)
          (leading test blocks) (omega arith) (omega arith) (leading-bound test blocks)
          (λ i b. leading_lem blocks i s b)
