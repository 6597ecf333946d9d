-- ===== src/Worker/ActiveSortedIndex/Slices.antt =====
-- What the blocks of an index hold, one after another, and what a slice of them is.
use view_server.Prelude.{
  ℕ, zero, suc, ◌-◌, ◌≤◌, ◌<◌, ◌≡◌, refl, sym, ap, ◌∙◌, inl, inr, true, false, List, [], ◌∷◌, ◌++◌,
  append-nil, append_assoc, arith, ℕ_discrete, leb, ◌==◌, leb→le, leb→gt, Bool-cases, length, take,
  drop, slice, length-append, length-drop, length-take, drop_past, drop-append_left, take_whole,
  take-append-drop,
}
use view_server.Protocol.StableKey.{StableKey}
use view_server.Worker.ActiveSortedIndex.{
  BlockSortedIndex, ActiveSortedIndex, in_array, in_blocks, cut_blocks, slice_blocks,
  slice_of_blocks, slice_index,
}

abbrev pub concat {ℓ} : {A : Type ℓ} → List (List A) → List A
concat [] = []
concat (xs ∷ xss) = xs ++ concat xss

module _ {ℓ} {A : Type ℓ} where
  pub concat-append : (xss yss : List (List A)) → concat (xss ++ yss) ≡ concat xss ++ concat yss
  concat-append [] yss = refl
  concat-append (xs ∷ xss) yss =
      ap (◌++◌ xs) (concat-append xss yss) ∙ sym (append_assoc xs (concat xss) (concat yss))

  drop-append_right :
      (n : ℕ) (xs ys : List A) → length xs ≤ n → drop n (xs ++ ys) ≡ drop (n - length xs) ys
  drop-append_right n [] ys h = ap (λ k. drop k ys) {x = n} (omega arith)
  drop-append_right zero (x ∷ xs) ys h = absurd (omega arith)
  drop-append_right (suc n) (x ∷ xs) ys h =
      drop-append_right n xs ys (omega arith)
      ∙ ap (λ k. drop k ys) {x = n - length xs} (omega arith)

  take-append : (n : ℕ) (xs ys : List A) → take n (xs ++ ys) ≡ take n xs ++ take (n - length xs) ys
  take-append zero [] ys = ap (λ k. take k ys) {x = zero} {y = zero - 0} (omega arith)
  take-append zero (x ∷ xs) ys =
      ap (λ k. take k ys) {x = zero} {y = zero - length (x ∷ xs)} (omega arith)
  take-append (suc n) [] ys = ap (λ k. take k ys) {x = suc n} {y = suc n - 0} (omega arith)
  take-append (suc n) (x ∷ xs) ys = ap (◌∷◌ x) (
      take-append n xs ys
      ∙ ap (λ k. take n xs ++ take k ys) {x = n - length xs} {y = suc n - length (x ∷ xs)}
          (omega arith))

  split_block :
      (front xs ys : List A) (skipped n : ℕ)
      → skipped ≤ length xs
      → front ++ slice (xs ++ ys) skipped n
        ≡ (front ++ slice xs skipped n) ++ take (n - length (drop skipped xs)) ys
  split_block front xs ys skipped n h =
      ap (λ l. front ++ take n l) (drop-append_left skipped xs ys h)
      ∙ ap (◌++◌ front) (take-append n (drop skipped xs) ys)
      ∙ sym (append_assoc front (slice xs skipped n) (take (n - length (drop skipped xs)) ys))

slice_blocks_lem :
    (limit : ℕ) (blocks : List (List StableKey)) (skipped : ℕ) (result : List StableKey)
    → length result ≤ limit
    → slice_blocks limit blocks skipped result
      ≡ result ++ slice (concat blocks) skipped (limit - length result)
unfolding slice_blocks
slice_blocks_lem limit [] skipped result h = sym (
    ap (λ ids. result ++ take (limit - length result) ids) (drop_past skipped [] (omega arith))
    ∙ ap (◌++◌ result) (take_whole (limit - length result) [] (omega arith))
    ∙ append-nil result)
slice_blocks_lem limit (block ∷ blocks) skipped result h =
    elim (Bool-cases (leb (length block) skipped)) [
      | inl past ↦ rw past (
          slice_blocks_lem limit blocks (skipped - length block) result h
          ∙ ap (λ ids. result ++ take (limit - length result) ids)
              (sym (drop-append_right skipped block (concat blocks) (leb→le _ _ past))))
      | inr within ↦
          let taken = result ++ slice block skipped (limit - length result) in
          let here =
            split_block result block (concat blocks) skipped (limit - length result)
              (ground (arith, within)) in
          let size = length-append result (slice block skipped (limit - length result)) in
          let cut = length-take (limit - length result) (drop skipped block) in
          elim (Bool-cases (leb limit (length taken))) [
            | inl full ↦
                let none_left : limit - length result - length (drop skipped block) ≡ 0 =
                  omega (arith, size, cut, leb→le _ _ full) in
                rw within (
                  rw full (
                    sym (
                      here
                      ∙ ap (λ n. taken ++ take n (concat blocks)) none_left
                      ∙ append-nil taken)))
            | inr short ↦ rw within (
                rw short (
                  slice_blocks_lem limit blocks 0 taken (omega (arith, size, cut))
                  ∙ ap (λ n. taken ++ take n (concat blocks))
                      {y = limit - length result - length (drop skipped block)}
                      (omega (arith, size, cut, leb→gt _ _ short))
                  ∙ sym here))
          ]
    ]

-- The size is that of what the blocks hold.
abbrev pub IsCounted : BlockSortedIndex → Type 0
IsCounted index = index.size ≡ length (concat index.blocks)

abbrev pub contents : ActiveSortedIndex → List StableKey
contents (in_array ids) = ids
contents (in_blocks index) = concat index.blocks

pub cut_blocks_lem :
    (fuel target : ℕ) (ids : List StableKey)
    → 0 < target
    → length ids ≤ fuel
    → concat (cut_blocks fuel target ids) ≡ ids
unfolding cut_blocks
cut_blocks_lem zero target [] p h = refl
cut_blocks_lem zero target (id ∷ ids) p h = absurd (omega arith)
cut_blocks_lem (suc fuel) target [] p h = refl
cut_blocks_lem (suc fuel) target (id ∷ ids) p h =
    ap (◌++◌ (take target (id ∷ ids))) (
      cut_blocks_lem fuel target (drop target (id ∷ ids)) p
        (omega (arith, length-drop target (id ∷ ids))))
    ∙ take-append-drop target (id ∷ ids)

slice_of_blocks_lem :
    (index : BlockSortedIndex) (offset limit : ℕ)
    → IsCounted index
    → slice_of_blocks index offset limit ≡ slice (concat index.blocks) offset limit
unfolding slice_of_blocks
slice_of_blocks_lem index offset limit counted = elim (ℕ_discrete limit 0) [
  | yes none_wanted ↦
      let test : limit == 0 ≡ true = ground (arith, none_wanted) in
      rw test (ap (λ n. take n (drop offset (concat index.blocks))) (sym none_wanted))
  | no wanted ↦
      let test : limit == 0 ≡ false = ground (arith, wanted) in
      elim (Bool-cases (leb index.size offset)) [
        | inl past ↦
            rw (test, past)
              (sym (
                ap (take limit)
                  (drop_past offset (concat index.blocks) (omega (arith, counted, leb→le _ _ past)))
                ∙ take_whole limit [] (omega arith)))
        | inr within ↦
            rw (test, within)
              (slice_blocks_lem limit index.blocks offset [] (omega arith)
                ∙ ap (slice (concat index.blocks) offset) {y = limit} (omega arith))
      ]
]

-- The size that blocks keep is that of what they hold; an array keeps none.
abbrev pub HasCount : ActiveSortedIndex → Type 0
HasCount (in_array ids) = Unit
HasCount (in_blocks index) = IsCounted index

-- Of an index whose kept size, if it is in blocks, is the number of the ids that it holds, `slice` at any
-- offset and limit is the slice of all these ids in order.
pub slice_index_lem :
    (index : ActiveSortedIndex) (offset limit : ℕ)
    → HasCount index
    → slice_index index offset limit ≡ slice (contents index) offset limit
unfolding slice_index
slice_index_lem (in_array ids) offset limit counted = refl
slice_index_lem (in_blocks index) offset limit counted =
    slice_of_blocks_lem index offset limit counted
