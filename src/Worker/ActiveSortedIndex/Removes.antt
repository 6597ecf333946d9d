-- ===== src/Worker/ActiveSortedIndex/Removes.antt =====
-- What a removal does to an index, whichever way it keeps its ids.
use Prim.Native.Nat.{Ordering, compare}
use view_server.Prelude.{
  ℕ, zero, suc, ◌+◌, ◌-◌, ◌≤◌, ◌<◌, ◌≡◌, refl, sym, ap, ap₂, ◌∙◌, ◌⊎◌, inl, inr, true, false,
  Option, none, some, some-injective, List, [], ◌∷◌, ◌++◌, append_assoc, arith, ℕ_discrete, leb,
  ◌==◌, leb→le, Bool-cases, Option-cases, length, get_elem?, set, remove_at, All, length-append,
  get_elem?-set_self, nil_of_length, length_of_get_elem?, All-get_elem?,
}
use mathlib.Core.Path.{subst}
use view_server.Protocol.StableKey.{StableKey}
use view_server.Ordered.{Sorted, All-weaken}
use view_server.Worker.FanoutQueue.Queued.{All-append}
use view_server.Worker.ActiveSortedIndex.Sorting.{is_key, index_of}
use view_server.Worker.ActiveSortedIndex.{
  BlockSortedIndex, ActiveSortedIndex, in_array, in_blocks, min_block_size, max_block_size,
  previous_of, join_previous, join_next, compact_if_needed, location_of, remove_located,
  remove_in_blocks, remove_at_found, remove_id,
}
use view_server.Worker.ActiveSortedIndex.Slices.{concat, contents}
use view_server.Worker.ActiveSortedIndex.Inserted.{IsFilled, All-parts}
use view_server.Worker.ActiveSortedIndex.Inserts.{Fits, All-set, IsFilled-of_length, IsIndex}
use view_server.Worker.ActiveSortedIndex.Searched.{Answers, index_of_lem, stable_key_equals_sound}
use view_server.Worker.ActiveSortedIndex.Located.{
  AllOther, other_everywhere, Locates, location_of_lem,
}

module _ {ℓ} {A : Type ℓ} where
  All-remove_at {κ} : (P : A → Type κ) (xs : List A) (i : ℕ) → All P xs → All P (remove_at xs i)
  All-remove_at P [] i h = tt
  All-remove_at P (x ∷ xs) zero h = h.1
  All-remove_at P (x ∷ xs) (suc i) h = (h.0, All-remove_at P xs i h.1)

  remove_at-set : (xs : List A) (i : ℕ) (v : A) → remove_at (set xs i v) i ≡ remove_at xs i
  remove_at-set [] i v = refl
  remove_at-set (x ∷ xs) zero v = refl
  remove_at-set (x ∷ xs) (suc i) v = ap (◌∷◌ x) (remove_at-set xs i v)

  -- Two neighbours made one hold the same.
  concat-join :
      (blocks : List (List A)) (k : ℕ) (a b : List A)
      → get_elem? blocks k ≡ some a
      → get_elem? blocks (suc k) ≡ some b
      → concat (remove_at (set blocks k (a ++ b)) (suc k)) ≡ concat blocks
  concat-join [] k a b p q = cc
  concat-join (x ∷ []) zero a b p q = cc
  concat-join (x ∷ y ∷ blocks) zero a b p q =
      append_assoc a b (concat blocks)
      ∙ ap₂ (λ l r. l ++ (r ++ concat blocks)) (sym (some-injective x a p))
          (sym (some-injective y b q))
  concat-join (x ∷ blocks) (suc k) a b p q = ap (◌++◌ x) (concat-join blocks k a b p q)

  concat-remove_empty :
      (blocks : List (List A)) (k : ℕ)
      → get_elem? blocks k ≡ some []
      → concat (remove_at blocks k) ≡ concat blocks
  concat-remove_empty [] k p = refl
  concat-remove_empty (x ∷ blocks) zero p =
      ap (λ l. l ++ concat blocks) (sym (some-injective x [] p))
  concat-remove_empty (x ∷ blocks) (suc k) p = ap (◌++◌ x) (concat-remove_empty blocks k p)

  -- A list around an element, and the list without it.
  unfoldable pub Around : A → List A → List A → Type ℓ
  Around x before after =
      (pre : List A) × (post : List A) × (before ≡ pre ++ x ∷ post) × (after ≡ pre ++ post)

  remove_at-Around :
      (xs : List A) (i : ℕ) (x : A) → get_elem? xs i ≡ some x → Around x xs (remove_at xs i)
  unfolding Around
  remove_at-Around [] i x h = cc
  remove_at-Around (y ∷ xs) zero x h = ([], xs, ap (λ z. z ∷ xs) (some-injective y x h), refl)
  remove_at-Around (y ∷ xs) (suc i) x h =
      let (pre, post, e, f) = remove_at-Around xs i x h in
      (y ∷ pre, post, ap (◌∷◌ y) e, ap (◌∷◌ y) f)

  concat-Around :
      (blocks : List (List A)) (k : ℕ) (block : List A) (i : ℕ) (x : A)
      → get_elem? blocks k ≡ some block
      → get_elem? block i ≡ some x
      → Around x (concat blocks) (concat (set blocks k (remove_at block i)))
  unfolding Around
  concat-Around [] k block i x p q = cc
  concat-Around (b ∷ blocks) zero block i x p q =
      let (pre, post, e, f) = remove_at-Around block i x q in
      (
        pre,
        post ++ concat blocks,
        ap (λ l. l ++ concat blocks) (some-injective b block p ∙ e)
            ∙ append_assoc pre (x ∷ post) (concat blocks),
        ap (λ l. l ++ concat blocks) f ∙ append_assoc pre post (concat blocks),
      )
  concat-Around (b ∷ blocks) (suc k) block i x p q =
      let (pre, post, e, f) = concat-Around blocks k block i x p q in
      (
        b ++ pre,
        post,
        ap (◌++◌ b) e ∙ sym (append_assoc b pre (x ∷ post)),
        ap (◌++◌ b) f ∙ sym (append_assoc b pre post),
      )

-- The same ids in blocks that fit.
Rejoins : ℕ → List (List StableKey) → List (List StableKey) → Type 0
Rejoins most before after = (concat after ≡ concat before) × All (Fits most) after

joined-Rejoins :
    (most : ℕ) (blocks : List (List StableKey)) (k : ℕ) (a b : List StableKey)
    → All (Fits most) blocks
    → get_elem? blocks k ≡ some a
    → get_elem? blocks (suc k) ≡ some b
    → leb (length a + length b) most ≡ true
    → Rejoins most blocks (remove_at (set blocks k (a ++ b)) (suc k))
unfolding Rejoins
joined-Rejoins most blocks k a b fit p q test =
    let (low, high) = All-get_elem? (Fits most) blocks k fit p in
    let size = length-append a b in
    (
      concat-join blocks k a b p q,
      All-remove_at (Fits most) (set blocks k (a ++ b)) (suc k) (
          All-set (Fits most) blocks k (a ++ b)
            (omega (arith, size), omega (arith, size, leb→le _ _ test)) fit),
    )

join_previous-Rejoins :
    (most : ℕ) (blocks : List (List StableKey)) (k : ℕ) (block : List StableKey)
    → All (Fits most) blocks
    → get_elem? blocks k ≡ some block
    → Rejoins most blocks (join_previous most blocks k block (previous_of blocks k))
unfolding Rejoins
join_previous-Rejoins most blocks zero block fit p = (refl, fit)
join_previous-Rejoins most blocks (suc k) block fit p = elim (Option-cases (get_elem? blocks k)) [
  | inl gone ↦ rw gone (refl, fit)
  | inr (previous, q) ↦ elim (Bool-cases (leb (length previous + length block) most)) [
    | inl small ↦
        let index : k ≡ suc k - 1 = omega arith in
        rw (q, small)
          (subst (λ j. Rejoins most blocks (remove_at (set blocks j (previous ++ block)) (suc k)))
            index (joined-Rejoins most blocks k previous block fit q p small))
    | inr large ↦ rw (q, large) (refl, fit)
  ]
]

join_next-Rejoins :
    (most : ℕ) (blocks : List (List StableKey)) (k : ℕ) (block : List StableKey)
    → All (Fits most) blocks
    → get_elem? blocks k ≡ some block
    → Rejoins most blocks (join_next most blocks k block (get_elem? blocks (k + 1)))
unfolding Rejoins
join_next-Rejoins most blocks k block fit p = elim (Option-cases (get_elem? blocks (k + 1))) [
  | inl gone ↦ rw gone (join_previous-Rejoins most blocks k block fit p)
  | inr (next, q) ↦ elim (Bool-cases (leb (length block + length next) most)) [
    | inl small ↦
        let index : suc k ≡ k + 1 = omega arith in
        rw (q, small)
          (subst (λ j. Rejoins most blocks (remove_at (set blocks k (block ++ next)) j)) index
            (joined-Rejoins most blocks k block next fit p (ap (get_elem? blocks) index ∙ q) small))
    | inr large ↦ rw (q, large) (join_previous-Rejoins most blocks k block fit p)
  ]
]

-- After a block became smaller, compaction leaves the same ids in blocks that fit.
compact_if_needed-Rejoins :
    (least most : ℕ) (blocks : List (List StableKey)) (k : ℕ) (smaller : List StableKey)
    → All (Fits most) blocks
    → k < length blocks
    → length smaller ≤ most
    → Rejoins most (set blocks k smaller) (compact_if_needed least most (set blocks k smaller) k)
unfolding compact_if_needed Rejoins
compact_if_needed-Rejoins least most blocks k smaller fit within high =
    let there = get_elem?-set_self blocks k smaller within in
    elim (ℕ_discrete (length smaller) 0) [
      | yes empty ↦
          let test : length smaller == 0 ≡ true = ground (arith, empty) in
          rw (there, test)
            (
              concat-remove_empty (set blocks k smaller) k
                  (there ∙ ap some (nil_of_length smaller empty)),
              subst (All (Fits most)) (sym (remove_at-set blocks k smaller))
                  (All-remove_at (Fits most) blocks k fit),
            )
      | no filled ↦
          let test : length smaller == 0 ≡ false = ground (arith, filled) in
          let fits = All-set (Fits most) blocks k smaller (omega arith, high) fit in
          elim (Bool-cases (leb least (length smaller))) [
            | inl enough ↦ rw (there, test, enough) (refl, fits)
            | inr few ↦
                rw (there, test, few)
                  (join_next-Rejoins most (set blocks k smaller) k smaller fits there)
          ]
    ]

Sorted-without :
    (rank : StableKey → ℕ) (pre : List StableKey) (x : StableKey) (post : List StableKey)
    → Sorted rank (pre ++ x ∷ post)
    → Sorted rank (pre ++ post)
Sorted-without rank [] x post s = s.1
Sorted-without rank (y ∷ pre) x post (low, s) =
    let (left, right) = All-parts (λ z. rank y ≤ rank z) pre (x ∷ post) low in
    (All-append (λ z. rank y ≤ rank z) pre post left right.1, Sorted-without rank pre x post s)

Sorted-Around :
    (rank : StableKey → ℕ) (x : StableKey) (before after : List StableKey)
    → Around x before after
    → Sorted rank before
    → Sorted rank after
unfolding Around
Sorted-Around rank x before after (pre, post, e, f) s =
    subst (Sorted rank) (sym f) (Sorted-without rank pre x post (subst (Sorted rank) e s))

length-Around :
    (x : StableKey) (before after : List StableKey)
    → Around x before after
    → length before ≡ suc (length after)
unfolding Around
length-Around x before after (pre, post, e, f) =
    omega (arith, ap length e, ap length f, length-append pre (x ∷ post), length-append pre post)

key_at : (id : StableKey) (o : Option StableKey) → is_key id o ≡ true → o ≡ some id
key_at id none h = cc
key_at id (some a) h = ap some (stable_key_equals_sound a id h)

module _ (compare_ids : StableKey → StableKey → Ordering) (rank : StableKey → ℕ)
    (agree : (a b : StableKey) → compare_ids a b ≡ compare (rank a) (rank b)) where
  -- The list has no such id and stays, or loses it at one place.
  abbrev pub Without : StableKey → List StableKey → List StableKey → Type 0
  Without id before after =
      AllOther compare_ids rank agree id before × (after ≡ before) ⊎ Around id before after

  remove_in_array_lem :
      (ids : List StableKey) (id : StableKey) (o : Option ℕ)
      → Sorted rank ids
      → Answers compare_ids rank agree ids id (λ i. i < length ids) o
      → let after = remove_at_found ids o in Without id ids after × Sorted rank after
  remove_in_array_lem ids id none s h =
      (inl (other_everywhere compare_ids rank agree id ids h, refl), s)
  remove_in_array_lem ids id (some i) s h =
      let around = remove_at-Around ids i id (key_at id (get_elem? ids i) h) in
      (inr around, Sorted-Around rank id ids (remove_at ids i) around s)

  remove_located_lem :
      (index : BlockSortedIndex) (id : StableKey) (o : Option (ℕ × ℕ))
      → IsIndex compare_ids rank agree (in_blocks index)
      → Locates compare_ids rank agree index.blocks id o
      → let after = in_blocks (remove_located compare_ids index o) in
        Without id (concat index.blocks) (contents after) × IsIndex compare_ids rank agree after
  unfolding Rejoins
  remove_located_lem index id none good h = (inl (h, refl), good)
  remove_located_lem index id (some (k, i)) (s, counted, t, fit) (block, there, key) =
      let most = max_block_size index in
      let found = key_at id (get_elem? block i) key in
      let smaller = remove_at block i in
      let cut = length-Around id block smaller (remove_at-Around block i id found) in
      let (low, high) = All-get_elem? (Fits most) index.blocks k fit there in
      let (same, fits) =
        compact_if_needed-Rejoins (min_block_size index) most index.blocks k smaller fit
          (length_of_get_elem? index.blocks k there) (omega (arith, cut)) in
      let around =
        subst (Around id (concat index.blocks)) (sym same)
          (concat-Around index.blocks k block i id there found) in
      rw there (
        inr around,
        (
          Sorted-Around rank id (concat index.blocks) _ around s,
          omega (arith, counted, length-Around _ _ _ around),
          t,
          fits,
        ),
      )

-- With a comparison that is total and that of some rank (no id is unknown to it, and no order value is
-- NaN): a removal from a well-formed index takes the id out at
-- one place if it is there, and changes none of the ids otherwise; it leaves the index well-formed,
-- whether it is one array or blocks.
pub remove_id_lem :
    (compare_ids : StableKey → StableKey → Ordering) (rank : StableKey → ℕ)
    (agree : (a b : StableKey) → compare_ids a b ≡ compare (rank a) (rank b))
    (index : ActiveSortedIndex) (id : StableKey)
    → IsIndex compare_ids rank agree index
    → Without compare_ids rank agree id (contents index) (contents (remove_id compare_ids index id))
      × IsIndex compare_ids rank agree (remove_id compare_ids index id)
unfolding remove_id remove_in_blocks
remove_id_lem compare_ids rank agree (in_array ids) id s =
    remove_in_array_lem compare_ids rank agree ids id (index_of compare_ids ids id) s
      (index_of_lem compare_ids rank agree ids id s)
remove_id_lem compare_ids rank agree (in_blocks index) id (s, counted, t, fit) =
    remove_located_lem compare_ids rank agree index id (location_of compare_ids index.blocks id)
      (s, counted, t, fit)
      (location_of_lem compare_ids rank agree index.blocks id (
        All-weaken (Fits (max_block_size index)) IsFilled (λ b h. IsFilled-of_length b h.0)
            index.blocks fit,
        s,
      ))
