-- ===== src/Worker/ActiveSortedIndex/Searched.antt =====
-- The search for an id in an array that is sorted by some rank.
use Prim.Native.Nat.{Ordering, compare}
use view_server.Prelude.{
  ℕ, zero, suc, ◌+◌, ◌-◌, ◌/◌, ◌≤◌, ◌<◌, ◌≡◌, refl, sym, ap, ◌∙◌, ◌≢◌, ◌⊎◌, inl, inr, if_neg, Bool,
  true, false, ◌&&◌, Option, none, some, some-injective, List, [], ◌∷◌, arith, dec_lt, dec_le, leb,
  ◌==◌, leb→le, leb→gt, Bool-cases, Option-cases, length, get_elem?, drop, All, get_elem?_within,
  get_elem?-drop, drop_step, length_of_get_elem?, All-get_elem?,
}
use mathlib.Core.Path.{subst}
use view_server.Protocol.StableKey.{StableKey, StableKey-discrete, stable_key_equals}
use view_server.Ordered.{Sorted, All-weaken}
use view_server.Worker.ActiveSortedIndex.Sorting.{
  first_found, is_eq, is_level, is_key, exact_below, exact_above, exact_index_in_equal_range,
  index_between, index_of,
}

-- Later elements rank no lower.
Sorted-get_elem? :
    (rank : StableKey → ℕ) (ids : List StableKey) (i j : ℕ) (a b : StableKey)
    → Sorted rank ids
    → i ≤ j
    → get_elem? ids i ≡ some a
    → get_elem? ids j ≡ some b
    → rank a ≤ rank b
Sorted-get_elem? rank [] i j a b s h p q = cc
Sorted-get_elem? rank (x ∷ ids) zero zero a b s h p q =
    omega (arith, ap rank (some-injective a b (sym p ∙ q)))
Sorted-get_elem? rank (x ∷ ids) zero (suc j) a b s h p q =
    subst (λ y. rank y ≤ rank b) (some-injective x a p)
      (All-get_elem? (λ y. rank x ≤ rank y) ids j s.0 q)
Sorted-get_elem? rank (x ∷ ids) (suc i) zero a b s h p q = absurd (omega arith)
Sorted-get_elem? rank (x ∷ ids) (suc i) (suc j) a b s h p q =
    Sorted-get_elem? rank ids i j a b s.1 (omega arith) p q

pub stable_key_equals_sound : (a id : StableKey) → stable_key_equals a id ≡ true → a ≡ id
unfolding stable_key_equals
stable_key_equals_sound a id h = elim (StableKey-discrete a id) [
  | yes e ↦ e
  | no e ↦ cc (if_neg (StableKey-discrete a id) e true false)
]

and_false : (b : Bool) → (b && false) ≡ false
and_false true = refl
and_false false = refl

less_of : (a b : ℕ) → a ≤ b → a ≢ b → a < b
less_of a b h n = omega arith

module _ (compare_ids : StableKey → StableKey → Ordering) (rank : StableKey → ℕ)
    (agree : (a b : StableKey) → compare_ids a b ≡ compare (rank a) (rank b)) where
  -- An id of another rank is another id.
  pub other_rank : (a id : StableKey) → rank a ≢ rank id → stable_key_equals a id ≡ false
  other_rank a id n = elim (Bool-cases (stable_key_equals a id)) [
    | inl e ↦ absurd (n (ap rank (stable_key_equals_sound a id e)))
    | inr e ↦ e
  ]

  is_eq-rank : (a id : StableKey) → is_eq (compare_ids a id) ≡ (rank a == rank id)
  is_eq-rank a id = ground (arith, agree a id)

  -- Nothing that ranks below `id`, up to an element that does, is `id`.
  low_other :
      (ids : List StableKey) (id at : StableKey) (i c : ℕ)
      → Sorted rank ids
      → get_elem? ids c ≡ some at
      → rank at < rank id
      → i ≤ c
      → is_key id (get_elem? ids i) ≡ false
  low_other ids id at i c s there low b = elim (Option-cases (get_elem? ids i)) [
    | inl gone ↦ rw gone refl
    | inr (a, e) ↦
        let below = Sorted-get_elem? rank ids i c a at s b e there in
        rw e (other_rank a id (λ q. absurd (omega arith)))
  ]

  high_other :
      (ids : List StableKey) (id at : StableKey) (i c : ℕ)
      → Sorted rank ids
      → get_elem? ids c ≡ some at
      → rank id < rank at
      → c ≤ i
      → is_key id (get_elem? ids i) ≡ false
  high_other ids id at i c s there high b = elim (Option-cases (get_elem? ids i)) [
    | inl gone ↦ rw gone refl
    | inr (a, e) ↦
        let above = Sorted-get_elem? rank ids c i at a s b there e in
        rw e (other_rank a id (λ q. absurd (omega arith)))
  ]

  -- What a search among the indexes that satisfy `range` may answer.
  abbrev pub Answers : List StableKey → StableKey → (ℕ → Type 0) → Option ℕ → Type 0
  Answers ids id range (some i) = is_key id (get_elem? ids i) ≡ true
  Answers ids id range none = (i : ℕ) → range i → is_key id (get_elem? ids i) ≡ false

  Answers-widen :
      (ids : List StableKey) (id : StableKey) (range wide : ℕ → Type 0) (o : Option ℕ)
      → Answers ids id range o
      → ((i : ℕ) → wide i → range i ⊎ (is_key id (get_elem? ids i) ≡ false))
      → Answers ids id wide o
  Answers-widen ids id range wide none h w =
      λ i r. elim (w i r) [ inl inside ↦ h i inside | inr other ↦ other ]
  Answers-widen ids id range wide (some i) h w = h

  level_of_key :
      (id : StableKey) (o : Option StableKey)
      → is_key id o ≡ true
      → is_level compare_ids id o ≡ true
  level_of_key id none h = cc
  level_of_key id (some a) h =
      let same = ap rank (stable_key_equals_sound a id h) in is_eq-rank a id ∙ ground (arith, same)

  unlevel :
      (id : StableKey) (o : Option StableKey) (at : StableKey)
      → o ≡ some at
      → is_level compare_ids id o ≡ false
      → rank at ≢ rank id
  unlevel id o at there h same =
      let test : (rank at == rank id) ≡ false =
        sym (ap (is_level compare_ids id) there ∙ is_eq-rank at id) ∙ h in
      equal_numbers (rank at) (rank id) same test
    where
      equal_numbers : (a b : ℕ) → a ≡ b → (a == b) ≡ false → ⊥
      equal_numbers a b e t = ground arith

  exact_below_lem :
      (ids : List StableKey) (id at : StableKey) (c : ℕ)
      → Sorted rank ids
      → get_elem? ids c ≡ some at
      → rank at ≤ rank id
      → Answers ids id (λ i. i ≤ c) (exact_below compare_ids ids id c)
  unfolding exact_below
  exact_below_lem ids id at zero s there low = elim (Bool-cases (is_key id (get_elem? ids 0))) [
    | inl key ↦ rw (key, level_of_key id (get_elem? ids 0) key) key
    | inr other ↦
        rw (other, and_false (is_level compare_ids id (get_elem? ids 0)))
          (λ i b. subst (λ k. is_key id (get_elem? ids k) ≡ false) {x = 0} (omega arith) other)
  ]
  exact_below_lem ids id at (suc c) s there low =
      elim (Bool-cases (is_level compare_ids id (get_elem? ids (suc c)))) [
        | inl level ↦ elim (Bool-cases (is_key id (get_elem? ids (suc c)))) [
          | inl key ↦ rw (level, key) key
          | inr other ↦
              let (a, e) =
                get_elem?_within ids c (omega (arith, length_of_get_elem? ids (suc c) there)) in
              let order = Sorted-get_elem? rank ids c (suc c) a at s (omega arith) e there in
              rw (level, other)
                (Answers-widen ids id _ _ (exact_below compare_ids ids id c)
                  (exact_below_lem ids id a c s e (omega arith))
                  (λ i b. elim (dec_lt i (suc c)) [
                    | yes less ↦ inl (omega arith)
                    | no more ↦ inr (
                        subst (λ k. is_key id (get_elem? ids k) ≡ false) {x = suc c} (omega arith)
                          other)
                  ]))
        ]
        | inr lower ↦
            let apart : rank at ≢ rank id = unlevel id (get_elem? ids (suc c)) at there lower in
            rw lower (λ i b.
              low_other ids id at i (suc c) s there (less_of (rank at) (rank id) low apart) b)
      ]

  AnswersAbove : List StableKey → StableKey → ℕ → Option ℕ → Type 0
  AnswersAbove rest id c (some i) = (j : ℕ) × (i ≡ c + j) × (is_key id (get_elem? rest j) ≡ true)
  AnswersAbove rest id c none = (j : ℕ) → is_key id (get_elem? rest j) ≡ false

  AnswersAbove-next :
      (a id : StableKey) (rest : List StableKey) (c : ℕ) (o : Option ℕ)
      → stable_key_equals a id ≡ false
      → AnswersAbove rest id (c + 1) o
      → AnswersAbove (a ∷ rest) id c o
  unfolding AnswersAbove
  AnswersAbove-next a id rest c none other h = at
    where
      at : (j : ℕ) → is_key id (get_elem? (a ∷ rest) j) ≡ false
      at zero = other
      at (suc j) = h j
  AnswersAbove-next a id rest c (some i) other (j, e, h) = (suc j, omega (arith, e), h)

  exact_above_lem :
      (rest : List StableKey) (id : StableKey) (c : ℕ)
      → Sorted rank rest
      → All (λ y. rank id ≤ rank y) rest
      → AnswersAbove rest id c (exact_above compare_ids rest id c)
  unfolding exact_above AnswersAbove
  exact_above_lem [] id c s high = λ j. refl
  exact_above_lem (a ∷ rest) id c s high = elim (Bool-cases (is_eq (compare_ids a id))) [
    | inl level ↦ elim (Bool-cases (stable_key_equals a id)) [
      | inl key ↦ rw (level, key) (0, omega arith, key)
      | inr other ↦
          rw (level, other)
            (AnswersAbove-next a id rest c (exact_above compare_ids rest id (c + 1)) other
              (exact_above_lem rest id (c + 1) s.1 high.1))
    ]
    | inr higher ↦
        let apart : rank a ≢ rank id = unlevel id (some a) a refl higher in
        let above : rank id < rank a = less_of (rank id) (rank a) high.0 (λ e. apart (sym e)) in
        rw higher (λ j. elim (Option-cases (get_elem? (a ∷ rest) j)) [
          | inl gone ↦ rw gone refl
          | inr (b, e) ↦
              let order = Sorted-get_elem? rank (a ∷ rest) 0 j a b s (omega arith) refl e in
              rw e (other_rank b id (λ q. absurd (omega arith)))
        ])
  ]

  Answers-first_found :
      (ids : List StableKey) (id : StableKey) (m : ℕ) (o u : Option ℕ)
      → Answers ids id (λ i. i ≤ m) o
      → AnswersAbove (drop (m + 1) ids) id (m + 1) u
      → Answers ids id (λ i. Unit {0}) (first_found o u)
  unfolding AnswersAbove
  Answers-first_found ids id m (some i) u h k = h
  Answers-first_found ids id m none (some i) h (j, e, k) =
      subst (λ n. is_key id (get_elem? ids n) ≡ true) (sym e)
        (ap (is_key id) (sym (get_elem?-drop (m + 1) ids j)) ∙ k)
  Answers-first_found ids id m none none h k = λ i r. elim (dec_le i m) [
    | yes low ↦ h i low
    | no high ↦
        ap (λ n. is_key id (get_elem? ids n)) {y = (m + 1) + (i - (m + 1))} (omega arith)
        ∙ ap (is_key id) (sym (get_elem?-drop (m + 1) ids (i - (m + 1))))
        ∙ k (i - (m + 1))
  ]

  Sorted-drop : (n : ℕ) (ids : List StableKey) → Sorted rank ids → Sorted rank (drop n ids)
  Sorted-drop zero ids s = s
  Sorted-drop (suc n) [] s = tt
  Sorted-drop (suc n) (a ∷ ids) s = Sorted-drop n ids s.1

  exact_index_in_equal_range_lem :
      (ids : List StableKey) (id at : StableKey) (m : ℕ)
      → Sorted rank ids
      → get_elem? ids m ≡ some at
      → rank at ≡ rank id
      → Answers ids id (λ i. Unit {0}) (exact_index_in_equal_range compare_ids ids m id)
  unfolding exact_index_in_equal_range
  exact_index_in_equal_range_lem ids id at m s there same =
      let after : Sorted rank (at ∷ drop (m + 1) ids) =
        subst (Sorted rank) (drop_step ids m there) (Sorted-drop m ids s) in
      Answers-first_found ids id m _ _ (exact_below_lem ids id at m s there (omega (arith, same))) (
        exact_above_lem (drop (m + 1) ids) id (m + 1) after.1 (
          All-weaken (λ y. rank at ≤ rank y) (λ y. rank id ≤ rank y) (λ y h. omega (arith, same))
            (drop (m + 1) ids) after.0))

  order_cases :
      (at id : StableKey)
      → (compare_ids at id ≡ Ordering.lt) × (rank at < rank id)
        ⊎ (compare_ids at id ≡ Ordering.gt) × (rank id < rank at)
        ⊎ (compare_ids at id ≡ Ordering.eq) × (rank at ≡ rank id)
  order_cases at id = elim (dec_lt (rank at) (rank id)) [
    | yes l ↦ inl (agree at id ∙ ground arith, l)
    | no nl ↦ elim (dec_lt (rank id) (rank at)) [
      | yes g ↦ inr (inl (agree at id ∙ ground arith, g))
      | no ng ↦ inr (inr (agree at id ∙ ground arith, omega arith))
    ]
  ]

  index_between_lem :
      (ids : List StableKey) (id : StableKey) (fuel low above : ℕ)
      → Sorted rank ids
      → above - low ≤ fuel
      → above ≤ length ids
      → Answers ids id
          (λ i. (low ≤ i) × (i < above))
          (index_between compare_ids ids id fuel low above)
  unfolding index_between
  index_between_lem ids id zero low above s f b = λ i (l, h). absurd (omega arith)
  index_between_lem ids id (suc fuel) low above s f b = elim (Bool-cases (leb above low)) [
    | inl done ↦ let crossed = leb→le above low done in rw done (λ i (l, h). absurd (omega arith))
    | inr more ↦
        let open_range = leb→gt above low more in
        let m = (low + (above - 1)) / 2 in
        let (at, there) = get_elem?_within ids m (omega arith) in
        elim (order_cases at id) [
          | inl (e, lower) ↦
              rw (more, there, e)
                (Answers-widen ids id _ _ (index_between compare_ids ids id fuel (m + 1) above)
                  (index_between_lem ids id fuel (m + 1) above s (omega arith) b)
                  (λ i (l, h). elim (dec_le i m) [
                    | yes left ↦ inr (low_other ids id at i m s there lower left)
                    | no right ↦ inl (omega arith, h)
                  ]))
          | inr (inl (e, higher)) ↦
              rw (more, there, e)
                (Answers-widen ids id _ _ (index_between compare_ids ids id fuel low m)
                  (index_between_lem ids id fuel low m s (omega arith) (omega arith))
                  (λ i (l, h). elim (dec_lt i m) [
                    | yes left ↦ inl (l, left)
                    | no right ↦ inr (high_other ids id at i m s there higher (omega arith))
                  ]))
          | inr (inr (e, same)) ↦
              rw (more, there, e)
                (Answers-widen ids id _ _ (exact_index_in_equal_range compare_ids ids m id)
                  (exact_index_in_equal_range_lem ids id at m s there same) (λ i r. inl tt))
        ]
  ]

  -- In a sorted array the search finds the id if it is there.
  pub index_of_lem :
      (ids : List StableKey) (id : StableKey)
      → Sorted rank ids
      → Answers ids id (λ i. i < length ids) (index_of compare_ids ids id)
  unfolding index_of
  index_of_lem ids id s =
      Answers-widen ids id _ _ (index_of compare_ids ids id)
        (index_between_lem ids id (length ids) 0 (length ids) s (omega arith) (omega arith))
        (λ i h. inl (omega arith, h))
