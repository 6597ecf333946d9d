-- ===== src/Ordered.antt =====
-- Sorted arrays: the stable sort that JavaScript's `sort` computes, ordered insertion, and the binary
-- search that worker/query-engine.ts and worker/active-sorted-index.ts write out in several places.
-- A comparison is an `Ordering`, the sign of the number that the code's comparators return.
pub mod Search
use Prim.Native.Nat.{Ordering, compare}
use view_server.Prelude.{
  ℕ, zero, suc, ◌+◌, ◌-◌, ◌*◌, ◌/◌, ◌≤◌, ◌<◌, ◌≡◌, refl, ap, ◌∙◌, sym, Bool, true, false, not, List,
  [], ◌∷◌, ◌++◌, Option, none, some, length, get_elem?, take, insert_at, All, ltb, leb,
  if◌then◌else◌, arith, drop_last, Bool-cases, inl, inr, take-cons-take,
}

abbrev pub is_lt : Ordering → Bool
is_lt Ordering.lt = true
is_lt _ = false

abbrev pub is_gt : Ordering → Bool
is_gt Ordering.gt = true
is_gt _ = false

-- `while (low < high) { middle = floor((low + high) / 2); ... }`, which goes right of `middle` where the
-- test holds. Each round makes `high - low` smaller, so a fuel of `high - low` is enough.
unfoldable pub search_loop : (ℕ → Bool) → ℕ → ℕ → ℕ → ℕ
search_loop go_right zero low high = low
search_loop go_right (suc fuel) low high = elim (ltb low high) [
  | false ↦ low
  | true ↦ elim (go_right ((low + high) / 2)) [
    | true ↦ search_loop go_right fuel ((low + high) / 2 + 1) high
    | false ↦ search_loop go_right fuel low ((low + high) / 2)
  ]
]

module _ {ℓ} {E : Type ℓ} (cmp : E → E → Ordering) where
  -- after the elements that do not follow it
  unfoldable pub insert_ordered : List E → E → List E
  insert_ordered [] c = c ∷ []
  insert_ordered (x ∷ xs) c = if is_lt (cmp c x) then c ∷ x ∷ xs else x ∷ insert_ordered xs c

  -- `Array.prototype.sort`, which is stable: elements that compare equal keep their order.
  unfoldable pub sort_into : List E → List E → List E
  sort_into sorted [] = sorted
  sort_into sorted (x ∷ xs) = sort_into (insert_ordered sorted x) xs

  abbrev pub stable_sort : List E → List E
  stable_sort xs = sort_into [] xs

  -- the place at which `insert_ordered` puts `c`
  unfoldable pub ordered_index : List E → E → ℕ
  ordered_index [] c = 0
  ordered_index (x ∷ xs) c = if is_lt (cmp c x) then 0 else suc (ordered_index xs c)

  pub insert_at-ordered_index :
      (xs : List E) (c : E) → insert_at xs (ordered_index xs c) c ≡ insert_ordered xs c
  unfolding insert_ordered ordered_index
  insert_at-ordered_index [] c = refl
  insert_at-ordered_index (x ∷ xs) c = ground (arith, insert_at-ordered_index xs c)

  pub ordered_index-le : (xs : List E) (c : E) → ordered_index xs c ≤ length xs
  unfolding ordered_index
  ordered_index-le [] c = omega arith
  ordered_index-le (x ∷ xs) c = ground (arith, ordered_index-le xs c)

  pub length-insert_ordered : (xs : List E) (c : E) → length (insert_ordered xs c) ≡ suc (length xs)
  unfolding insert_ordered
  length-insert_ordered [] c = refl
  length-insert_ordered (x ∷ xs) c = ground (arith, length-insert_ordered xs c)

  pub All-insert_ordered {κ} :
      (P : E → Type κ) (xs : List E) (c : E) → P c → All P xs → All P (insert_ordered xs c)
  unfolding insert_ordered
  All-insert_ordered P [] c pc h = (pc, tt)
  All-insert_ordered P (x ∷ xs) c pc h =
      elim (is_lt (cmp c x)) as (λ b. All P (if b then c ∷ x ∷ xs else x ∷ insert_ordered xs c)) [
        | true ↦ (pc, (h.0, h.1))
        | false ↦ (h.0, All-insert_ordered P xs c pc h.1)
      ]

  -- The first `n` elements decide the first `n` after an insertion.
  pub take-insert_ordered :
      (n : ℕ) (xs : List E) (c : E)
      → take n (insert_ordered (take n xs) c) ≡ take n (insert_ordered xs c)
  unfolding insert_ordered
  take-insert_ordered zero xs c = refl
  take-insert_ordered (suc n) [] c = refl
  take-insert_ordered (suc n) (x ∷ xs) c = elim (Bool-cases (is_lt (cmp c x))) [
    | inl e ↦ rw e (ap (◌∷◌ c) (take-cons-take n x xs))
    | inr e ↦ rw e (ap (◌∷◌ x) (take-insert_ordered n xs c))
  ]

-- Sorted by a rank.
abbrev pub Sorted {ℓ} : {E : Type ℓ} → (E → ℕ) → List E → Type 0
Sorted rank [] = Unit
Sorted rank (x ∷ xs) = All (λ y. rank x ≤ rank y) xs × Sorted rank xs

pub All-weaken {ℓ κ ι} :
    {E : Type ℓ} (P : E → Type κ) (Q : E → Type ι)
    → ((x : E) → P x → Q x)
    → (xs : List E) → All P xs
    → All Q xs
All-weaken P Q f [] h = tt
All-weaken P Q f (x ∷ xs) h = (f x h.0, All-weaken P Q f xs h.1)
