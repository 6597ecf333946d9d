-- ===== src/Ordered/Search.antt =====
-- The binary search loop, the point at which its test changes, and the place of ordered insertion.
use Prim.Native.Nat.{Ordering, compare}
use view_server.Prelude.{
  ℕ, zero, suc, ◌+◌, ◌-◌, ◌/◌, ◌≤◌, ◌<◌, ◌≡◌, ◌∙◌, Bool, true, false, not, List, [], ◌∷◌, some,
  get_elem?, All, ltb, arith, Bool-cases, inl, inr, dec_lt, All-get_elem?, some-injective,
}
use view_server.Ordered.{
  is_lt, search_loop, insert_ordered, ordered_index, Sorted, All-weaken, All-insert_ordered,
}

-- Where the test holds below `p` and fails from `p` on, and the fuel is at least the distance of the
-- bounds around `p`, the loop ends at `p`.
pub search_loop_lem :
    (go_right : ℕ → Bool) (fuel low high p : ℕ)
    → high - low ≤ fuel
    → low ≤ p
    → p ≤ high
    → ((i : ℕ) → i < high → go_right i ≡ ltb i p)
    → search_loop go_right fuel low high ≡ p
unfolding search_loop
search_loop_lem go_right zero low high p f l h t = omega arith
search_loop_lem go_right (suc fuel) low high p f l h t = elim (dec_lt low high) [
  | no q ↦ let test : ltb low high ≡ false = ground arith in rw (test, search_loop) (omega arith)
  | yes q ↦
      let test : ltb low high ≡ true = ground arith in
      let mid = (low + high) / 2 in
      let at_mid = t mid (omega arith) in
      elim (dec_lt mid p) [
        | yes r ↦
            let right : go_right mid ≡ true = at_mid ∙ ground arith in
            rw (test, search_loop)
              (rw right
                (search_loop_lem go_right fuel (mid + 1) high p (omega arith) (omega arith) h t))
        | no r ↦
            let right : go_right mid ≡ false = at_mid ∙ ground arith in
            rw (test, search_loop)
              (rw right (
                search_loop_lem go_right fuel low mid p (omega arith) l (omega arith)
                  (λ i b. t i (omega arith))))
      ]
]

module _ {ℓ κ} {E : Type ℓ} (cmp : E → E → Ordering) (rank : E → ℕ) (P : E → Type κ)
    (agree : (a b : E) → P a → P b → cmp a b ≡ compare (rank a) (rank b)) where
  pub is_lt-rank : (a b : E) → P a → P b → is_lt (cmp a b) ≡ ltb (rank a) (rank b)
  is_lt-rank a b pa pb = ground (arith, agree a b pa pb)

  -- In a sorted array the elements that `c` precedes are those from its place on.
  pub precedes_at :
      (xs : List E) (c : E)
      → P c
      → All P xs
      → Sorted rank xs
      → (i : ℕ) (e : E) → get_elem? xs i ≡ some e
      → is_lt (cmp c e) ≡ not (ltb i (ordered_index cmp xs c))
  unfolding ordered_index
  precedes_at [] c pc ps s i e h = cc
  precedes_at (x ∷ xs) c pc ps s zero e h = elim (Bool-cases (is_lt (cmp c x))) [
    | inl lt ↦ ground (arith, some-injective x e h)
    | inr ge ↦ ground (arith, some-injective x e h)
  ]
  precedes_at (x ∷ xs) c pc ps s (suc i) e h = elim (Bool-cases (is_lt (cmp c x))) [
    | inl lt ↦
        let above = All-get_elem? (λ y. rank x ≤ rank y) xs i s.0 h in
        let pe = All-get_elem? P xs i ps.1 h in
        let below : rank c < rank x = ground (arith, is_lt-rank c x pc ps.0) in
        rw lt (is_lt-rank c e pc pe ∙ ground arith)
    | inr ge ↦ rw ge (precedes_at xs c pc ps.1 s.1 i e h ∙ ground arith)
  ]

  pub Sorted-insert_ordered :
      (xs : List E) (c : E)
      → P c
      → All P xs
      → Sorted rank xs
      → Sorted rank (insert_ordered cmp xs c)
  unfolding insert_ordered
  Sorted-insert_ordered [] c pc ps s = (tt, tt)
  Sorted-insert_ordered (x ∷ xs) c pc ps s = elim (Bool-cases (is_lt (cmp c x))) [
    | inl lt ↦
        let below : rank c < rank x = ground (arith, is_lt-rank c x pc ps.0) in
        rw lt (
          (
            omega arith,
            All-weaken (λ y. rank x ≤ rank y) (λ y. rank c ≤ rank y) (λ y h. omega arith) xs s.0,
          ),
          s,
        )
    | inr ge ↦
        let below : rank x ≤ rank c = ground (arith, is_lt-rank c x pc ps.0) in
        rw ge (
          All-insert_ordered cmp (λ y. rank x ≤ rank y) xs c below s.0,
          Sorted-insert_ordered xs c pc ps.1 s.1,
        )
  ]
