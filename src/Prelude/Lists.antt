-- ===== src/Prelude/Lists.antt =====
-- Lists measured and indexed by native numbers, under the library's names.
use Prim.Native.Nat.{ℕ, zero, suc, ◌+◌, ◌-◌, ◌<◌, ◌≤◌, min}
use mathlib.Core.Path.{◌≡◌, refl, ap, sym, subst, ◌∙◌}
use mathlib.Core.Logic.{◌≢◌}
use mathlib.Core.List.{List, [], ◌∷◌, ◌++◌}
use mathlib.Core.Option.{Option, none, some, some-injective}
use mathlib.Core.Bool.{Bool, true, false}
use native.Mathlib.Omega.{arith}
use view_server.Prelude.Tests.{if◌then◌else◌}

module _ {ℓ} {A : Type ℓ} where
  abbrev pub length : List A → ℕ
  length [] = 0
  length (x ∷ xs) = suc (length xs)

  abbrev pub get_elem? : List A → ℕ → Option A
  get_elem? [] i = none
  get_elem? (x ∷ xs) zero = some x
  get_elem? (x ∷ xs) (suc i) = get_elem? xs i

  -- A write out of bounds changes nothing.
  abbrev pub set : List A → ℕ → A → List A
  set [] i v = []
  set (x ∷ xs) zero v = v ∷ xs
  set (x ∷ xs) (suc i) v = x ∷ set xs i v

  abbrev pub take : ℕ → List A → List A
  take zero xs = []
  take (suc n) [] = []
  take (suc n) (x ∷ xs) = x ∷ take n xs

  abbrev pub drop : ℕ → List A → List A
  drop zero xs = xs
  drop (suc n) [] = []
  drop (suc n) (x ∷ xs) = drop n xs

  abbrev pub replicate : ℕ → A → List A
  replicate zero a = []
  replicate (suc n) a = a ∷ replicate n a

  -- `l.filter(p)`
  abbrev pub filter_by : (A → Bool) → List A → List A
  filter_by p [] = []
  filter_by p (x ∷ xs) = if p x then x ∷ filter_by p xs else filter_by p xs

  -- `l.pop()`, for its effect on the array
  abbrev pub drop_last : List A → List A
  drop_last [] = []
  drop_last (x ∷ []) = []
  drop_last (x ∷ y ∷ xs) = x ∷ drop_last (y ∷ xs)

  -- `l.slice(offset, offset + limit)`
  abbrev pub slice : List A → ℕ → ℕ → List A
  slice xs offset limit = take limit (drop offset xs)

  -- `l.splice(i, 0, v)`: past the end it appends
  abbrev pub insert_at : List A → ℕ → A → List A
  insert_at xs zero v = v ∷ xs
  insert_at [] (suc i) v = v ∷ []
  insert_at (x ∷ xs) (suc i) v = x ∷ insert_at xs i v

  -- `l.splice(i, 1)`
  abbrev pub remove_at : List A → ℕ → List A
  remove_at [] i = []
  remove_at (x ∷ xs) zero = xs
  remove_at (x ∷ xs) (suc i) = x ∷ remove_at xs i

  abbrev pub All {κ} : (A → Type κ) → List A → Type κ
  All P [] = Unit
  All P (x ∷ xs) = P x × All P xs

-- What reading gives after each of these.
module _ {ℓ} {A : Type ℓ} where
  pub length-append : (xs ys : List A) → length (xs ++ ys) ≡ length xs + length ys
  length-append [] ys = omega arith
  length-append (x ∷ xs) ys = omega (arith, length-append xs ys)

  pub length-set : (xs : List A) (i : ℕ) (v : A) → length (set xs i v) ≡ length xs
  length-set [] i v = refl
  length-set (x ∷ xs) zero v = refl
  length-set (x ∷ xs) (suc i) v = ap suc (length-set xs i v)

  pub length-replicate : (n : ℕ) (a : A) → length (replicate n a) ≡ n
  length-replicate zero a = refl
  length-replicate (suc n) a = ap suc (length-replicate n a)

  pub get_elem?-set_self :
      (xs : List A) (i : ℕ) (v : A) → i < length xs → get_elem? (set xs i v) i ≡ some v
  get_elem?-set_self [] i v h = absurd (omega arith)
  get_elem?-set_self (x ∷ xs) zero v h = refl
  get_elem?-set_self (x ∷ xs) (suc i) v h = get_elem?-set_self xs i v (omega arith)

  pub get_elem?-set_ne :
      (xs : List A) (i j : ℕ) (v : A) → i ≢ j → get_elem? (set xs i v) j ≡ get_elem? xs j
  get_elem?-set_ne [] i j v h = refl
  get_elem?-set_ne (x ∷ xs) zero zero v h = absurd (h refl)
  get_elem?-set_ne (x ∷ xs) zero (suc j) v h = refl
  get_elem?-set_ne (x ∷ xs) (suc i) zero v h = refl
  get_elem?-set_ne (x ∷ xs) (suc i) (suc j) v h = get_elem?-set_ne xs i j v (λ e. h (ap suc e))

  pub get_elem?_past : (xs : List A) (i : ℕ) → length xs ≤ i → get_elem? xs i ≡ none
  get_elem?_past [] i h = refl
  get_elem?_past (x ∷ xs) zero h = absurd (omega arith)
  get_elem?_past (x ∷ xs) (suc i) h = get_elem?_past xs i (omega arith)

  pub get_elem?_within : (xs : List A) (i : ℕ) → i < length xs → (x : A) × (get_elem? xs i ≡ some x)
  get_elem?_within [] i h = absurd (omega arith)
  get_elem?_within (x ∷ xs) zero h = (x, refl)
  get_elem?_within (x ∷ xs) (suc i) h = get_elem?_within xs i (omega arith)

  pub get_elem?-append_left :
      (xs ys : List A) (i : ℕ) → i < length xs → get_elem? (xs ++ ys) i ≡ get_elem? xs i
  get_elem?-append_left [] ys i h = absurd (omega arith)
  get_elem?-append_left (x ∷ xs) ys zero h = refl
  get_elem?-append_left (x ∷ xs) ys (suc i) h = get_elem?-append_left xs ys i (omega arith)

  pub get_elem?-append_right :
      (xs ys : List A) (i : ℕ)
      → length xs ≤ i
      → get_elem? (xs ++ ys) i ≡ get_elem? ys (i - length xs)
  get_elem?-append_right [] ys i h = ap (get_elem? ys) (omega arith)
  get_elem?-append_right (x ∷ xs) ys zero h = absurd (omega arith)
  get_elem?-append_right (x ∷ xs) ys (suc i) h =
      get_elem?-append_right xs ys i (omega arith) ∙ ap (get_elem? ys) (omega arith)

  pub get_elem?-drop :
      (n : ℕ) (xs : List A) (i : ℕ) → get_elem? (drop n xs) i ≡ get_elem? xs (n + i)
  get_elem?-drop zero xs i = ap (get_elem? xs) (omega arith)
  get_elem?-drop (suc n) [] i = refl
  get_elem?-drop (suc n) (x ∷ xs) i =
      get_elem?-drop n xs i ∙ ap (get_elem? (x ∷ xs)) {x = suc (n + i)} (omega arith)

  pub length-drop : (n : ℕ) (xs : List A) → length (drop n xs) ≡ length xs - n
  length-drop zero xs = omega arith
  length-drop (suc n) [] = omega arith
  length-drop (suc n) (x ∷ xs) = omega (arith, length-drop n xs)

  pub length-take : (n : ℕ) (xs : List A) → length (take n xs) ≡ min n (length xs)
  length-take zero xs = omega arith
  length-take (suc n) [] = omega arith
  length-take (suc n) (x ∷ xs) = omega (arith, length-take n xs)

  -- Two lists that read alike are equal.
  pub get_elem?_ext : (xs ys : List A) → ((i : ℕ) → get_elem? xs i ≡ get_elem? ys i) → xs ≡ ys
  get_elem?_ext [] [] h = refl
  get_elem?_ext [] (y ∷ ys) h = absurd (none-ne-some (h 0))
    where
      none-ne-some : ¬ (none ≡ some y)
      none-ne-some e = cc
  get_elem?_ext (x ∷ xs) [] h = absurd (some-ne-none (h 0))
    where
      some-ne-none : ¬ (some x ≡ none)
      some-ne-none e = cc
  get_elem?_ext (x ∷ xs) (y ∷ ys) h = ground (arith, h 0, get_elem?_ext xs ys (λ i. h (suc i)))

module _ {ℓ} {A : Type ℓ} where
  pub drop_past : (n : ℕ) (xs : List A) → length xs ≤ n → drop n xs ≡ []
  drop_past zero [] h = refl
  drop_past zero (x ∷ xs) h = absurd (omega arith)
  drop_past (suc n) [] h = refl
  drop_past (suc n) (x ∷ xs) h = drop_past n xs (omega arith)

  pub drop-append_left :
      (n : ℕ) (xs ys : List A) → n ≤ length xs → drop n (xs ++ ys) ≡ drop n xs ++ ys
  drop-append_left zero xs ys h = refl
  drop-append_left (suc n) [] ys h = absurd (omega arith)
  drop-append_left (suc n) (x ∷ xs) ys h = drop-append_left n xs ys (omega arith)

  drop_nil : (n : ℕ) → drop {A = A} n [] ≡ []
  drop_nil zero = refl
  drop_nil (suc n) = refl

  pub drop-drop : (m n : ℕ) (xs : List A) → drop m (drop n xs) ≡ drop (n + m) xs
  drop-drop m zero xs = ap (λ k. drop k xs) {x = m} (omega arith)
  drop-drop zero (suc n) [] = ap (λ k. drop k []) {x = suc n} (omega arith)
  drop-drop (suc m) (suc n) [] = sym (drop_nil (suc n + suc m))
  drop-drop m (suc n) (x ∷ xs) =
      drop-drop m n xs ∙ ap (λ k. drop k (x ∷ xs)) {x = suc (n + m)} (omega arith)

  pub nil_of_length : (xs : List A) → length xs ≡ 0 → xs ≡ []
  nil_of_length [] h = refl
  nil_of_length (x ∷ xs) h = absurd (omega arith)

  pub drop_step :
      (xs : List A) (i : ℕ) {x : A} → get_elem? xs i ≡ some x → drop i xs ≡ x ∷ drop (i + 1) xs
  drop_step [] i h = cc
  drop_step (y ∷ xs) zero h = ground arith
  drop_step (y ∷ xs) (suc i) {x} h =
      drop_step xs i h ∙ ap (λ k. x ∷ drop k (y ∷ xs)) {x = suc (i + 1)} (omega arith)

  -- the last element
  abbrev pub get_last? : List A → Option A
  get_last? [] = none
  get_last? (x ∷ []) = some x
  get_last? (x ∷ y ∷ xs) = get_last? (y ∷ xs)

  pub get_elem?_last : (xs : List A) → get_elem? xs (length xs - 1) ≡ get_last? xs
  get_elem?_last [] = refl
  get_elem?_last (x ∷ []) = refl
  get_elem?_last (x ∷ y ∷ xs) =
      ap (get_elem? (x ∷ y ∷ xs)) {y = suc (length (y ∷ xs) - 1)} (omega arith)
      ∙ get_elem?_last (y ∷ xs)

  pub length-drop_last : (xs : List A) → length (drop_last xs) ≡ length xs - 1
  length-drop_last [] = omega arith
  length-drop_last (x ∷ []) = omega arith
  length-drop_last (x ∷ y ∷ xs) = omega (arith, length-drop_last (y ∷ xs))

  pub get_elem?-drop_last :
      (xs : List A) (i : ℕ) → i < length xs - 1 → get_elem? (drop_last xs) i ≡ get_elem? xs i
  get_elem?-drop_last [] i h = refl
  get_elem?-drop_last (x ∷ []) i h = absurd (omega arith)
  get_elem?-drop_last (x ∷ y ∷ xs) zero h = refl
  get_elem?-drop_last (x ∷ y ∷ xs) (suc i) h = get_elem?-drop_last (y ∷ xs) i (omega arith)

  pub length_of_get_elem? : (xs : List A) (i : ℕ) {x : A} → get_elem? xs i ≡ some x → i < length xs
  length_of_get_elem? [] i h = cc
  length_of_get_elem? (x ∷ xs) zero h = omega arith
  length_of_get_elem? (x ∷ xs) (suc i) h = omega (arith, length_of_get_elem? xs i h)

-- `filter_by`
module _ {ℓ} {A : Type ℓ} (p : A → Bool) where
  pub filter_by-append :
      (xs ys : List A) → filter_by p (xs ++ ys) ≡ filter_by p xs ++ filter_by p ys
  filter_by-append [] ys = refl
  filter_by-append (x ∷ xs) ys = ground (arith, filter_by-append xs ys)

  pub filter_by-none :
      (xs : List A)
      → ((i : ℕ) (x : A) → get_elem? xs i ≡ some x → p x ≡ false)
      → filter_by p xs ≡ []
  filter_by-none [] h = refl
  filter_by-none (x ∷ xs) h = rw (h 0 x refl) (filter_by-none xs (λ i. h (suc i)))

  pub filter_by-all :
      (xs : List A) → ((i : ℕ) (x : A) → get_elem? xs i ≡ some x → p x ≡ true) → filter_by p xs ≡ xs
  filter_by-all [] h = refl
  filter_by-all (x ∷ xs) h = rw (h 0 x refl) (ap (◌∷◌ x) (filter_by-all xs (λ i. h (suc i))))

module _ {ℓ} {A : Type ℓ} where
  pub take-take : (m n : ℕ) (xs : List A) → m ≤ n → take m (take n xs) ≡ take m xs
  take-take zero n xs h = refl
  take-take (suc m) zero xs h = absurd (omega arith)
  take-take (suc m) (suc n) [] h = refl
  take-take (suc m) (suc n) (x ∷ xs) h = ap (◌∷◌ x) (take-take m n xs (omega arith))

  pub take-cons-take : (n : ℕ) (x : A) (xs : List A) → take n (x ∷ take n xs) ≡ take n (x ∷ xs)
  take-cons-take zero x xs = refl
  take-cons-take (suc n) x xs = ap (◌∷◌ x) (take-take n (suc n) xs (omega arith))

  -- A bound that the list does not reach cuts nothing off.
  pub take_whole : (bound : ℕ) (items : List A) → length items ≤ bound → take bound items ≡ items
  take_whole bound [] short = nothing bound
    where
      nothing : (k : ℕ) → take {A = A} k [] ≡ []
      nothing zero = refl
      nothing (suc k) = refl
  take_whole zero (item ∷ items) short = absurd (omega arith)
  take_whole (suc bound) (item ∷ items) short = ap (◌∷◌ item) (take_whole bound items (omega arith))

  pub take-append_left : (n : ℕ) (xs ys : List A) → n ≤ length xs → take n (xs ++ ys) ≡ take n xs
  take-append_left zero xs ys h = refl
  take-append_left (suc n) [] ys h = absurd (omega arith)
  take-append_left (suc n) (x ∷ xs) ys h = ap (◌∷◌ x) (take-append_left n xs ys (omega arith))

  pub drop_last-eq-take : (n : ℕ) (xs : List A) → length xs ≡ suc n → drop_last xs ≡ take n xs
  drop_last-eq-take n [] h = absurd (omega arith)
  drop_last-eq-take zero (x ∷ []) h = refl
  drop_last-eq-take (suc n) (x ∷ []) h = absurd (omega arith)
  drop_last-eq-take zero (x ∷ y ∷ xs) h = absurd (omega arith)
  drop_last-eq-take (suc n) (x ∷ y ∷ xs) h = ap (◌∷◌ x) (drop_last-eq-take n (y ∷ xs) (omega arith))

  -- A window into the first `offset + limit` elements is that window.
  pub slice-take :
      (offset limit : ℕ) (xs : List A)
      → slice (take (offset + limit) xs) offset limit ≡ slice xs offset limit
  slice-take zero limit xs = take-take limit (0 + limit) xs (omega arith)
  slice-take (suc offset) limit [] =
      ap (λ ys. take limit (drop (suc offset) ys))
        (take_whole (suc offset + limit) [] (omega arith))
  slice-take (suc offset) limit (x ∷ xs) =
      ap (λ n. slice (take n (x ∷ xs)) (suc offset) limit) {y = suc (offset + limit)} (omega arith)
      ∙ slice-take offset limit xs

  pub All-get_elem? {κ} :
      (P : A → Type κ) (xs : List A) (i : ℕ) {x : A} → All P xs → get_elem? xs i ≡ some x → P x
  All-get_elem? P [] i h e = cc
  All-get_elem? P (y ∷ xs) zero h e = subst P (some-injective _ _ e) h.0
  All-get_elem? P (y ∷ xs) (suc i) h e = All-get_elem? P xs i h.1 e

-- Reading and writing a list between two parts.
module _ {ℓ} {A : Type ℓ} where
  pub get_elem?-between :
      (pre post : List A) (x : A) → get_elem? (pre ++ x ∷ post) (length pre) ≡ some x
  get_elem?-between [] post x = refl
  get_elem?-between (y ∷ pre) post x = get_elem?-between pre post x

  pub remove_at-between :
      (pre post : List A) (x : A) → remove_at (pre ++ x ∷ post) (length pre) ≡ pre ++ post
  remove_at-between [] post x = refl
  remove_at-between (y ∷ pre) post x = ap (◌∷◌ y) (remove_at-between pre post x)

  pub insert_at-between :
      (pre post : List A) (x : A) → insert_at (pre ++ post) (length pre) x ≡ pre ++ x ∷ post
  insert_at-between [] post x = refl
  insert_at-between (y ∷ pre) post x = ap (◌∷◌ y) (insert_at-between pre post x)

  pub drop-between : (pre post : List A) → drop (length pre) (pre ++ post) ≡ post
  drop-between [] post = refl
  drop-between (y ∷ pre) post = drop-between pre post

  pub take-between : (pre post : List A) → take (length pre) (pre ++ post) ≡ pre
  take-between [] [] = refl
  take-between [] (x ∷ post) = refl
  take-between (y ∷ pre) post = ap (◌∷◌ y) (take-between pre post)

  pub take-append-drop : (i : ℕ) (xs : List A) → take i xs ++ drop i xs ≡ xs
  take-append-drop zero xs = refl
  take-append-drop (suc i) [] = refl
  take-append-drop (suc i) (x ∷ xs) = ap (◌∷◌ x) (take-append-drop i xs)
