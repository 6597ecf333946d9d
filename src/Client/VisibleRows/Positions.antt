-- ===== src/Client/VisibleRows/Positions.antt =====
-- Positions by key in a list of rows with distinct keys, and the maps of them that the client keeps.
use view_server.Prelude.{
  ℕ, suc, ◌+◌, ◌≡◌, ◌≢◌, refl, ap, sym, ◌∙◌, Option, none, some, List, [], ◌∷◌, ◌++◌, length,
  if_pos, if_neg, arith, Option-cases, inl, inr,
}
use view_server.Protocol.Value.{Row}
use view_server.Protocol.StableKey.{
  StableKey, StableKey-discrete, map_key, KeyMap, map_set, map_set_hit, map_set_miss,
}
use view_server.Client.VisibleRows.{reindex}
use view_server.Client.VisibleRows.Reference.{shift, find}

abbrev pub or_else : Option ℕ → Option ℕ → Option ℕ
or_else none b = b
or_else (some a) b = some a

pub or_else-none : (a : Option ℕ) → or_else a none ≡ a
or_else-none none = refl
or_else-none (some a) = refl

pub shift-shift : (m n : ℕ) (o : Option ℕ) → shift m (shift n o) ≡ shift (m + n) o
shift-shift m n none = refl
shift-shift m n (some i) = ap some (omega arith)

shift-none : (n : ℕ) (o : Option ℕ) → shift n o ≡ none → o ≡ none
shift-none n none h = refl
shift-none n (some i) h = cc

pub shift-or_else :
    (n : ℕ) (a b : Option ℕ) → shift n (or_else a b) ≡ or_else (shift n a) (shift n b)
shift-or_else n none b = refl
shift-or_else n (some a) b = refl

pub shift_zero : (o : Option ℕ) → shift 0 o ≡ o
shift_zero none = refl
shift_zero (some i) = ap some (omega arith)

module _ (row_key : Row → StableKey) where
  pub find_hit :
      (row : Row) (rows : List Row) (k : StableKey)
      → map_key k ≡ map_key (row_key row)
      → find row_key (row ∷ rows) k ≡ some 0
  unfolding find
  find_hit row rows k e = if_pos (StableKey-discrete (map_key k) (map_key (row_key row))) e _ _

  pub find_miss :
      (row : Row) (rows : List Row) (k : StableKey)
      → map_key k ≢ map_key (row_key row)
      → find row_key (row ∷ rows) k ≡ shift 1 (find row_key rows k)
  unfolding find
  find_miss row rows k e = if_neg (StableKey-discrete (map_key k) (map_key (row_key row))) e _ _

  -- Keys that a map takes for one are found at one place.
  pub find-map_key :
      (rows : List Row) (j k : StableKey)
      → map_key j ≡ map_key k
      → find row_key rows j ≡ find row_key rows k
  unfolding find
  find-map_key [] j k e = refl
  find-map_key (row ∷ rows) j k e = rw (e, find-map_key rows j k e) refl

  pub none-cons :
      (row : Row) (rows : List Row) (k : StableKey)
      → find row_key (row ∷ rows) k ≡ none
      → (map_key k ≢ map_key (row_key row)) × (find row_key rows k ≡ none)
  none-cons row rows k h = elim (StableKey-discrete (map_key k) (map_key (row_key row))) [
    | yes e ↦ cc (find_hit row rows k e)
    | no e ↦ (e, shift-none 1 (find row_key rows k) (sym (find_miss row rows k e) ∙ h))
  ]

  pub find-append :
      (pre post : List Row) (k : StableKey)
      → find row_key (pre ++ post) k
        ≡ or_else (find row_key pre k) (shift (length pre) (find row_key post k))
  unfolding find
  find-append [] post k = sym (shift_zero (find row_key post k))
  find-append (row ∷ pre) post k = elim (StableKey-discrete (map_key k) (map_key (row_key row))) [
    | yes e ↦
        find_hit row (pre ++ post) k e
        ∙ ap (λ o. or_else o (shift (suc (length pre)) (find row_key post k)))
            (sym (find_hit row pre k e))
    | no e ↦
        find_miss row (pre ++ post) k e
        ∙ ap (shift 1) (find-append pre post k)
        ∙ shift-or_else 1 (find row_key pre k) (shift (length pre) (find row_key post k))
        ∙ ap (or_else (shift 1 (find row_key pre k))) (
            shift-shift 1 (length pre) (find row_key post k)
            ∙ ap (λ n. shift n (find row_key post k)) (omega arith))
        ∙ ap (λ o. or_else o (shift (suc (length pre)) (find row_key post k)))
            (sym (find_miss row pre k e))
  ]

  -- No two rows have one key.
  abbrev pub Distinct : List Row → Type 0
  Distinct [] = Unit
  Distinct (row ∷ rows) = (find row_key rows (row_key row) ≡ none) × Distinct rows

  -- A key of the first part is no key of the second.
  pub disjoint :
      (pre post : List Row) (k : StableKey)
      → Distinct (pre ++ post)
      → find row_key post k ≢ none
      → find row_key pre k ≡ none
  unfolding find
  disjoint [] post k d h = refl
  disjoint (row ∷ pre) post k d h = elim (StableKey-discrete (map_key k) (map_key (row_key row))) [
    | yes e ↦
        let absent = sym (find-append pre post (row_key row)) ∙ d.0 in
        absurd (
          h (
            find-map_key post k (row_key row) e
            ∙ shift-none (length pre) (find row_key post (row_key row))
                (second (find row_key pre (row_key row)) _ absent)))
    | no e ↦ find_miss row pre k e ∙ ap (shift 1) (disjoint pre post k d.1 h)
  ]
    where
      second : (a b : Option ℕ) → or_else a b ≡ none → b ≡ none
      second none b h = h
      second (some a) b h = cc

  or_none : (a b : Option ℕ) → or_else a b ≡ none → (a ≡ none) × (b ≡ none)
  or_none none b h = (refl, h)
  or_none (some a) b h = cc

  pub absent_parts :
      (pre post : List Row) (k : StableKey)
      → find row_key (pre ++ post) k ≡ none
      → (find row_key pre k ≡ none) × (find row_key post k ≡ none)
  absent_parts pre post k h =
      let (a, b) = or_none (find row_key pre k) _ (sym (find-append pre post k) ∙ h) in
      (a, shift-none (length pre) (find row_key post k) b)

  pub absent-append :
      (pre post : List Row) (k : StableKey)
      → find row_key pre k ≡ none
      → find row_key post k ≡ none
      → find row_key (pre ++ post) k ≡ none
  absent-append pre post k a b = find-append pre post k ∙ (rw (a, b) refl)

  pub Distinct-remove :
      (pre post : List Row) (row : Row) → Distinct (pre ++ row ∷ post) → Distinct (pre ++ post)
  Distinct-remove [] post row d = d.1
  Distinct-remove (x ∷ pre) post row d =
      let (a, b) = absent_parts pre (row ∷ post) (row_key x) d.0 in
      (
        absent-append pre post (row_key x) a (none-cons row post (row_key x) b).1,
        Distinct-remove pre post row d.1,
      )

  -- The removed row's key is gone.
  pub absent-remove :
      (pre post : List Row) (row : Row)
      → Distinct (pre ++ row ∷ post)
      → find row_key (pre ++ post) (row_key row) ≡ none
  absent-remove pre post row d =
      absent-append pre post (row_key row)
        (disjoint pre (row ∷ post) (row_key row) d (λ n. cc (find_hit row post (row_key row) refl)))
        (tail pre d)
    where
      tail :
          (pre : List Row) → Distinct (pre ++ row ∷ post) → find row_key post (row_key row) ≡ none
      tail [] d = d.0
      tail (x ∷ pre) d = tail pre d.1

  pub Distinct-insert :
      (pre post : List Row) (row : Row)
      → Distinct (pre ++ post)
      → find row_key (pre ++ post) (row_key row) ≡ none
      → Distinct (pre ++ row ∷ post)
  Distinct-insert [] post row d h = (h, d)
  Distinct-insert (x ∷ pre) post row d h =
      let (a, b) = absent_parts pre post (row_key x) d.0 in
      let (apart, later) = none-cons x (pre ++ post) (row_key row) h in
      (
        absent-append pre (row ∷ post) (row_key x) a
            (find_miss row post (row_key x) (λ e. apart (sym e)) ∙ ap (shift 1) b),
        Distinct-insert pre post row d.1 later,
      )

  pub reindex_lem :
      (rows : List Row) (m : KeyMap ℕ) (i : ℕ) (k : StableKey)
      → Distinct rows
      → reindex row_key m i rows k ≡ or_else (shift i (find row_key rows k)) (m k)
  unfolding reindex find
  reindex_lem [] m i k d = refl
  reindex_lem (row ∷ rows) m i k d = elim (StableKey-discrete (map_key k) (map_key (row_key row))) [
    | yes e ↦
        let later : find row_key rows k ≡ none = find-map_key rows k (row_key row) e ∙ d.0 in
        reindex_lem rows (map_set m (row_key row) i) (i + 1) k d.1
        ∙ ap (λ o. or_else (shift (i + 1) o) (map_set m (row_key row) i k)) later
        ∙ map_set_hit m (row_key row) k i e
        ∙ ap some {y = i + 0} (omega arith)
        ∙ ap (λ o. or_else (shift i o) (m k)) (sym (find_hit row rows k e))
    | no e ↦
        reindex_lem rows (map_set m (row_key row) i) (i + 1) k d.1
        ∙ ap (or_else (shift (i + 1) (find row_key rows k))) (map_set_miss m (row_key row) k i e)
        ∙ ap (λ o. or_else o (m k)) (sym (shift-shift i 1 (find row_key rows k)))
        ∙ ap (λ o. or_else (shift i o) (m k)) (sym (find_miss row rows k e))
  ]

  -- The map has the position of every row.
  abbrev pub InSync : List Row → KeyMap ℕ → Type 0
  InSync rows m = Distinct rows × ((k : StableKey) → m k ≡ find row_key rows k)

  -- A map that is right before the rows `post` is right once they are indexed again.
  pub reindexed :
      (pre post : List Row) (m : KeyMap ℕ) (k : StableKey)
      → Distinct (pre ++ post)
      → Distinct post
      → (find row_key post k ≡ none → m k ≡ find row_key pre k)
      → reindex row_key m (length pre) post k ≡ find row_key (pre ++ post) k
  reindexed pre post m k d dp h =
      reindex_lem post m (length pre) k dp ∙ (elim (Option-cases (find row_key post k)) [
        | inl missing ↦ rw missing (
            h missing
            ∙ sym (
                find-append pre post k
                ∙ ap (λ o. or_else (find row_key pre k) (shift (length pre) o)) missing
                ∙ or_else-none (find row_key pre k)))
        | inr (j, there) ↦
            let before = disjoint pre post k d (λ n. cc) in
            ap (λ o. or_else (shift (length pre) o) (m k)) there
            ∙ ap (shift (length pre)) (sym there)
            ∙ sym (
                find-append pre post k
                ∙ ap (λ o. or_else o (shift (length pre) (find row_key post k))) before)
      ])
