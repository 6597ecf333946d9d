-- ===== src/Client/VisibleRows/Synced.antt =====
-- The map of positions, as rows are removed and inserted.
use view_server.Prelude.{
  ℕ, ◌+◌, ◌≤◌, ◌≡◌, refl, sym, ap, ◌∙◌, inl, inr, none, some, some-injective, List, [], ◌∷◌, ◌++◌,
  arith, Option-cases, length, take, drop, insert_at, remove_at, length-take, get_elem?-between,
  remove_at-between, insert_at-between, drop-between, take-append-drop,
}
use mathlib.Core.Path.{subst}
use view_server.Protocol.Value.{Row}
use view_server.Protocol.StableKey.{
  StableKey, StableKey-discrete, map_key, KeyMap, map_delete, map_delete_hit, map_delete_miss,
}
use view_server.Client.VisibleRows.{
  VisibleRows, remove_row_at, insert_row_at, reindex, reindex_from,
}
use view_server.Client.VisibleRows.Reference.{shift, find}
use view_server.Client.VisibleRows.Positions.{
  or_else, find_hit, find_miss, find-map_key, find-append, none-cons, Distinct, Distinct-remove,
  absent-remove, Distinct-insert, InSync, absent_parts, reindexed, or_else-none,
}

module _ (row_key : Row → StableKey) where
  unfoldable pub Around : List Row → StableKey → ℕ → Type 0
  Around rows k i =
      (pre : List Row) × (row : Row) × (post : List Row) × (rows ≡ pre ++ row ∷ post)
      × (length pre ≡ i)
      × (map_key k ≡ map_key (row_key row))

  -- the rows around the one that is found
  pub split-Around :
      (rows : List Row) (k : StableKey) (i : ℕ) → find row_key rows k ≡ some i → Around rows k i
  unfolding find Around
  split-Around [] k i h = cc
  split-Around (row ∷ rows) k i h = elim (StableKey-discrete (map_key k) (map_key (row_key row))) [
    | yes e ↦ ([], row, rows, refl, some-injective _ _ (sym (find_hit row_key row rows k e) ∙ h), e)
    | no e ↦
        let s : shift 1 (find row_key rows k) ≡ some i = sym (find_miss row_key row rows k e) ∙ h in
        elim (Option-cases (find row_key rows k)) [
          | inl none_found ↦ cc
          | inr (j, found) ↦
              let (pre, r, post, q, l, at) = split-Around rows k j found in
              (
                row ∷ pre,
                r,
                post,
                ap (◌∷◌ row) q,
                omega (arith, l, some-injective (1 + j) i (sym (ap (shift 1) found) ∙ s)),
                at,
              )
        ]
  ]

  -- The rows after the removed one are indexed again, which leaves no position that has moved.
  InSync-delete :
      (pre post : List Row) (row : Row) (m : KeyMap ℕ)
      → InSync row_key (pre ++ row ∷ post) m
      → InSync row_key
          (pre ++ post)
          (reindex row_key (map_delete m (row_key row)) (length pre) post)
  InSync-delete pre post row m (d, s) = (
    apart,
    λ k.
        reindexed row_key pre post (map_delete m (row_key row)) k apart (tail pre apart) (λ missing.
          elim (StableKey-discrete (map_key k) (map_key (row_key row))) [
            | yes e ↦
                map_delete_hit m (row_key row) k e
                ∙ sym (
                    (absent_parts row_key pre post k (
                      find-map_key row_key (pre ++ post) k (row_key row) e
                      ∙ absent-remove row_key pre post row d)).0)
            | no e ↦
                map_delete_miss m (row_key row) k e
                ∙ s k
                ∙ find-append row_key pre (row ∷ post) k
                ∙ ap (λ o. or_else (find row_key pre k) (shift (length pre) o))
                    (find_miss row_key row post k e ∙ ap (shift 1) missing)
                ∙ or_else-none (find row_key pre k)
          ]),
  )
    where
      apart : Distinct row_key (pre ++ post)
      apart = Distinct-remove row_key pre post row d

      tail : (front : List Row) → Distinct row_key (front ++ post) → Distinct row_key post
      tail [] d = d
      tail (x ∷ front) d = tail front d.1

  InSync-insert :
      (pre post : List Row) (row : Row) (m : KeyMap ℕ)
      → InSync row_key (pre ++ post) m
      → find row_key (pre ++ post) (row_key row) ≡ none
      → InSync row_key (pre ++ row ∷ post) (reindex row_key m (length pre) (row ∷ post))
  InSync-insert pre post row m (d, s) h = (
    apart,
    λ k. reindexed row_key pre (row ∷ post) m k apart (tail pre apart) (λ missing.
        s k
        ∙ find-append row_key pre post k
        ∙ ap (λ o. or_else (find row_key pre k) (shift (length pre) o))
            (none-cons row_key row post k missing).1
        ∙ or_else-none (find row_key pre k)),
  )
    where
      apart : Distinct row_key (pre ++ row ∷ post)
      apart = Distinct-insert row_key pre post row d h

      tail :
          (front : List Row)
          → Distinct row_key (front ++ row ∷ post)
          → Distinct row_key (row ∷ post)
      tail [] d = d
      tail (x ∷ front) d = tail front d.1

  unfoldable pub Removed : List Row → KeyMap ℕ → StableKey → ℕ → VisibleRows → Type 0
  Removed rows m k i removed =
      (removed.rows ≡ remove_at rows i)
      × InSync row_key removed.rows removed.indexes_by_key
      × (find row_key removed.rows k ≡ none)

  InSync-remove_between :
      (pre : List Row) (row : Row) (post : List Row) (m : KeyMap ℕ) (k : StableKey)
      → InSync row_key (pre ++ row ∷ post) m
      → map_key k ≡ map_key (row_key row)
      → Removed (pre ++ row ∷ post) m k (length pre) (
          remove_row_at row_key
            (record { rows = pre ++ row ∷ post; indexes_by_key = m })
            (length pre))
  unfolding remove_row_at reindex_from Removed
  InSync-remove_between pre row post m k s at =
      rw (get_elem?-between pre post row, remove_at-between pre post row, drop-between pre post)
        (
          refl,
          InSync-delete pre post row m s,
          find-map_key row_key (pre ++ post) k (row_key row) at
              ∙ absent-remove row_key pre post row s.0,
        )

  pub InSync-remove :
      (rows : List Row) (m : KeyMap ℕ) (k : StableKey) (i : ℕ)
      → InSync row_key rows m
      → find row_key rows k ≡ some i
      → Removed rows m k i (remove_row_at row_key (record { rows = rows; indexes_by_key = m }) i)
  unfolding Around
  InSync-remove rows m k i s h =
      let (pre, row, post, e, l, at) = split-Around rows k i h in
      subst
        (λ j.
          Removed rows m k j (remove_row_at row_key (record { rows = rows; indexes_by_key = m }) j))
        l
        (subst
          (λ rs.
            Removed rs m k (length pre)
              (remove_row_at row_key (record { rows = rs; indexes_by_key = m }) (length pre)))
          (sym e)
          (InSync-remove_between pre row post m k (subst (λ rs. InSync row_key rs m) e s) at))

  unfoldable pub Kept : VisibleRows → List Row → Type 0
  Kept s rows = (s.rows ≡ rows) × InSync row_key s.rows s.indexes_by_key

  unfoldable pub Inserted : KeyMap ℕ → Row → List Row → ℕ → Type 0
  Inserted m row rows i =
      Kept (insert_row_at row_key (record { rows = rows; indexes_by_key = m }) i row)
        (insert_at rows i row)

  InSync-insert_between :
      (pre post : List Row) (m : KeyMap ℕ) (row : Row)
      → InSync row_key (pre ++ post) m
      → find row_key (pre ++ post) (row_key row) ≡ none
      → Inserted m row (pre ++ post) (length pre)
  unfolding Inserted Kept insert_row_at reindex_from
  InSync-insert_between pre post m row s h =
      rw (insert_at-between pre post row, drop-between pre (row ∷ post))
        (refl, InSync-insert pre post row m s h)

  pub InSync-insert_row_at :
      (rows : List Row) (m : KeyMap ℕ) (i : ℕ) (row : Row)
      → InSync row_key rows m
      → find row_key rows (row_key row) ≡ none
      → i ≤ length rows
      → Inserted m row rows i
  InSync-insert_row_at rows m i row s h b =
      let e = take-append-drop i rows in
      subst (Inserted m row rows) {x = length (take i rows)} (omega (arith, length-take i rows)) (
        subst (λ rs. Inserted m row rs (length (take i rows))) e
          (InSync-insert_between (take i rows) (drop i rows) m row
            (subst (λ rs. InSync row_key rs m) (sym e) s)
            (subst (λ rs. find row_key rs (row_key row) ≡ none) (sym e) h)))
