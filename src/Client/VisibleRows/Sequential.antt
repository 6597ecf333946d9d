-- ===== src/Client/VisibleRows/Sequential.antt =====
-- The client's delta operations, beside the map of positions and the reference.
use view_server.Prelude.{
  ℕ, ◌+◌, ◌≤◌, ◌≡◌, refl, sym, ap, ap₂, ◌∙◌, ◌≢◌, inl, inr, true, false, Option, none, some,
  some-injective, List, [], ◌∷◌, arith, Option-cases, length, get_elem?, insert_at, remove_at, All,
  get_elem?-between,
}
use view_server.Protocol.Value.{Number, finite, Row}
use view_server.Protocol.StableKey.{
  StableKey, StableKey-discrete, map_key, KeyMap, empty_map, map_set, map_set_miss,
}
use view_server.Protocol.Delta.{DeltaOperation, upsert, patch, remove}
use view_server.Client.VisibleRows.{
  VisibleRows, or_default, normalize_index, assign, index_from, index_rows, remove_row_at,
  insert_row_at, remove_if_found, patch_if_found, upsert_row, reindex,
  apply_delta_operation_with_index, apply_all_with_index, apply_delta_operations_sequentially,
}
use view_server.Client.VisibleRows.Reference.{
  shift, find, without, patched, upserted, reference_operation, reference_operations,
}
use view_server.Client.VisibleRows.Positions.{
  find_hit, find-map_key, none-cons, Distinct, InSync, shift_zero, reindex_lem, or_else-none,
}
use view_server.Client.VisibleRows.Synced.{
  split-Around, Around, InSync-remove, InSync-insert_row_at, Kept, Removed, Inserted,
}

normalize_index-bound :
    (to : Option Number) (length fallback : ℕ) → normalize_index to length fallback ≤ length
unfolding normalize_index
normalize_index-bound none length fallback = omega arith
normalize_index-bound (some (finite true m)) length fallback = omega arith
normalize_index-bound (some (finite false m)) length fallback = omega arith
normalize_index-bound (some _) length fallback = omega arith

module _ (row_key : Row → StableKey) where
  -- What an operation must satisfy: it names the row by its own key, and changes no row's key.
  abbrev pub Keyed : DeltaOperation → Type 0
  Keyed (upsert row key to) = map_key (or_default key (row_key row)) ≡ map_key (row_key row)
  Keyed (patch key changes to) =
      (row : Row) → map_key (row_key (assign row changes)) ≡ map_key (row_key row)
  Keyed (remove key) = Unit

  -- The three parts of an operation, by what is found.
  remove_if_found_lem :
      (rows : List Row) (m : KeyMap ℕ) (k : StableKey) (o : Option ℕ)
      → InSync row_key rows m
      → find row_key rows k ≡ o
      → let removed = remove_if_found row_key (record { rows = rows; indexes_by_key = m }) o in
        Kept row_key removed (without row_key rows o) × (find row_key removed.rows k ≡ none)
  unfolding Kept Removed
  remove_if_found_lem rows m k none s h = ((refl, s), h)
  remove_if_found_lem rows m k (some i) s h =
      let (e, kept, gone) = InSync-remove row_key rows m k i s h in ((e, kept), gone)

  Kept-insert_row_at :
      (s : VisibleRows) (rows : List Row) (i j : ℕ) (row : Row)
      → Kept row_key s rows
      → find row_key s.rows (row_key row) ≡ none
      → i ≤ length s.rows
      → i ≡ j
      → Kept row_key (insert_row_at row_key s i row) (insert_at rows j row)
  unfolding Kept Inserted
  Kept-insert_row_at s rows i j row (e, kept) gone bound same =
      let (f, inserted) =
        InSync-insert_row_at row_key s.rows s.indexes_by_key i row kept gone bound in
      (f ∙ ap₂ (λ rs k. insert_at rs k row) e same, inserted)

  get_elem?-found :
      (rows : List Row) (k : StableKey) (i : ℕ) (row : Row)
      → find row_key rows k ≡ some i
      → get_elem? rows i ≡ some row
      → map_key k ≡ map_key (row_key row)
  unfolding Around
  get_elem?-found rows k i row h there =
      let (pre, r, post, e, l, at) = split-Around row_key rows k i h in
      let same : some r ≡ some row =
        sym (get_elem?-between pre post r) ∙ ap₂ get_elem? (sym e) l ∙ there in
      at ∙ ap (λ x. map_key (row_key x)) (some-injective r row same)

  apply-patch :
      (rows : List Row) (m : KeyMap ℕ) (k : StableKey) (changes : Row) (to : Option Number)
      (o : Option ℕ)
      → InSync row_key rows m
      → ((row : Row) → map_key (row_key (assign row changes)) ≡ map_key (row_key row))
      → find row_key rows k ≡ o
      → Kept row_key
          (patch_if_found row_key (record { rows = rows; indexes_by_key = m }) changes to o)
          (patched row_key rows changes to o)
  unfolding Kept
  apply-patch rows m k changes to none s keyed h = (refl, s)
  apply-patch rows m k changes to (some i) s keyed h = elim (Option-cases (get_elem? rows i)) [
    | inl missing ↦ rw missing (refl, s)
    | inr (previous, there) ↦
        let (kept, gone) = remove_if_found_lem rows m k (some i) s h in
        let removed = remove_row_at row_key (record { rows = rows; indexes_by_key = m }) i in
        let at = get_elem?-found rows k i previous h there in
        rw there (
          Kept-insert_row_at removed (remove_at rows i) _ _ (assign previous changes) kept
            (find-map_key row_key removed.rows _ k (keyed previous ∙ sym at) ∙ gone)
            (normalize_index-bound to (length removed.rows) i)
            (ap (λ rs. normalize_index to (length rs) i) kept.0))
  ]

  apply-upsert :
      (rows : List Row) (m : KeyMap ℕ) (k : StableKey) (row : Row) (to : Option Number)
      (o : Option ℕ)
      → InSync row_key rows m
      → map_key k ≡ map_key (row_key row)
      → find row_key rows k ≡ o
      → Kept row_key
          (upsert_row row_key (record { rows = rows; indexes_by_key = m }) row to o)
          (upserted row_key rows row to o)
  unfolding Kept
  apply-upsert rows m k row to o s keyed h =
      let (kept, gone) = remove_if_found_lem rows m k o s h in
      let removed = remove_if_found row_key (record { rows = rows; indexes_by_key = m }) o in
      Kept-insert_row_at removed (without row_key rows o) _ _ row kept
        (find-map_key row_key removed.rows (row_key row) k (sym keyed) ∙ gone)
        (normalize_index-bound to (length removed.rows) (or_default o (length rows)))
        (ap (λ rs. normalize_index to (length rs) (or_default o (length rows))) kept.0)

  Kept-apply :
      (s : VisibleRows) (operation : DeltaOperation)
      → InSync row_key s.rows s.indexes_by_key
      → Keyed operation
      → Kept row_key
          (apply_delta_operation_with_index row_key s operation)
          (reference_operation row_key s.rows operation)
  unfolding apply_delta_operation_with_index reference_operation
  Kept-apply s (remove key) sync keyed =
      rw (sync.1 key) (remove_if_found_lem s.rows s.indexes_by_key key _ sync refl).0
  Kept-apply s (patch key changes to) sync keyed =
      rw (sync.1 key) (apply-patch s.rows s.indexes_by_key key changes to _ sync keyed refl)
  Kept-apply s (upsert row key to) sync keyed =
      rw (sync.1 (or_default key (row_key row))) (
        apply-upsert s.rows s.indexes_by_key (or_default key (row_key row)) row to _ sync keyed
          refl)

  Kept-operations :
      (operations : List DeltaOperation) (s : VisibleRows)
      → InSync row_key s.rows s.indexes_by_key
      → All Keyed operations
      → Kept row_key
          (apply_all_with_index row_key s operations)
          (reference_operations row_key s.rows operations)
  unfolding apply_all_with_index reference_operations Kept
  Kept-operations [] s sync keyed = (refl, sync)
  Kept-operations (operation ∷ operations) s sync (first, rest) =
      let (e, kept) = Kept-apply s operation sync first in
      let (f, all) =
        Kept-operations operations (apply_delta_operation_with_index row_key s operation) kept
          rest in
      (f ∙ ap (λ rs. reference_operations row_key rs operations) e, all)

  -- With distinct keys `indexRows` sets every row's position.
  index_from_eq :
      (rows : List Row) (m : KeyMap ℕ) (i : ℕ)
      → Distinct row_key rows
      → ((k : StableKey) → find row_key rows k ≢ none → m k ≡ none)
      → index_from row_key m i rows ≡ reindex row_key m i rows
  unfolding index_from reindex
  index_from_eq [] m i d fresh = refl
  index_from_eq (row ∷ rows) m i (new, d) fresh =
      rw (fresh (row_key row) (λ e. cc (find_hit row_key row rows (row_key row) refl))) (
        index_from_eq rows (map_set m (row_key row) i) (i + 1) d (λ k there.
          elim (StableKey-discrete (map_key k) (map_key (row_key row))) [
            | yes e ↦ absurd (there (find-map_key row_key rows k (row_key row) e ∙ new))
            | no e ↦
                map_set_miss m (row_key row) k i e
                ∙ fresh k (λ gone. there (none-cons row_key row rows k gone).1)
          ]))

  pub InSync-index_rows :
      (rows : List Row) → Distinct row_key rows → InSync row_key rows (index_rows row_key rows)
  unfolding index_rows
  InSync-index_rows rows d = (
    d,
    λ k.
        ap (λ m. m k) (index_from_eq rows empty_map 0 d (λ j there. refl))
        ∙ reindex_lem row_key rows empty_map 0 k d
        ∙ or_else-none (shift 0 (find row_key rows k))
        ∙ shift_zero (find row_key rows k),
  )

-- On rows with distinct keys, for operations that name a row by its own key and change no key, the
-- client's positions are right throughout: its rows are those of the reference, which looks every
-- row up in the list, and their keys stay distinct.
pub apply_delta_operations_sequentially-reference :
    (row_key : Row → StableKey) (rows : List Row) (operations : List DeltaOperation)
    → Distinct row_key rows
    → All (Keyed row_key) operations
    → (apply_delta_operations_sequentially row_key rows operations
        ≡ reference_operations row_key rows operations)
      × Distinct row_key (apply_delta_operations_sequentially row_key rows operations)
unfolding apply_delta_operations_sequentially Kept
apply_delta_operations_sequentially-reference row_key rows operations distinct keyed =
    let start : VisibleRows = record { rows = rows; indexes_by_key = index_rows row_key rows } in
    let (e, kept) =
      Kept-operations row_key operations start (InSync-index_rows row_key rows distinct) keyed in
    (e, kept.0)
