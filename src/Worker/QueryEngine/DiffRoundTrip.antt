-- ===== src/Worker/QueryEngine/DiffRoundTrip.antt =====
-- The server's delta (`diffVisibleRows`) at the client (`applyDeltaOperationsSequentially`).
use view_server.Prelude.{
  ℕ, ◌+◌, ◌≡◌, refl, sym, ap, ◌∙◌, ◌≢◌, ◌⊎◌, inl, inr, Bool, true, false, ◌&&◌, Option, none, some,
  List, [], ◌∷◌, ◌++◌, append_assoc, arith, ℕ_discrete, ◌==◌, Bool-cases, length, get_elem?, take,
  All, length-append,
}
use mathlib.Core.Path.{subst}
use view_server.Protocol.Value.{Row}
use view_server.Worker.FanoutQueue.Queued.{All-append}
use view_server.Protocol.StableKey.{StableKey, map_key, KeyMap, empty_map}
use view_server.Protocol.Host.{Host}
use view_server.Protocol.Delta.{DeltaOperation, upsert}
use view_server.Worker.Projection.{projected_rows_equal}
use view_server.Worker.QueryEngine.Diff.{
  whole, key_set, removes, unmoved, upserts, diff_visible_rows,
}
use view_server.Worker.QueryEngine.Diffed.{
  keep, key_set_lem, reference-removes, upsert-placed, keep-unmoved,
}
use view_server.Client.VisibleRows.{is_some, index_rows, apply_delta_operations_sequentially}
use view_server.Client.VisibleRows.Reference.{find, reference_operation, reference_operations}
use view_server.Client.VisibleRows.Positions.{
  find_hit, find_miss, find-map_key, none-cons, Distinct, absent-append, InSync,
}
use view_server.Client.VisibleRows.Sequential.{
  Keyed, InSync-index_rows, apply_delta_operations_sequentially-reference,
}

reference_operations-append :
    (row_key : Row → StableKey) (rows : List Row) (first second : List DeltaOperation)
    → reference_operations row_key rows (first ++ second)
      ≡ reference_operations row_key (reference_operations row_key rows first) second
unfolding reference_operations
reference_operations-append row_key rows [] second = refl
reference_operations-append row_key rows (operation ∷ first) second =
    reference_operations-append row_key (reference_operation row_key rows operation) first second

module _ (host : Host) (row_key : Row → StableKey) where
  -- The client's row is the server's, or one with its key that `rowsEqual` takes for it.
  abbrev pub Shows : Row → Row → Type 0
  Shows shown row =
      (shown ≡ row)
      ⊎ (map_key (row_key row) ≡ map_key (row_key shown))
        × (projected_rows_equal host (some shown) row ≡ true)

  abbrev pub AllShow : List Row → List Row → Type 0
  AllShow [] [] = Unit
  AllShow (x ∷ xs) [] = ⊥
  AllShow [] (y ∷ ys) = ⊥
  AllShow (x ∷ xs) (y ∷ ys) = Shows x y × AllShow xs ys

  -- Of the next rows, from `index` on: where one is as before at its place, none of the previous rows
  -- above that place comes at it or below.
  abbrev pub Uncrossed : List Row → ℕ → List Row → Type 0
  Uncrossed previous index [] = Unit
  Uncrossed previous index (row ∷ next) =
      ((p : Row)
        → get_elem? previous index ≡ some p
        → map_key (row_key row) ≡ map_key (row_key p)
        → projected_rows_equal host (some p) row ≡ true
        → keep row_key (row ∷ next) (take index previous) ≡ [])
      × Uncrossed previous (index + 1) next

  Upserted : List Row → List Row → List DeltaOperation → List Row → Type 0
  Upserted front rows operations next =
      (shown : List Row) × (reference_operations row_key rows operations ≡ front ++ shown)
      × AllShow shown next

  unmoved-cases :
      (previous : List Row) (o : Option ℕ) (index : ℕ) (row : Row)
      → (unmoved host row_key previous o index row ≡ false)
        ⊎ (unmoved host row_key previous o index row ≡ true)
          × (o ≡ some index)
          × (projected_rows_equal host (get_elem? previous index) row ≡ true)
  unmoved-cases previous none index row = inl refl
  unmoved-cases previous (some i) index row = elim (ℕ_discrete i index) [
    | yes e ↦ elim (Bool-cases (projected_rows_equal host (get_elem? previous i) row)) [
      | inl equal ↦ inr (
        rw equal (same i index e),
        ap some e,
        ap (λ k. projected_rows_equal host (get_elem? previous k) row) (sym e) ∙ equal,
      )
      | inr changed ↦ inl (rw changed (and_false (i == index)))
    ]
    | no n ↦
        inl (ap (λ b. b && projected_rows_equal host (get_elem? previous i) row) (other i index n))
  ]
    where
      same : (a b : ℕ) → a ≡ b → ((a == b) && true) ≡ true
      same a b e = ground arith

      other : (a b : ℕ) → a ≢ b → (a == b) ≡ false
      other a b n = ground arith

      and_false : (b : Bool) → (b && false) ≡ false
      and_false true = refl
      and_false false = refl

  keep_nothing : (rows : List Row) → keep row_key [] rows ≡ []
  unfolding find
  keep_nothing [] = refl
  keep_nothing (row ∷ rows) = keep_nothing rows

  reference-upserts :
      (previous : List Row) (m : KeyMap ℕ) (front next : List Row) (index : ℕ)
      → InSync row_key previous m
      → length front ≡ index
      → Distinct row_key next
      → ((k : StableKey) → find row_key next k ≢ none → find row_key front k ≡ none)
      → Uncrossed previous index next
      → Upserted front
          (front ++ keep row_key next previous)
          (upserts host row_key previous m index next)
          next
  unfolding Upserted upserts reference_operations find
  reference-upserts previous m front [] index sync l d apart u =
      ([], ap (◌++◌ front) (keep_nothing previous), tt)
  reference-upserts previous m front (row ∷ next) index sync l (new, d) apart (here, u) =
      let in_row : find row_key (row ∷ next) (row_key row) ≡ some 0 =
        find_hit row_key row next (row_key row) refl in
      let after : (shown : Row)
          → Shows shown row
          → map_key (row_key row) ≡ map_key (row_key shown)
          → Upserted front (front ++ shown ∷ keep row_key next previous)
              (upserts host row_key previous m (index + 1) next) (row ∷ next) =
        λ shown shows at.
          let (later, e, all) =
            reference-upserts previous m (front ++ shown ∷ []) next (index + 1) sync
              (length-append front (shown ∷ []) ∙ omega (arith, l)) d
              (λ k there.
                absent-append row_key front (shown ∷ []) k
                  (apart k (λ n. there (none-cons row_key row next k n).1))
                  (find_miss row_key shown [] k
                    (λ e. there (find-map_key row_key next k (row_key row) (e ∙ sym at) ∙ new))))
              u in
          (
            shown ∷ later,
            ap
                  (λ rows.
                    reference_operations row_key rows
                      (upserts host row_key previous m (index + 1) next))
                  (sym (append_assoc front (shown ∷ []) (keep row_key next previous)))
                ∙ e
                ∙ append_assoc front (shown ∷ []) later,
            (shows, all),
          ) in
      elim (unmoved-cases previous (m (row_key row)) index row) [
        | inl changed ↦
            let (shown, e, all) = after row (inl refl) refl in
            rw changed (
              shown,
              ap
                    (λ rows.
                      reference_operations row_key rows
                        (upserts host row_key previous m (index + 1) next))
                    (ap
                        (λ i.
                          reference_operation row_key (front ++ keep row_key (row ∷ next) previous)
                            (upsert row (some (row_key row)) (some (whole i))))
                        (sym l)
                      ∙ upsert-placed row_key front next previous row
                          (apart (row_key row) (λ n. cc)) new sync.0)
                  ∙ e,
              all,
            )
        | inr (still, at, equal) ↦
            let (p, stands, same, kept) =
              keep-unmoved row_key next previous row index new sync.0
                (sym (sync.1 (row_key row)) ∙ at)
                (λ p stands same.
                  here p stands same
                    (ap (λ o. projected_rows_equal host o row) (sym stands) ∙ equal)) in
            let (shown, e, all) =
              after p (inr (same, ap (λ o. projected_rows_equal host o row) (sym stands) ∙ equal))
                same in
            rw still (
              shown,
              ap
                    (λ rows.
                      reference_operations row_key rows
                        (upserts host row_key previous m (index + 1) next))
                    (ap (◌++◌ front) kept)
                  ∙ e,
              all,
            )
      ]

  -- All operations of the delta name a row by its own key.
  Keyed-removes :
      (keys : KeyMap Bool) (rows : List Row) → All (Keyed row_key) (removes row_key keys rows)
  unfolding removes
  Keyed-removes keys [] = tt
  Keyed-removes keys (row ∷ rows) = elim (Bool-cases (is_some (keys (row_key row)))) [
    | inl e ↦ rw e (Keyed-removes keys rows)
    | inr e ↦ rw e (tt, Keyed-removes keys rows)
  ]

  Keyed-upserts :
      (previous : List Row) (m : KeyMap ℕ) (index : ℕ) (next : List Row)
      → All (Keyed row_key) (upserts host row_key previous m index next)
  unfolding upserts
  Keyed-upserts previous m index [] = tt
  Keyed-upserts previous m index (row ∷ next) =
      elim (Bool-cases (unmoved host row_key previous (m (row_key row)) index row)) [
        | inl e ↦ rw e (Keyed-upserts previous m (index + 1) next)
        | inr e ↦ rw e (refl, Keyed-upserts previous m (index + 1) next)
      ]

-- On rows with distinct keys, where a row that stands unchanged at its place has no row before it
-- that is to come after it, the client that applies the server's delta to the previous rows shows
-- the next ones: each of its rows is the next row at that place, or one with its key that
-- `rowsEqual` takes for it.
pub diff_visible_rows-reproduces :
    (host : Host) (row_key : Row → StableKey) (previous next : List Row)
    → Distinct row_key previous
    → Distinct row_key next
    → Uncrossed host row_key previous 0 next
    → AllShow host row_key
        (apply_delta_operations_sequentially row_key previous
          (diff_visible_rows host row_key previous next))
        next
unfolding diff_visible_rows Upserted find
diff_visible_rows-reproduces host row_key previous next dp dn u =
    let keys = key_set row_key empty_map next in
    let m = index_rows row_key previous in
    let keyed =
      All-append (Keyed row_key) (removes row_key keys previous)
        (upserts host row_key previous m 0 next) (Keyed-removes host row_key keys previous)
        (Keyed-upserts host row_key previous m 0 next) in
    let (shown, e, all) =
      reference-upserts host row_key previous m [] next 0 (InSync-index_rows row_key previous dp)
        refl dn (λ k there. nothing k) u in
    subst (λ rows. AllShow host row_key rows next)
      (sym (
        (apply_delta_operations_sequentially-reference row_key previous
          (diff_visible_rows host row_key previous next) dp keyed).0
        ∙ reference_operations-append row_key previous (removes row_key keys previous)
            (upserts host row_key previous m 0 next)
        ∙ ap (λ rows. reference_operations row_key rows (upserts host row_key previous m 0 next))
            (reference-removes row_key keys next [] previous
              (λ k. key_set_lem row_key next empty_map k) dp)
        ∙ e))
      all
  where
    nothing : (k : StableKey) → find row_key [] k ≡ none
    nothing k = refl
