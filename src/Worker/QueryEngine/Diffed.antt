-- ===== src/Worker/QueryEngine/Diffed.antt =====
-- What the operations of `diffVisibleRows` do to the rows, by the reference of the client.
use view_server.Prelude.{
  ℕ, ◌+◌, ◌^◌, ◌≤◌, ◌≡◌, refl, sym, ap, ap₂, ◌∙◌, ◌≢◌, inl, inr, Bool, true, false, ◌||◌, Option,
  none, some, List, [], ◌∷◌, ◌++◌, append_assoc, arith, if◌then◌else◌, Bool-cases, Option-cases,
  length, get_elem?, take, filter_by, insert_at, length-append, filter_by-append, get_elem?-between,
  remove_at-between, insert_at-between, take-between,
}
use mathlib.Core.Path.{subst}
use native.Mathlib.Nat.{mul-div_cancel}
use view_server.Protocol.Value.{Row}
use view_server.Protocol.StableKey.{
  StableKey, StableKey-discrete, map_key, KeyMap, map_set, map_set_hit, map_set_miss,
}
use view_server.Protocol.Delta.{upsert}
use view_server.Worker.QueryEngine.Diff.{whole, key_set, removes}
use view_server.Client.VisibleRows.{is_some, normalize_index}
use view_server.Client.VisibleRows.Reference.{
  shift, find, without, upserted, reference_operation, reference_operations,
}
use view_server.Client.VisibleRows.Positions.{
  or_else, find_hit, find_miss, find-map_key, find-append, none-cons, Distinct, Distinct-remove,
  absent-remove, absent_parts, absent-append,
}
use view_server.Client.VisibleRows.Synced.{split-Around, Around}

is_some-shift : (n : ℕ) (o : Option ℕ) → is_some (shift n o) ≡ is_some o
is_some-shift n none = refl
is_some-shift n (some i) = refl

normalize_index-whole :
    (i length fallback : ℕ) → i ≤ length → normalize_index (some (whole i)) length fallback ≡ i
unfolding normalize_index
normalize_index-whole i length fallback b =
    omega (arith, mul-div_cancel i {n = 2 ^ 1074} (omega arith))

module _ (row_key : Row → StableKey) where
  abbrev pub listed : List Row → Row → Bool
  listed rows row = is_some (find row_key rows (row_key row))

  -- the rows whose key is a key of `next`
  abbrev pub keep : List Row → List Row → List Row
  keep next rows = filter_by (listed next) rows

  listed_other :
      (row : Row) (next : List Row) (r : Row)
      → map_key (row_key r) ≢ map_key (row_key row)
      → listed (row ∷ next) r ≡ listed next r
  listed_other row next r e =
      ap is_some (find_miss row_key row next (row_key r) e)
      ∙ is_some-shift 1 (find row_key next (row_key r))

  keep_other :
      (row : Row) (next rows : List Row)
      → find row_key rows (row_key row) ≡ none
      → keep (row ∷ next) rows ≡ keep next rows
  keep_other row next [] h = refl
  keep_other row next (r ∷ rows) h =
      let (apart, later) = none-cons row_key r rows (row_key row) h in
      ap₂ (λ b rest. if b then r ∷ rest else rest) (listed_other row next r (λ e. apart (sym e)))
        (keep_other row next rows later)

  absent-keep :
      (next rows : List Row) (k : StableKey)
      → find row_key rows k ≡ none
      → find row_key (keep next rows) k ≡ none
  absent-keep next [] k h = h
  absent-keep next (r ∷ rows) k h =
      let (apart, later) = none-cons row_key r rows k h in
      elim (Bool-cases (listed next r)) [
        | inl e ↦ rw e (
            find_miss row_key r (keep next rows) k apart
            ∙ ap (shift 1) (absent-keep next rows k later))
        | inr e ↦ rw e (absent-keep next rows k later)
      ]

  pub key_set_lem :
      (rows : List Row) (m : KeyMap Bool) (k : StableKey)
      → is_some (key_set row_key m rows k) ≡ (is_some (m k) || is_some (find row_key rows k))
  unfolding key_set find
  key_set_lem [] m k = grind arith
  key_set_lem (row ∷ rows) m k = elim (StableKey-discrete (map_key k) (map_key (row_key row))) [
    | yes e ↦
        key_set_lem rows (map_set m (row_key row) true) k
        ∙ ap (λ o. is_some o || is_some (find row_key rows k))
            (map_set_hit m (row_key row) k true e)
        ∙ sym (
            ap (λ o. is_some (m k) || is_some o) (find_hit row_key row rows k e)
            ∙ or_true (is_some (m k)))
    | no e ↦
        key_set_lem rows (map_set m (row_key row) true) k
        ∙ ap (λ o. is_some o || is_some (find row_key rows k))
            (map_set_miss m (row_key row) k true e)
        ∙ sym (
            ap (λ b. is_some (m k) || b)
              (ap is_some (find_miss row_key row rows k e) ∙ is_some-shift 1 (find row_key rows k)))
  ]
    where
      or_true : (b : Bool) → (b || true) ≡ true
      or_true true = refl
      or_true false = refl

  find-between :
      (front : List Row) (row : Row) (post : List Row) (k : StableKey)
      → find row_key front k ≡ none
      → map_key k ≡ map_key (row_key row)
      → find row_key (front ++ row ∷ post) k ≡ some (length front)
  find-between front row post k h at =
      find-append row_key front (row ∷ post) k
      ∙ ap₂ (λ a b. or_else a (shift (length front) b)) h (find_hit row_key row post k at)
      ∙ ap some {x = length front + 0} (omega arith)

  without-between :
      (front : List Row) (row : Row) (post : List Row)
      → Distinct row_key (front ++ row ∷ post)
      → without row_key (front ++ row ∷ post) (find row_key (front ++ row ∷ post) (row_key row))
        ≡ front ++ post
  without-between front row post d =
      let gone =
        (absent_parts row_key front post (row_key row)
          (absent-remove row_key front post row d)).0 in
      ap (without row_key (front ++ row ∷ post))
        (find-between front row post (row_key row) gone refl)
      ∙ remove_at-between front post row

  -- The removals leave the rows whose keys stay.
  pub reference-removes :
      (keys : KeyMap Bool) (next front rows : List Row)
      → ((k : StableKey) → is_some (keys k) ≡ is_some (find row_key next k))
      → Distinct row_key (front ++ rows)
      → reference_operations row_key (front ++ rows) (removes row_key keys rows)
        ≡ front ++ keep next rows
  unfolding reference_operations reference_operation removes
  reference-removes keys next front [] same d = refl
  reference-removes keys next front (row ∷ rows) same d = elim (Bool-cases (listed next row)) [
    | inl e ↦
        rw (same (row_key row), e)
          (ap (λ rs. reference_operations row_key rs (removes row_key keys rows))
              (sym (append_assoc front (row ∷ []) rows))
            ∙ reference-removes keys next (front ++ row ∷ []) rows same
                (subst (Distinct row_key) (sym (append_assoc front (row ∷ []) rows)) d)
            ∙ append_assoc front (row ∷ []) (keep next rows))
    | inr e ↦
        rw (same (row_key row), e)
          (ap (λ rs. reference_operations row_key rs (removes row_key keys rows))
              (without-between front row rows d)
            ∙ reference-removes keys next front rows same
                (Distinct-remove row_key front rows row d))
  ]

  insert_at-placed :
      (front rest : List Row) (row : Row) (fallback : ℕ)
      → insert_at
          (front ++ rest)
          (normalize_index (some (whole (length front))) (length (front ++ rest)) fallback)
          row
        ≡ front ++ row ∷ rest
  insert_at-placed front rest row fallback =
      ap (λ i. insert_at (front ++ rest) i row)
        (normalize_index-whole (length front) (length (front ++ rest)) fallback
          (omega (arith, length-append front rest)))
      ∙ insert_at-between front rest row

  -- What a row that was there leaves of the rows to keep.
  keep-around :
      (row : Row) (next before : List Row) (p : Row) (after : List Row)
      → map_key (row_key row) ≡ map_key (row_key p)
      → find row_key next (row_key row) ≡ none
      → Distinct row_key (before ++ p ∷ after)
      → (keep (row ∷ next) (before ++ p ∷ after) ≡ keep next before ++ p ∷ keep next after)
        × (keep next (before ++ p ∷ after) ≡ keep next before ++ keep next after)
  keep-around row next before p after at fresh d =
      let gone = absent_parts row_key before after (row_key row) (
        find-map_key row_key (before ++ after) (row_key row) (row_key p) at
        ∙ absent-remove row_key before after p d) in
      let in_new : listed (row ∷ next) p ≡ true =
        ap is_some (find_hit row_key row next (row_key p) (sym at)) in
      let in_old : listed next p ≡ false =
        ap is_some (find-map_key row_key next (row_key p) (row_key row) (sym at) ∙ fresh) in
      (
        filter_by-append (listed (row ∷ next)) before (p ∷ after)
            ∙ ap₂ ◌++◌ (keep_other row next before gone.0) (
                ap₂ (λ b rest. if b then p ∷ rest else rest) in_new
                  (keep_other row next after gone.1)),
        filter_by-append (listed next) before (p ∷ after)
            ∙ ap (λ b. keep next before ++ (if b then p ∷ keep next after else keep next after))
                in_old,
      )

  upserted-moved :
      (front before : List Row) (p : Row) (after : List Row) (row : Row)
      → find row_key (front ++ before) (row_key row) ≡ none
      → map_key (row_key row) ≡ map_key (row_key p)
      → let rows = (front ++ before) ++ p ∷ after in
        upserted row_key rows row (some (whole (length front))) (find row_key rows (row_key row))
        ≡ front ++ row ∷ (before ++ after)
  upserted-moved front before p after row gone at =
      rw
        (
          find-between (front ++ before) p after (row_key row) gone at,
          remove_at-between (front ++ before) after p,
          append_assoc front before after,
        )
        (insert_at-placed front (before ++ after) row _)

  pub upsert-placed :
      (front next previous : List Row) (row : Row)
      → find row_key front (row_key row) ≡ none
      → find row_key next (row_key row) ≡ none
      → Distinct row_key previous
      → reference_operation row_key
          (front ++ keep (row ∷ next) previous)
          (upsert row (some (row_key row)) (some (whole (length front))))
        ≡ front ++ row ∷ keep next previous
  unfolding reference_operation Around
  upsert-placed front next previous row apart fresh d =
      elim (Option-cases (find row_key previous (row_key row))) [
        | inl absent ↦
            rw
              (
                keep_other row next previous absent,
                absent-append row_key front (keep next previous) (row_key row) apart
                    (absent-keep next previous (row_key row) absent),
              )
              (insert_at-placed front (keep next previous) row _)
        | inr (j, there) ↦
            let (before, p, after, e, l, at) =
              split-Around row_key previous (row_key row) j there in
            let ds = subst (Distinct row_key) e d in
            let (with_p, without_p) = keep-around row next before p after at fresh ds in
            let gone = absent_parts row_key before after (row_key row) (
              find-map_key row_key (before ++ after) (row_key row) (row_key p) at
              ∙ absent-remove row_key before after p ds) in
            let same : front ++ keep (row ∷ next) previous
                ≡ (front ++ keep next before) ++ p ∷ keep next after =
              ap (λ rs. front ++ keep (row ∷ next) rs) e
              ∙ ap (◌++◌ front) with_p
              ∙ sym (append_assoc front (keep next before) (p ∷ keep next after)) in
            ap
              (λ rs.
                upserted row_key rs row (some (whole (length front)))
                  (find row_key rs (row_key row)))
              same
            ∙ upserted-moved front (keep next before) p (keep next after) row
                (absent-append row_key front (keep next before) (row_key row) apart
                  (absent-keep next before (row_key row) gone.0))
                at
            ∙ ap (λ rs. front ++ row ∷ rs) (sym (ap (keep next) e ∙ without_p))
      ]

  -- A row that stays where it is, with nothing before it that is still to come.
  pub keep-unmoved :
      (next previous : List Row) (row : Row) (i : ℕ)
      → find row_key next (row_key row) ≡ none
      → Distinct row_key previous
      → find row_key previous (row_key row) ≡ some i
      → ((p : Row)
          → get_elem? previous i ≡ some p
          → map_key (row_key row) ≡ map_key (row_key p)
          → keep (row ∷ next) (take i previous) ≡ [])
      → (p : Row) × (get_elem? previous i ≡ some p)
        × (map_key (row_key row) ≡ map_key (row_key p))
        × (keep (row ∷ next) previous ≡ p ∷ keep next previous)
  unfolding Around
  keep-unmoved next previous row i fresh d there early =
      let (before, p, after, e, l, at) = split-Around row_key previous (row_key row) i there in
      let ds = subst (Distinct row_key) e d in
      let (with_p, without_p) = keep-around row next before p after at fresh ds in
      let gone = absent_parts row_key before after (row_key row) (
        find-map_key row_key (before ++ after) (row_key row) (row_key p) at
        ∙ absent-remove row_key before after p ds) in
      let stands = ap₂ get_elem? e (sym l) ∙ get_elem?-between before after p in
      let empty : keep next before ≡ [] =
        sym (keep_other row next before gone.0)
        ∙ ap (keep (row ∷ next)) (sym (ap₂ take (sym l) e ∙ take-between before (p ∷ after)))
        ∙ early p stands at in
      (
        p,
        stands,
        at,
        ap (keep (row ∷ next)) e
            ∙ with_p
            ∙ ap (λ rs. rs ++ p ∷ keep next after) empty
            ∙ ap (◌∷◌ p)
                (sym (ap (keep next) e ∙ without_p ∙ ap (λ rs. rs ++ keep next after) empty)),
      )
