-- ===== src/Worker/QueryEngine/Diff.antt =====
-- worker/query-engine.ts: the delta from the rows that a client shows to the next ones
-- (`diffVisibleRows`). `row_key` is the function that the code takes.
use view_server.Prelude.{
  ℕ, ◌+◌, ◌*◌, ◌^◌, Bool, true, false, ◌&&◌, Option, none, some, List, [], ◌∷◌, ◌++◌, ◌==◌,
  if◌then◌else◌, get_elem?,
}
use view_server.Protocol.Value.{Number, finite, Row}
use view_server.Protocol.StableKey.{StableKey, KeyMap, empty_map, map_set}
use view_server.Protocol.Host.{Host}
use view_server.Protocol.Delta.{DeltaOperation, upsert, remove}
use view_server.Worker.Projection.{projected_rows_equal}
use view_server.Client.VisibleRows.{is_some, index_rows}

-- An array index, as a number.
abbrev pub whole : ℕ → Number
whole i = finite false (i * 2 ^ 1074)

module _ (row_key : Row → StableKey) where
  -- The set `nextKeys`, from what it has before these rows.
  unfoldable pub key_set : KeyMap Bool → List Row → KeyMap Bool
  key_set m [] = m
  key_set m (row ∷ rows) = key_set (map_set m (row_key row) true) rows

  -- The loop over the previous rows.
  unfoldable pub removes : KeyMap Bool → List Row → List DeltaOperation
  removes next_keys [] = []
  removes next_keys (row ∷ rows) =
      let rest = removes next_keys rows in
      if is_some (next_keys (row_key row)) then rest else remove (row_key row) ∷ rest

module _ (host : Host) (row_key : Row → StableKey) where
  -- The row's key is at `found` of the previous rows: none of the three conditions of an upsert holds.
  abbrev pub unmoved : List Row → Option ℕ → ℕ → Row → Bool
  unmoved previous none index row = false
  unmoved previous (some i) index row =
      i == index && projected_rows_equal host (get_elem? previous i) row

  -- The loop over the next rows, at `index`.
  unfoldable pub upserts : List Row → KeyMap ℕ → ℕ → List Row → List DeltaOperation
  upserts previous indexes index [] = []
  upserts previous indexes index (row ∷ rows) =
      let rest = upserts previous indexes (index + 1) rows in
      if unmoved previous (indexes (row_key row)) index row
      then rest
      else upsert row (some (row_key row)) (some (whole index)) ∷ rest

  unfoldable pub diff_visible_rows : List Row → List Row → List DeltaOperation
  unfolding key_set removes upserts index_rows
  diff_visible_rows previous next =
      removes row_key (key_set row_key empty_map next) previous
      ++ upserts previous (index_rows row_key previous) 0 next
