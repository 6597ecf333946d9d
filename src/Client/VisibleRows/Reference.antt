-- ===== src/Client/VisibleRows/Reference.antt =====
-- What a delta means for a list of rows: each operation finds its row by key in the list itself.
use view_server.Prelude.{
  ℕ, ◌+◌, Option, none, some, List, [], ◌∷◌, length, get_elem?, insert_at, remove_at, ite,
}
use view_server.Protocol.Value.{Number, Row}
use view_server.Protocol.StableKey.{StableKey, StableKey-discrete, map_key}
use view_server.Protocol.Delta.{DeltaOperation, upsert, patch, remove}
use view_server.Client.VisibleRows.{normalize_index, assign, or_default}

-- the position `n` places on
abbrev pub shift : ℕ → Option ℕ → Option ℕ
shift n none = none
shift n (some i) = some (n + i)

module _ (row_key : Row → StableKey) where
  -- the position of the first row with the key
  unfoldable pub find : List Row → StableKey → Option ℕ
  find [] key = none
  find (row ∷ rows) key =
      ite (StableKey-discrete (map_key key) (map_key (row_key row))) (some 0)
        (shift 1 (find rows key))

  abbrev pub without : List Row → Option ℕ → List Row
  without rows none = rows
  without rows (some i) = remove_at rows i

  abbrev pub moved : List Row → ℕ → Row → Option Number → Option Row → List Row
  moved rows i changes to none = rows
  moved rows i changes to (some previous) =
      insert_at (remove_at rows i) (normalize_index to (length (remove_at rows i)) i)
        (assign previous changes)

  abbrev pub patched : List Row → Row → Option Number → Option ℕ → List Row
  patched rows changes to none = rows
  patched rows changes to (some i) = moved rows i changes to (get_elem? rows i)

  abbrev pub upserted : List Row → Row → Option Number → Option ℕ → List Row
  upserted rows row to found =
      insert_at (without rows found)
        (normalize_index to (length (without rows found)) (or_default found (length rows))) row

  unfoldable pub reference_operation : List Row → DeltaOperation → List Row
  reference_operation rows (remove key) = without rows (find rows key)
  reference_operation rows (patch key changes to) = patched rows changes to (find rows key)
  reference_operation rows (upsert row key to) =
      upserted rows row to (find rows (or_default key (row_key row)))

  unfoldable pub reference_operations : List Row → List DeltaOperation → List Row
  unfolding reference_operation
  reference_operations rows [] = rows
  reference_operations rows (operation ∷ operations) =
      reference_operations (reference_operation rows operation) operations
