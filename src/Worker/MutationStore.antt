-- ===== src/Worker/MutationStore.antt =====
-- worker/mutation-store.ts: the authoritative rows of a topic, their id index, the version counter
-- and the mutation log. A method returns the new store; `none` is the `TypeError` that the code
-- throws on a row whose id field holds no key, or on reading keys of `undefined`.
-- A row is a value here, so the copies `{ ...row }` are the row itself.
pub mod Index
pub mod Removal
pub mod Build
pub mod Steps
pub mod History
use text.Mathlib.Text.{◌==◌ as str_eq}
use view_server.Prelude.{
  ℕ, zero, suc, String, Bool, true, false, ◌+◌, ◌-◌, Option, none, some, List, [], ◌∷◌, ◌++◌,
  length, get_elem?, set, drop_last, ◌==◌, ◌||◌, if◌then◌else◌, ite, filter_by, not,
}
use view_server.Protocol.Value.{Value, Value-discrete, Row, read, keys}
use view_server.Protocol.StableKey.{
  StableKey, KeyMap, empty_map, map_set, map_delete, stable_key_from_value, stable_key_from_row,
  is_stable_key,
}
use view_server.Worker.MutationLog.{
  MutationKind, inserted, updated, deleted, MutationLogEntry, MutationLog, new_log, append,
  covers_exclusive, entries_exclusive,
}

-- A `Set` of strings, in insertion order.
unfoldable pub contains : List String → String → Bool
contains [] name = false
contains (x ∷ xs) name = str_eq x name || contains xs name

set_add : List String → List String → List String
unfolding contains
set_add seen [] = seen
set_add seen (name ∷ names) = set_add (if contains seen name then seen else seen ++ name ∷ []) names

-- `new Set(names)`
unfoldable pub set_of : List String → List String
unfolding set_add
set_of names = set_add [] names

-- `changedFields` of worker/query-engine.ts
unfoldable pub changed_fields : Row → Row → List String
unfolding set_of
changed_fields previous next =
    filter_by (λ field. ite (Value-discrete (read previous field) (read next field)) false true)
      (set_of (keys previous ++ keys next))

pub record MutationStore : Type 0 where
  pub id_field : String
  pub mutation_log : MutationLog
  pub rows : List Row
  pub id_index : KeyMap ℕ
  pub version : ℕ

pub record MutationStoreChange : Type 0 where
  pub from_version : ℕ
  pub to_version : ℕ
  pub entry : MutationLogEntry

-- the constructor
unfoldable pub new_store : String → ℕ → MutationStore
new_store id_field mutation_log_size = record {
  id_field = id_field;
  mutation_log = new_log mutation_log_size;
  rows = [];
  id_index = empty_map;
  version = 0;
}

-- One row of `#replaceIndexes`: a row with no key is left out.
index_row : KeyMap ℕ → Value → ℕ → KeyMap ℕ
index_row m id index = elim (stable_key_from_value id) [ none ↦ m | some key ↦ map_set m key index ]

-- `#replaceIndexes`, at row `index`
unfoldable pub replace_indexes : String → KeyMap ℕ → ℕ → List Row → KeyMap ℕ
unfolding index_row
replace_indexes id_field m index [] = m
replace_indexes id_field m index (row ∷ rows) =
    replace_indexes id_field (index_row m (read row id_field) index) (index + 1) rows

unfoldable pub load_initial_rows : MutationStore → List Row → MutationStore
unfolding replace_indexes
load_initial_rows s rows = record s {
  rows = rows;
  id_index = replace_indexes s.id_field empty_map 0 rows;
}

unfoldable pub row_by_id : MutationStore → StableKey → Option Row
row_by_id s id = elim (s.id_index id) [ none ↦ none | some index ↦ get_elem? s.rows index ]

-- `#appendMutation`, given what becomes of the rows and the index.
unfoldable pub append_mutation :
    MutationStore
    → List Row
    → KeyMap ℕ
    → MutationKind
    → StableKey
    → Option Row
    → Option Row
    → List String
    → MutationStore × MutationStoreChange
append_mutation s rows id_index kind id before after fields =
    let version = s.version + 1 in
    let entry : MutationLogEntry = record {
      version = version;
      kind = kind;
      id = id;
      before = before;
      after = after;
      changed_fields = fields;
    } in
    (
      record {
        id_field = s.id_field;
        mutation_log = append s.mutation_log entry;
        rows = rows;
        id_index = id_index;
        version = version;
      },
      record { from_version = s.version; to_version = version; entry = entry },
    )

-- The part that `publish` and `updateExisting` share: the row at `index` is replaced.
unfoldable pub replace_row :
    MutationStore → StableKey → Row → ℕ → Option Row → Option (MutationStore × MutationStoreChange)
unfolding append_mutation
replace_row s id row index none = none
replace_row s id row index (some before) = some (
    append_mutation s (set s.rows index row) s.id_index updated id (some before) (some row)
      (changed_fields before row))

unfoldable pub publish :
    MutationStore → Row → StableKey → Option (MutationStore × MutationStoreChange)
unfolding append_mutation replace_row
publish s row id = elim (s.id_index id) [
  | none ↦ some (
      append_mutation s (s.rows ++ row ∷ []) (map_set s.id_index id (length s.rows)) inserted id
        none (some row) (set_of (keys row)))
  | some index ↦ replace_row s id row index (get_elem? s.rows index)
]

-- What a method that may do nothing returns.
abbrev pub Outcome : Type 0
Outcome = Option (MutationStore × Option MutationStoreChange)

abbrev pub with_change : Option (MutationStore × MutationStoreChange) → Outcome
with_change none = none
with_change (some (s, change)) = some (s, some change)

unfoldable pub update_existing : MutationStore → StableKey → Row → Outcome
unfolding replace_row
update_existing s id row = elim (s.id_index id) [
  | none ↦ some (s, none)
  | some index ↦ with_change (replace_row s id row index (get_elem? s.rows index))
]

-- `removeIndexedRow` once `last` has been moved out of the array and `id` out of the index.
unfoldable pub move_last : String → List Row → KeyMap ℕ → ℕ → Row → Option (List Row × KeyMap ℕ)
move_last id_field rows index_by_id index last = elim (stable_key_from_row last id_field) [
  | none ↦ none
  | some key ↦ some (set rows index last, map_set index_by_id key index)
]

-- `removeIndexedRow` where `id` has an index: `last` is what the array holds at its end. Where the
-- array is empty `lastIndex` is -1, and then `last` is missing.
unfoldable pub remove_row :
    String → List Row → KeyMap ℕ → StableKey → ℕ → Option Row → Option (List Row × KeyMap ℕ)
unfolding move_last
remove_row id_field rows index_by_id id index none =
    some (drop_last rows, map_delete index_by_id id)
remove_row id_field rows index_by_id id index (some last) =
    if index == (length rows - 1)
    then some (drop_last rows, map_delete index_by_id id)
    else move_last id_field (drop_last rows) (map_delete index_by_id id) index last

unfoldable pub remove_indexed_row :
    String → List Row → KeyMap ℕ → StableKey → Option (List Row × KeyMap ℕ)
unfolding remove_row
remove_indexed_row id_field rows index_by_id id = elim (index_by_id id) [
  | none ↦ some (rows, index_by_id)
  | some index ↦ remove_row id_field rows index_by_id id index (get_elem? rows (length rows - 1))
]

-- `deleteById` after the removal.
unfoldable pub log_deletion :
    MutationStore → StableKey → Option Row → Option (List Row × KeyMap ℕ) → Outcome
unfolding append_mutation
log_deletion s id (some before) (some (rows, id_index)) =
    with_change
      (some (append_mutation s rows id_index deleted id (some before) none (set_of (keys before))))
log_deletion s id _ _ = none

unfoldable pub delete_by_id : MutationStore → StableKey → Outcome
unfolding remove_indexed_row log_deletion
delete_by_id s id = elim (s.id_index id) [
  | none ↦ some (s, none)
  | some index ↦
      log_deletion s id (get_elem? s.rows index)
        (remove_indexed_row s.id_field s.rows s.id_index id)
]

unfoldable pub can_replay : MutationStore → ℕ → ℕ → Bool
can_replay s from_version to_version = covers_exclusive s.mutation_log from_version to_version

-- The `forEach` of `replayMutations` that builds the index, at row `index`.
unfoldable pub replay_index : String → KeyMap ℕ → ℕ → List Row → Option (KeyMap ℕ)
replay_index id_field m index [] = some m
replay_index id_field m index (row ∷ rows) = elim (stable_key_from_row row id_field) [
  | none ↦ none
  | some key ↦ replay_index id_field (map_set m key index) (index + 1) rows
]

-- `{ ...entry.after }`
abbrev pub spread : Option Row → Row
spread none = []
spread (some row) = row

abbrev pub upsert_row : List Row → KeyMap ℕ → StableKey → Row → Option ℕ → List Row × KeyMap ℕ
upsert_row rows m id next none = (rows ++ next ∷ [], map_set m id (length rows))
upsert_row rows m id next (some index) = (set rows index next, m)

abbrev pub replay_kind :
    String → MutationKind → MutationLogEntry → List Row → KeyMap ℕ → Option (List Row × KeyMap ℕ)
replay_kind id_field deleted entry rows m = remove_indexed_row id_field rows m entry.id
replay_kind id_field _ entry rows m =
    some (upsert_row rows m entry.id (spread entry.after) (m entry.id))

-- One round of the loop of `replayMutations`.
unfoldable pub replay_entry :
    String → MutationLogEntry → List Row → KeyMap ℕ → Option (List Row × KeyMap ℕ)
unfolding remove_indexed_row
replay_entry id_field entry rows m = replay_kind id_field entry.kind entry rows m

unfoldable pub replay_entries :
    String → List MutationLogEntry → List Row → KeyMap ℕ → Option (List Row)
unfolding replay_entry
replay_entries id_field [] rows m = some rows
replay_entries id_field (entry ∷ entries) rows m = elim (replay_entry id_field entry rows m) [
  | none ↦ none
  | some (rows', m') ↦ replay_entries id_field entries rows' m'
]

unfoldable pub replay_mutations : List Row → List MutationLogEntry → String → Option (List Row)
unfolding replay_index replay_entries
replay_mutations base_rows entries id_field = elim (replay_index id_field empty_map 0 base_rows) [
  | none ↦ none
  | some m ↦ replay_entries id_field entries base_rows m
]

unfoldable pub replay_rows_from : MutationStore → List Row → ℕ → ℕ → Option (List Row)
unfolding replay_mutations
replay_rows_from s base_rows from_version to_version =
    replay_mutations base_rows (entries_exclusive s.mutation_log from_version to_version) s.id_field
