-- ===== src/Worker/MutationStore/Steps.antt =====
-- One mutation of worker/mutation-store.ts: what it does to the index, and the replay of its log entry.
use view_server.Prelude.{
  ℕ, String, ◌+◌, ◌≡◌, refl, Option, none, some, List, [], ◌∷◌, ◌++◌, length, get_elem?, set, arith,
  Option-cases, inl, inr, get_elem?_within,
}
use view_server.Protocol.Value.{Row, keys}
use view_server.Protocol.StableKey.{StableKey, KeyMap, map_set, stable_key_from_row}
use view_server.Worker.MutationLog.{inserted, updated, deleted, append}
use view_server.Worker.MutationStore.{
  MutationStore, MutationStoreChange, append_mutation, publish, Outcome, with_change,
  update_existing, delete_by_id, log_deletion, remove_indexed_row, replay_entry, changed_fields,
  set_of,
}
use view_server.Worker.MutationStore.Index.{key_at-lt, IsIndexed, push-IsIndexed, set-IsIndexed}
use view_server.Worker.MutationStore.Removal.{remove_indexed_row-IsIndexed}

-- The mutations that the topic worker makes.
pub data StoreOp : Type 0 where
  publish_row : Row → StableKey → StoreOp
  update_row : StableKey → Row → StoreOp
  delete_row : StableKey → StoreOp

unfoldable pub apply_op : MutationStore → StoreOp → Outcome
apply_op s (publish_row row id) = with_change (publish s row id)
apply_op s (update_row id row) = update_existing s id row
apply_op s (delete_row id) = delete_by_id s id

-- The worker takes the id from the row that it publishes (`ensureId`).
abbrev pub IsKeyed : String → StoreOp → Type 0
IsKeyed id_field (publish_row row id) = stable_key_from_row row id_field ≡ some id
IsKeyed id_field (update_row id row) = stable_key_from_row row id_field ≡ some id
IsKeyed id_field (delete_row id) = Unit

abbrev pub Indexed : MutationStore → Type 0
Indexed s = IsIndexed s.id_field s.rows s.id_index

-- What a mutation that took effect did.
pub record Logs (s s' : MutationStore) (change : MutationStoreChange) : Type 0 where
  pub id_field : s'.id_field ≡ s.id_field
  pub from : change.from_version ≡ s.version
  pub to : change.to_version ≡ s.version + 1
  pub now : s'.version ≡ s.version + 1
  pub version : change.entry.version ≡ s.version + 1
  pub log : s'.mutation_log ≡ append s.mutation_log change.entry
  pub indexed : Indexed s'
  pub replays : replay_entry s.id_field change.entry s.rows s.id_index ≡ some (s'.rows, s'.id_index)

-- The outcome of a mutation: none took effect, and nothing changed, or one did and was logged.
abbrev pub Stepped : MutationStore → MutationStore × Option MutationStoreChange → Type 0
Stepped s (s', none) = s' ≡ s
Stepped s (s', some change) = Logs s s' change

-- What the branches of the methods return.
abbrev with_row : MutationStore → Row → StableKey → MutationStore × MutationStoreChange
with_row s row id =
    append_mutation s (s.rows ++ row ∷ []) (map_set s.id_index id (length s.rows)) inserted id none
      (some row) (set_of (keys row))

abbrev with_replaced :
    MutationStore → Row → Row → StableKey → ℕ → MutationStore × MutationStoreChange
with_replaced s row before id index =
    append_mutation s (set s.rows index row) s.id_index updated id (some before) (some row)
      (changed_fields before row)

abbrev with_removed :
    MutationStore → Row → StableKey → List Row → KeyMap ℕ → MutationStore × MutationStoreChange
with_removed s before id rows m =
    append_mutation s rows m deleted id (some before) none (set_of (keys before))

module _ (s : MutationStore) (x : Indexed s) where
  publish_new :
      (row : Row) (id : StableKey)
      → stable_key_from_row row s.id_field ≡ some id
      → s.id_index id ≡ none
      → Logs s (with_row s row id).0 (with_row s row id).1
  unfolding append_mutation replay_entry
  publish_new row id keyed fresh = record {
    id_field = refl;
    from = refl;
    to = refl;
    now = refl;
    version = refl;
    log = refl;
    indexed = push-IsIndexed s.id_field s.rows s.id_index row id id x keyed refl fresh;
    replays = rw fresh;
  }

  replace_Logs :
      (row before : Row) (id : StableKey) (index : ℕ)
      → stable_key_from_row row s.id_field ≡ some id
      → s.id_index id ≡ some index
      → Logs s (with_replaced s row before id index).0 (with_replaced s row before id index).1
  unfolding append_mutation replay_entry
  replace_Logs row before id index keyed placed = record {
    id_field = refl;
    from = refl;
    to = refl;
    now = refl;
    version = refl;
    log = refl;
    indexed = set-IsIndexed s.id_field s.rows s.id_index row id id index x keyed refl placed;
    replays = rw placed;
  }

  delete_Logs :
      (before : Row) (id : StableKey) (rows : List Row) (m : KeyMap ℕ)
      → remove_indexed_row s.id_field s.rows s.id_index id ≡ some (rows, m)
      → IsIndexed s.id_field rows m
      → Logs s (with_removed s before id rows m).0 (with_removed s before id rows m).1
  unfolding append_mutation replay_entry
  delete_Logs before id rows m removed y = record {
    id_field = refl;
    from = refl;
    to = refl;
    now = refl;
    version = refl;
    log = refl;
    indexed = y;
    replays = removed;
  }

  abbrev Succeeds : Outcome → Type 0
  Succeeds outcome =
      (after : MutationStore × Option MutationStoreChange) × (outcome ≡ some after)
      × Stepped s after

  at_index :
      (id : StableKey) (index : ℕ)
      → s.id_index id ≡ some index
      → (row : Row) × (get_elem? s.rows index ≡ some row)
  at_index id index placed =
      let (j, found, e) = x.sound id index placed in
      get_elem?_within s.rows index (key_at-lt s.id_field s.rows index found)

  noop : Succeeds (some (s, none))
  noop = ((s, none), refl, refl)

  logged :
      (change : MutationStore × MutationStoreChange)
      → Logs s change.0 change.1
      → Succeeds (some (change.0, some change.1))
  logged change h = ((change.0, some change.1), refl, h)

  publish_fresh :
      (row : Row) (id : StableKey)
      → s.id_index id ≡ none
      → publish s row id ≡ some (with_row s row id)
  unfolding publish
  publish_fresh row id fresh = ground arith

  publish_placed :
      (row before : Row) (id : StableKey) (index : ℕ)
      → s.id_index id ≡ some index
      → get_elem? s.rows index ≡ some before
      → publish s row id ≡ some (with_replaced s row before id index)
  unfolding publish
  publish_placed row before id index placed found = ground arith

  update_fresh :
      (row : Row) (id : StableKey)
      → s.id_index id ≡ none
      → update_existing s id row ≡ some (s, none)
  unfolding update_existing
  update_fresh row id fresh = ground arith

  update_placed :
      (row before : Row) (id : StableKey) (index : ℕ)
      → s.id_index id ≡ some index
      → get_elem? s.rows index ≡ some before
      → update_existing s id row ≡ with_change (some (with_replaced s row before id index))
  unfolding update_existing
  update_placed row before id index placed found = ground arith

  delete_fresh : (id : StableKey) → s.id_index id ≡ none → delete_by_id s id ≡ some (s, none)
  unfolding delete_by_id
  delete_fresh id fresh = ground arith

  delete_placed :
      (before : Row) (id : StableKey) (index : ℕ) (rows : List Row) (m : KeyMap ℕ)
      → s.id_index id ≡ some index
      → get_elem? s.rows index ≡ some before
      → remove_indexed_row s.id_field s.rows s.id_index id ≡ some (rows, m)
      → delete_by_id s id ≡ with_change (some (with_removed s before id rows m))
  unfolding delete_by_id log_deletion
  delete_placed before id index rows m placed found removed =
      rw (placed, delete_by_id) (rw (found, removed))

  apply_publish :
      (row : Row) (id : StableKey)
      → stable_key_from_row row s.id_field ≡ some id
      → Succeeds (with_change (publish s row id))
  apply_publish row id keyed = elim (Option-cases (s.id_index id)) [
    | inl fresh ↦ rw (publish_fresh row id fresh) (logged _ (publish_new row id keyed fresh))
    | inr (index, placed) ↦
        let (before, found) = at_index id index placed in
        rw (publish_placed row before id index placed found)
          (logged _ (replace_Logs row before id index keyed placed))
  ]

  apply_update :
      (id : StableKey) (row : Row)
      → stable_key_from_row row s.id_field ≡ some id
      → Succeeds (update_existing s id row)
  apply_update id row keyed = elim (Option-cases (s.id_index id)) [
    | inl fresh ↦ rw (update_fresh row id fresh) noop
    | inr (index, placed) ↦
        let (before, found) = at_index id index placed in
        rw (update_placed row before id index placed found)
          (logged _ (replace_Logs row before id index keyed placed))
  ]

  apply_delete : (id : StableKey) → Succeeds (delete_by_id s id)
  apply_delete id = elim (Option-cases (s.id_index id)) [
    | inl fresh ↦ rw (delete_fresh id fresh) noop
    | inr (index, placed) ↦
        let (before, found) = at_index id index placed in
        let ((rows, m), removed, y) =
          remove_indexed_row-IsIndexed s.id_field s.rows s.id_index id x index placed in
        rw (delete_placed before id index rows m placed found removed)
          (logged _ (delete_Logs before id rows m removed y))
  ]

  -- A keyed mutation of a store whose index is in step never throws. It changes nothing, or it
  -- advances the version by one, logs an entry of that version, keeps the index in step, and the
  -- entry replays to the very rows and index that it left.
  pub apply_op_lem :
      (op : StoreOp)
      → IsKeyed s.id_field op
      → (after : MutationStore × Option MutationStoreChange) × (apply_op s op ≡ some after)
        × Stepped s after
  unfolding apply_op
  apply_op_lem (publish_row row id) keyed = apply_publish row id keyed
  apply_op_lem (update_row id row) keyed = apply_update id row keyed
  apply_op_lem (delete_row id) keyed = apply_delete id
