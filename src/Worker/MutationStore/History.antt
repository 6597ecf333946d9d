-- ===== src/Worker/MutationStore/History.antt =====
-- Runs of mutations of worker/mutation-store.ts, and what the log replays after one.
use mathlib.Core.Path.{subst}
use view_server.Prelude.{
  ℕ, zero, suc, String, ◌+◌, ◌-◌, ◌≤◌, ◌≡◌, refl, sym, ap, ◌∙◌, Option, none, some, List, [], ◌∷◌,
  ◌++◌, true, length, All, arith, leb, leb→le, drop_past,
}
use view_server.Protocol.Value.{Row}
use view_server.Protocol.StableKey.{KeyMap, empty_map}
use view_server.Worker.MutationLog.{MutationLogEntry, new_log, entries_exclusive}
use view_server.Worker.MutationLog.Contents.{Holds, keep_last, new_log-Holds}
use view_server.Worker.MutationLog.History.{
  Entries, Numbered, Numbered-append, append_all, append_all-Holds, covers_exclusive_lem,
  entries_exclusive_lem, capacity-append_all,
}
use view_server.Worker.MutationStore.{
  MutationStore, MutationStoreChange, new_store, load_initial_rows, can_replay, replay_index,
  replay_entries, replay_mutations, replay_rows_from,
}
use view_server.Worker.MutationStore.Index.{HasKeys}
use view_server.Worker.MutationStore.Build.{replace_indexes-IsIndexed, replay_index_lem}
use view_server.Worker.MutationStore.Steps.{
  StoreOp, apply_op, IsKeyed, Indexed, Logs, Stepped, apply_op_lem,
}

abbrev pub add_entry : Option MutationStoreChange → Entries → Entries
add_entry none es = es
add_entry (some change) es = change.entry ∷ es

-- A run of mutations: the store that it leaves, and the entries that it logged.
unfoldable pub run : MutationStore → List StoreOp → Option (MutationStore × Entries)
unfolding apply_op
run s [] = some (s, [])
run s (op ∷ ops) = elim (apply_op s op) [
  | none ↦ none
  | some (s', change) ↦ elim (run s' ops) [
    | none ↦ none
    | some (t, es) ↦ some (t, add_entry change es)
  ]
]

-- What a run did.
pub record Ran (s s' : MutationStore) (es : Entries) : Type 0 where
  pub id_field : s'.id_field ≡ s.id_field
  pub indexed : Indexed s'
  pub version : s'.version ≡ s.version + length es
  pub numbered : Numbered s.version es
  pub log : s'.mutation_log ≡ append_all s.mutation_log es
  pub replays : replay_entries s.id_field es s.rows s.id_index ≡ some s'.rows

Ran-nil : (s : MutationStore) → Indexed s → Ran s s []
unfolding append_all replay_entries
Ran-nil s x = record {
  id_field = refl;
  indexed = x;
  version = omega arith;
  numbered = λ i e h. absurd (none-ne-some e h);
  log = refl;
  replays = refl;
}
  where
    none-ne-some : (e : MutationLogEntry) → ¬ (none ≡ some e)
    none-ne-some e h = cc

Ran-cons :
    (s s' t : MutationStore) (change : MutationStoreChange) (es : Entries)
    → Logs s s' change
    → Ran s' t es
    → Ran s t (change.entry ∷ es)
unfolding append_all replay_entries
Ran-cons s s' t change es l r = record {
  id_field = r.id_field ∙ l.id_field;
  indexed = r.indexed;
  version = omega (arith, l.now, r.version);
  numbered =
      Numbered-append s.version (change.entry ∷ []) es first
        (λ i e h. omega (arith, r.numbered i e h, l.now));
  log = r.log ∙ ap (λ k. append_all k es) l.log;
  replays = rw (l.replays, replay_entries) (rw l.id_field at r.replays);
}
  where
    first : Numbered s.version (change.entry ∷ [])
    first zero e h = omega (arith, ap (λ k. ver k) h, l.version)
      where
        ver : Option MutationLogEntry → ℕ
        ver none = 0
        ver (some k) = k.version
    first (suc i) e h = absurd (none-ne-some e h)
      where
        none-ne-some : (e : MutationLogEntry) → ¬ (none ≡ some e)
        none-ne-some e h = cc

run_step :
    (s s' t : MutationStore) (op : StoreOp) (ops : List StoreOp) (c : Option MutationStoreChange)
    (es : Entries)
    → apply_op s op ≡ some (s', c)
    → run s' ops ≡ some (t, es)
    → run s (op ∷ ops) ≡ some (t, add_entry c es)
unfolding run
run_step s s' t op ops c es p q = rw (p, run) (rw q)

Stepped-Indexed :
    (s s' : MutationStore) (c : Option MutationStoreChange)
    → Indexed s
    → Stepped s (s', c)
    → Indexed s' × (s'.id_field ≡ s.id_field)
Stepped-Indexed s s' none x e = (subst Indexed (sym e) x, ap (λ k. k.id_field) e)
Stepped-Indexed s s' (some change) x l = (l.indexed, l.id_field)

Stepped-Ran :
    (s s' t : MutationStore) (c : Option MutationStoreChange) (es : Entries)
    → Stepped s (s', c)
    → Ran s' t es
    → Ran s t (add_entry c es)
Stepped-Ran s s' t none es e r = subst (λ k. Ran k t es) e r
Stepped-Ran s s' t (some change) es l r = Ran-cons s s' t change es l r

-- A run of keyed mutations of a store whose index is in step never throws. It leaves the index in step
-- and has numbered and logged its entries, which replay the rows before it to the rows after it.
pub run_lem :
    (ops : List StoreOp) (s : MutationStore)
    → Indexed s
    → All (IsKeyed s.id_field) ops
    → (after : MutationStore × Entries) × (run s ops ≡ some after) × Ran s after.0 after.1
unfolding run
run_lem [] s x keyed = ((s, []), refl, Ran-nil s x)
run_lem (op ∷ ops) s x keyed =
    let ((s', c), applied, stepped) = apply_op_lem s x op keyed.0 in
    let (x', same) = Stepped-Indexed s s' c x stepped in
    let ((t, es), ran, r) =
      run_lem ops s' x' (subst (λ f. All (IsKeyed f) ops) (sym same) keyed.1) in
    (
      (t, add_entry c es),
      run_step s s' t op ops c es applied ran,
      Stepped-Ran s s' t c es stepped r,
    )

pub run-Ran :
    (ops : List StoreOp) (s t : MutationStore) (es : Entries)
    → Indexed s
    → All (IsKeyed s.id_field) ops
    → run s ops ≡ some (t, es)
    → Ran s t es
run-Ran ops s t es x keyed h =
    let ((t', es'), ran, r) = run_lem ops s x keyed in
    let e : t' ≡ t = cc in let e' : es' ≡ es = cc in rw (e, e') at r

replay_mutations_step :
    (base_rows : List Row) (es : Entries) (id_field : String) (m : KeyMap ℕ) (rows : List Row)
    → replay_index id_field empty_map 0 base_rows ≡ some m
    → replay_entries id_field es base_rows m ≡ some rows
    → replay_mutations base_rows es id_field ≡ some rows
unfolding replay_mutations
replay_mutations_step base_rows es id_field m rows p q = rw (p, replay_mutations) q

-- The store as the topic worker starts it.
abbrev pub initial_store : String → ℕ → List Row → MutationStore
initial_store id_field mutation_log_size rows =
    load_initial_rows (new_store id_field mutation_log_size) rows

pub initial_store-Indexed :
    (id_field : String) (size : ℕ) (rows : List Row)
    → HasKeys id_field rows
    → Indexed (initial_store id_field size rows)
unfolding load_initial_rows new_store
initial_store-Indexed id_field size rows keys = (replace_indexes-IsIndexed id_field rows keys).1

-- A worker that starts with `rows`, makes the mutations `ops`, and then the mutations `later`.
module _ (id_field : String) (size : ℕ) (rows : List Row) (ops later : List StoreOp)
    (s t : MutationStore) (h es : Entries) (keys : HasKeys id_field rows)
    (keyed : All (IsKeyed id_field) ops) (keyed_later : All (IsKeyed id_field) later)
    (ran : run (initial_store id_field size rows) ops ≡ some (s, h))
    (ran_later : run s later ≡ some (t, es)) where
  first : Ran (initial_store id_field size rows) s h
  unfolding load_initial_rows new_store
  first =
      run-Ran ops (initial_store id_field size rows) s h
        (initial_store-Indexed id_field size rows keys) keyed ran

  fresh_parts :
      ((initial_store id_field size rows).id_field ≡ id_field)
      × ((initial_store id_field size rows).version ≡ 0)
      × ((initial_store id_field size rows).mutation_log ≡ new_log size)
  unfolding load_initial_rows new_store
  fresh_parts = (refl, refl, refl)

  same_field : s.id_field ≡ id_field
  same_field = first.id_field ∙ fresh_parts.0

  second : Ran s t es
  second =
      run-Ran later s t es first.indexed
        (subst (λ f. All (IsKeyed f) later) (sym same_field) keyed_later) ran_later

  at_s : s.version ≡ length h
  at_s = omega (arith, first.version, fresh_parts.1)

  numbered : Numbered 0 (h ++ es)
  numbered =
      Numbered-append 0 h es (λ i e p. omega (arith, first.numbered i e p, fresh_parts.1))
        (λ i e p. omega (arith, second.numbered i e p, at_s))

  held : Holds t.mutation_log (keep_last size (h ++ es))
  unfolding new_log
  held =
      let start : Holds (new_log size) (keep_last size []) =
        subst (Holds (new_log size))
          (sym (drop_past (length {A = MutationLogEntry} [] - size) [] (omega arith)))
          (new_log-Holds size) in
      let at_h = append_all-Holds size h [] (new_log size) refl start in
      let at_t =
        append_all-Holds size es h (append_all (new_log size) h)
          (capacity-append_all h (new_log size)) at_h in
      subst (λ k. Holds k (keep_last size (h ++ es)))
        (sym (
          second.log
          ∙ ap (λ k. append_all k es) (first.log ∙ ap (λ k. append_all k h) fresh_parts.2)))
        at_t

  -- For a store that starts with rows of distinct keys, after keyed mutations and then further keyed ones:
  -- the log covers the later log entries exactly if they are no more than its size.
  pub can_replay_lem : can_replay t s.version t.version ≡ leb (length es) size
  unfolding can_replay
  can_replay_lem =
      rw (second.version, at_s) (covers_exclusive_lem t.mutation_log size h es held numbered)

  logged : length es ≤ size → entries_exclusive t.mutation_log s.version t.version ≡ es
  logged fits =
      rw (second.version, at_s) (entries_exclusive_lem t.mutation_log size h es held numbered fits)

  -- For a store that starts with rows of distinct keys, after keyed mutations and then further keyed ones: a
  -- replay that the log covers takes the rows of the earlier version to the rows of the later one.
  pub replay_rows_from_lem :
      can_replay t s.version t.version ≡ true
      → replay_rows_from t s.rows s.version t.version ≡ some t.rows
  unfolding replay_rows_from
  replay_rows_from_lem covered =
      let fits : length es ≤ size = leb→le (length es) size (sym can_replay_lem ∙ covered) in
      rw (logged fits, second.id_field)
        (replay_mutations_step s.rows es s.id_field s.id_index t.rows
          (replay_index_lem s.id_field s.rows s.id_index first.indexed) second.replays)
