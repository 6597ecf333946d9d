-- ===== src/Worker/MutationStore/Build.antt =====
-- The index that worker/mutation-store.ts builds from rows: `#replaceIndexes`, and the first loop of
-- `replayMutations`.
use mathlib.Core.Path.{subst}
use view_server.Prelude.{
  ℕ, String, ◌+◌, ◌-◌, ◌≡◌, refl, sym, ap, ◌∙◌, none, some, List, [], ◌∷◌, ◌++◌, length, get_elem?,
  arith, Option-cases, inl, inr, append_assoc, append-nil, length-append, get_elem?-append_left,
  get_elem?-append_right,
}
use view_server.Protocol.Value.{Row}
use view_server.Protocol.StableKey.{StableKey, KeyMap, empty_map, map_set, stable_key_from_row}
use view_server.Worker.MutationStore.{replay_index, replace_indexes, index_row}
use view_server.Worker.MutationStore.Index.{
  key_of, key_at, HasKeys, IsIndexed, key_at-lt, push-IsIndexed, empty-IsIndexed, IsIndexed-HasKeys,
  IsIndexed-unique,
}

module _ (id_field : String) where
  middle : (pre rest : List Row) (row : Row) → get_elem? (pre ++ row ∷ rest) (length pre) ≡ some row
  middle pre rest row =
      let z : length pre - length pre ≡ 0 = omega arith in
      get_elem?-append_right pre (row ∷ rest) (length pre) (omega arith)
      ∙ ap (get_elem? (row ∷ rest)) z

  -- The key of the next row is not in the index of the rows before it.
  fresh :
      (pre rest : List Row) (row : Row) (m : KeyMap ℕ) (a : StableKey)
      → IsIndexed id_field pre m
      → HasKeys id_field (pre ++ row ∷ rest)
      → stable_key_from_row row id_field ≡ some a
      → m a ≡ none
  fresh pre rest row m a x keys keyed = elim (Option-cases (m a)) [
    | inl e ↦ e
    | inr (i, e) ↦
        let (j, found, same) = x.sound a i e in
        let short = key_at-lt id_field pre i found in
        let at_i : key_at id_field (pre ++ row ∷ rest) i ≡ some j =
          ap (key_of id_field) (get_elem?-append_left pre (row ∷ rest) i short) ∙ found in
        let at_end : key_at id_field (pre ++ row ∷ rest) (length pre) ≡ some a =
          ap (key_of id_field) (middle pre rest row) ∙ keyed in
        let clash = keys.distinct i (length pre) j a at_i at_end same in absurd (omega arith)
  ]

  -- what both loops leave behind, started on the rows before `rest`
  abbrev Built : List Row → KeyMap ℕ → List Row → ℕ → Type 0
  Built pre m rest index =
      (replay_index id_field m index rest ≡ some (replace_indexes id_field m index rest))
      × IsIndexed id_field (pre ++ rest) (replace_indexes id_field m index rest)

  step :
      (m : KeyMap ℕ) (row : Row) (rest : List Row) (index : ℕ) (a : StableKey)
      → stable_key_from_row row id_field ≡ some a
      → (replay_index id_field m index (row ∷ rest)
          ≡ replay_index id_field (map_set m a index) (index + 1) rest)
        × (replace_indexes id_field m index (row ∷ rest)
            ≡ replace_indexes id_field (map_set m a index) (index + 1) rest)
  unfolding replay_index replace_indexes index_row stable_key_from_row
  step m row rest index a e = (ground arith, ground arith)

  build :
      (rest pre : List Row) (m : KeyMap ℕ) (index : ℕ)
      → index ≡ length pre
      → IsIndexed id_field pre m
      → HasKeys id_field (pre ++ rest)
      → Built pre m rest index
  unfolding replay_index replace_indexes
  build [] pre m index e x keys = (refl, rw append-nil x)
  build (row ∷ rest) pre m index e x keys =
      let (a, there) = keys.stable (length pre) (omega (arith, length-append pre (row ∷ rest))) in
      let keyed : stable_key_from_row row id_field ≡ some a =
        sym (ap (key_of id_field) (middle pre rest row)) ∙ there in
      let (p, q) = step m row rest index a keyed in
      let x' =
        push-IsIndexed id_field pre m row a a x keyed refl (fresh pre rest row m a x keys keyed) in
      let (r, s) =
        build rest (pre ++ row ∷ []) (map_set m a index) (index + 1)
          (omega (arith, length-append pre (row ∷ [])))
          (subst (λ n. IsIndexed id_field (pre ++ row ∷ []) (map_set m a n)) (sym e) x')
          (rw append_assoc keys) in
      (p ∙ r ∙ ap some (sym q), rw q (rw append_assoc at s))

  -- On rows with distinct keys `#replaceIndexes` builds the index, and the replay builds the same.
  pub replace_indexes-IsIndexed :
      (rows : List Row)
      → HasKeys id_field rows
      → (replay_index id_field empty_map 0 rows ≡ some (replace_indexes id_field empty_map 0 rows))
        × IsIndexed id_field rows (replace_indexes id_field empty_map 0 rows)
  replace_indexes-IsIndexed rows keys =
      build rows [] empty_map 0 refl (empty-IsIndexed id_field) keys

  -- The replay finds the index that the store keeps.
  pub replay_index_lem :
      (rows : List Row) (m : KeyMap ℕ)
      → IsIndexed id_field rows m
      → replay_index id_field empty_map 0 rows ≡ some m
  replay_index_lem rows m x =
      let (p, y) = replace_indexes-IsIndexed rows (IsIndexed-HasKeys id_field rows m x) in
      p ∙ ap some (IsIndexed-unique id_field rows _ m y x)
