-- ===== src/Worker/MutationStore/Removal.antt =====
-- `removeIndexedRow` of worker/mutation-store.ts, beside the index and the rows.
use view_server.Prelude.{
  ℕ, String, ◌-◌, ◌<◌, ◌≡◌, ◌≢◌, refl, sym, ap, ◌∙◌, some, List, length, get_elem?, set, drop_last,
  arith, ℕ_discrete, length-set, get_elem?-set_self, get_elem?-set_ne, get_elem?_within,
  length-drop_last, get_elem?-drop_last, ◌==◌, true, false,
}
use view_server.Protocol.Value.{Row}
use view_server.Protocol.StableKey.{
  StableKey, StableKey-discrete, KeyMap, map_set, map_delete, map_key, stable_key_from_row,
  map_set_hit, map_set_miss, map_delete_hit, map_delete_miss,
}
use view_server.Worker.MutationStore.{remove_indexed_row}
use view_server.Worker.MutationStore.Index.{
  key_of, key_at, IsIndexed, key_at-lt, index_of_key, map_set-respects, map_delete-respects,
}

module _ (id_field : String) (rows : List Row) (m : KeyMap ℕ) (key : StableKey)
    (x : IsIndexed id_field rows m) where
  last_index : ℕ
  last_index = length rows - 1

  -- a key of another place is another key
  other_key :
      (i index : ℕ) (c : StableKey)
      → m c ≡ some i
      → m key ≡ some index
      → i ≢ index
      → map_key c ≢ map_key key
  other_key i index c at_i at_index ne e = ne (cc (x.respects c key e))

  -- another key is at another place
  other_place :
      (i index : ℕ) (k : StableKey)
      → m k ≡ some i
      → m key ≡ some index
      → map_key k ≢ map_key key
      → i ≢ index
  other_place i index k at_i at_index ne e =
      let (a, there, p) = x.sound k i at_i in
      let (b, there', q) = x.sound key index at_index in
      let eq : a ≡ b = cc (ap (key_at id_field rows) e) in ne (sym p ∙ ap map_key eq ∙ q)

  kept : (i : ℕ) → i < length rows - 1 → key_at id_field (drop_last rows) i ≡ key_at id_field rows i
  kept i h = ap (key_of id_field) (get_elem?-drop_last rows i h)

  pop-IsIndexed :
      m key ≡ some (length rows - 1) → IsIndexed id_field (drop_last rows) (map_delete m key)
  pop-IsIndexed placed = record {
    respects = map_delete-respects id_field m key x.respects;
    sound = λ k i h. elim (StableKey-discrete (map_key k) (map_key key)) [
      | yes p ↦ absurd (ground (arith, map_delete_hit m key k p))
      | no p ↦
          let at_i : m k ≡ some i = sym (map_delete_miss m key k p) ∙ h in
          let (j, found, e) = x.sound k i at_i in
          let ne = other_place i (length rows - 1) k at_i placed p in
          (j, kept i (omega (arith, key_at-lt id_field rows i found)) ∙ found, e)
    ];
    complete = λ i h.
        (let (j, found, at_i) = x.complete i (omega (arith, length-drop_last rows)) in
          (
            j,
            kept i (omega (arith, length-drop_last rows)) ∙ found,
            map_delete_miss m key j (
                  other_key i (length rows - 1) j at_i placed
                    (omega (arith, length-drop_last rows)))
                ∙ at_i,
          ));
  }

  module _ (index : ℕ) (last : Row) (a : StableKey) (placed : m key ≡ some index)
      (ne : index ≢ length rows - 1) (at_end : get_elem? rows (length rows - 1) ≡ some last)
      (keyed : stable_key_from_row last id_field ≡ some a) where
    last_found : key_at id_field rows (length rows - 1) ≡ some a
    last_found = ap (key_of id_field) at_end ∙ keyed

    last_placed : m a ≡ some (length rows - 1)
    last_placed = index_of_key id_field rows m x (length rows - 1) a a last_found refl

    inside : index < length rows - 1
    inside =
        let (b, there, p) = x.sound key index placed in
        omega (arith, key_at-lt id_field rows index there)

    moved : key_at id_field (set (drop_last rows) index last) index ≡ some a
    moved =
        ap (key_of id_field) (
          get_elem?-set_self (drop_last rows) index last
            (omega (arith, inside, length-drop_last rows)))
        ∙ keyed

    stays :
        (i : ℕ)
        → i < length rows - 1
        → i ≢ index
        → key_at id_field (set (drop_last rows) index last) i ≡ key_at id_field rows i
    stays i h n =
        ap (key_of id_field) (get_elem?-set_ne (drop_last rows) index i last (λ q. n (sym q)))
        ∙ kept i h

    move-IsIndexed :
        IsIndexed id_field (set (drop_last rows) index last) (map_set (map_delete m key) a index)
    move-IsIndexed = record {
      respects =
          map_set-respects id_field (map_delete m key) a index
            (map_delete-respects id_field m key x.respects);
      sound = λ k i h. elim (StableKey-discrete (map_key k) (map_key a)) [
        | yes p ↦
            let here : i ≡ index = ground (arith, map_set_hit (map_delete m key) a k index p) in
            (a, rw here moved, sym p)
        | no p ↦ elim (StableKey-discrete (map_key k) (map_key key)) [
          | yes q ↦ absurd (
              ground (arith, map_set_miss (map_delete m key) a k index p, map_delete_hit m key k q))
          | no q ↦
              let at_i : m k ≡ some i =
                sym (map_set_miss (map_delete m key) a k index p ∙ map_delete_miss m key k q) ∙ h in
              let (j, found, e) = x.sound k i at_i in
              let not_index = other_place i index k at_i placed q in
              let not_last : i ≢ length rows - 1 = λ r. p (sym e ∙ ap map_key (ends j i found r)) in
              (j, stays i (omega (arith, key_at-lt id_field rows i found)) not_index ∙ found, e)
        ]
      ];
      complete = λ i h.
          (let len : length (set (drop_last rows) index last) ≡ length rows - 1 =
              length-set (drop_last rows) index last ∙ length-drop_last rows in
            elim (ℕ_discrete i index) [
              | yes p ↦ (a, rw p moved, rw p (map_set_hit (map_delete m key) a a index refl))
              | no p ↦
                  let (c, found, at_i) = x.complete i (omega arith) in
                  (
                    c,
                    stays i (omega arith) p ∙ found,
                    map_set_miss (map_delete m key) a c index
                          (λ q. absurd (apart i c at_i (omega arith) (x.respects c a q)))
                        ∙ map_delete_miss m key c (other_key i index c at_i placed p)
                        ∙ at_i,
                  )
            ]);
    }
      where
        ends :
            (j : StableKey) (i : ℕ) → key_at id_field rows i ≡ some j → i ≡ length rows - 1 → j ≡ a
        ends j i found r = cc (ap (key_at id_field rows) r, last_found)

        apart : (i : ℕ) (c : StableKey) → m c ≡ some i → i < length rows - 1 → m c ≡ m a → ⊥
        apart i c at_i h e = ground (arith, last_placed)

  removed_last :
      (index : ℕ) (last : Row)
      → m key ≡ some index
      → get_elem? rows (length rows - 1) ≡ some last
      → (index == (length rows - 1)) ≡ true
      → remove_indexed_row id_field rows m key ≡ some (drop_last rows, map_delete m key)
  unfolding remove_indexed_row
  removed_last index last placed at_end test = ground arith

  removed_inner :
      (index : ℕ) (last : Row) (a : StableKey)
      → m key ≡ some index
      → get_elem? rows (length rows - 1) ≡ some last
      → (index == (length rows - 1)) ≡ false
      → stable_key_from_row last id_field ≡ some a
      → remove_indexed_row id_field rows m key
        ≡ some (set (drop_last rows) index last, map_set (map_delete m key) a index)
  unfolding remove_indexed_row
  removed_inner index last a placed at_end test keyed = ground arith

  -- Removing a row that the index has never throws, and keeps the index in step.
  pub remove_indexed_row-IsIndexed :
      (index : ℕ)
      → m key ≡ some index
      → (after : List Row × KeyMap ℕ) × (remove_indexed_row id_field rows m key ≡ some after)
        × IsIndexed id_field after.0 after.1
  remove_indexed_row-IsIndexed index placed =
      let (b, there, p) = x.sound key index placed in
      let long = key_at-lt id_field rows index there in
      let (last, at_end) = get_elem?_within rows (length rows - 1) (omega arith) in
      let (a, found, at_last) = x.complete (length rows - 1) (omega arith) in
      let keyed : stable_key_from_row last id_field ≡ some a =
        sym (ap (key_of id_field) at_end) ∙ found in
      elim (ℕ_discrete index (length rows - 1)) [
        | yes e ↦
            let test : (index == (length rows - 1)) ≡ true = ground arith in
            (
              (drop_last rows, map_delete m key),
              removed_last index last placed at_end test,
              pop-IsIndexed (rw (← e) placed),
            )
        | no ne ↦
            let test : (index == (length rows - 1)) ≡ false = ground arith in
            (
              (set (drop_last rows) index last, map_set (map_delete m key) a index),
              removed_inner index last a placed at_end test keyed,
              move-IsIndexed index last a placed ne at_end keyed,
            )
      ]
