-- ===== src/Worker/MutationStore/Index.antt =====
-- The id index of worker/mutation-store.ts: when it agrees with the rows, and the changes of both.
use view_server.Prelude.{
  ℕ, String, ◌-◌, ◌<◌, ◌≡◌, refl, sym, ap, ◌∙◌, Option, none, some, List, [], ◌∷◌, ◌++◌, length,
  get_elem?, set, arith, dec_lt, ℕ_discrete, Option-cases, inl, inr, fun_ext, length-append,
  length-set, get_elem?-append_left, get_elem?-append_right, get_elem?-set_self, get_elem?-set_ne,
  get_elem?_past,
}
use view_server.Protocol.Value.{Row}
use view_server.Protocol.StableKey.{
  StableKey, StableKey-discrete, KeyMap, empty_map, map_set, map_delete, map_key,
  stable_key_from_row, map_set_hit, map_set_miss, map_delete_hit, map_delete_miss,
}

module _ (id_field : String) where
  abbrev pub key_of : Option Row → Option StableKey
  key_of none = none
  key_of (some row) = stable_key_from_row row id_field

  -- the key of the row at an index
  abbrev pub key_at : List Row → ℕ → Option StableKey
  key_at rows i = key_of (get_elem? rows i)

  -- Every row has a key, and no two rows have the same.
  pub record HasKeys (rows : List Row) : Type 0 where
    pub stable : (i : ℕ) → i < length rows → (j : StableKey) × (key_at rows i ≡ some j)
    pub distinct :
        (i k : ℕ) (a b : StableKey)
        → key_at rows i ≡ some a
        → key_at rows k ≡ some b
        → map_key a ≡ map_key b
        → i ≡ k

  -- The index takes a key to the place of the row with that key, and every row is found by its key.
  pub record IsIndexed (rows : List Row) (m : KeyMap ℕ) : Type 0 where
    pub respects : (k j : StableKey) → map_key k ≡ map_key j → m k ≡ m j
    pub sound :
        (k : StableKey) (i : ℕ)
        → m k ≡ some i
        → (j : StableKey) × (key_at rows i ≡ some j) × (map_key j ≡ map_key k)
    pub complete :
        (i : ℕ) → i < length rows → (j : StableKey) × (key_at rows i ≡ some j) × (m j ≡ some i)

  pub key_at-lt :
      (rows : List Row) (i : ℕ) {k : StableKey} → key_at rows i ≡ some k → i < length rows
  key_at-lt rows i h = elim (dec_lt i (length rows)) [
    | yes p ↦ p
    | no p ↦ absurd (ground (arith, get_elem?_past rows i))
  ]

  -- the place of a row with a known key
  pub index_of_key :
      (rows : List Row) (m : KeyMap ℕ)
      → IsIndexed rows m
      → (i : ℕ) (a k : StableKey) → key_at rows i ≡ some a
      → map_key a ≡ map_key k
      → m k ≡ some i
  index_of_key rows m x i a k h e =
      let (j, found, placed) = x.complete i (key_at-lt rows i h) in
      let same : a ≡ j = cc in x.respects k j (sym e ∙ ap map_key same) ∙ placed

  pub IsIndexed-HasKeys : (rows : List Row) (m : KeyMap ℕ) → IsIndexed rows m → HasKeys rows
  IsIndexed-HasKeys rows m x = record {
    stable = λ i h. (let (j, found, placed) = x.complete i h in (j, found));
    distinct =
        λ i k a b p q e. cc (index_of_key rows m x i a b p e, index_of_key rows m x k b b q refl);
  }

  -- The rows determine the index.
  pub IsIndexed-unique :
      (rows : List Row) (m m' : KeyMap ℕ) → IsIndexed rows m → IsIndexed rows m' → m ≡ m'
  IsIndexed-unique rows m m' x y = fun_ext (λ k. agree k)
    where
      agree : (k : StableKey) → m k ≡ m' k
      agree k = elim (Option-cases (m k)) [
        | inr (i, e) ↦
            let (j, found, same) = x.sound k i e in
            e ∙ sym (index_of_key rows m' y i j k found same)
        | inl e ↦ elim (Option-cases (m' k)) [
          | inl e' ↦ e ∙ sym e'
          | inr (i, e') ↦
              let (j, found, same) = y.sound k i e' in
              absurd (ground (arith, index_of_key rows m x i j k found same))
        ]
      ]

  pub empty-IsIndexed : IsIndexed [] empty_map
  empty-IsIndexed = record {
    respects = λ k j e. refl;
    sound = λ k i h. absurd (none-ne-some i h);
    complete = λ i h. absurd (omega arith);
  }
    where
      none-ne-some : (i : ℕ) → ¬ (none ≡ some i)
      none-ne-some i e = cc

  pub map_set-respects :
      (m : KeyMap ℕ) (key : StableKey) (v : ℕ)
      → ((k j : StableKey) → map_key k ≡ map_key j → m k ≡ m j)
      → (k j : StableKey) → map_key k ≡ map_key j
      → map_set m key v k ≡ map_set m key v j
  map_set-respects m key v r k j e = elim (StableKey-discrete (map_key j) (map_key key)) [
    | yes p ↦ map_set_hit m key k v (e ∙ p) ∙ sym (map_set_hit m key j v p)
    | no p ↦ map_set_miss m key k v (λ q. p (sym e ∙ q)) ∙ r k j e ∙ sym (map_set_miss m key j v p)
  ]

  pub map_delete-respects :
      (m : KeyMap ℕ) (key : StableKey)
      → ((k j : StableKey) → map_key k ≡ map_key j → m k ≡ m j)
      → (k j : StableKey) → map_key k ≡ map_key j
      → map_delete m key k ≡ map_delete m key j
  map_delete-respects m key r k j e = elim (StableKey-discrete (map_key j) (map_key key)) [
    | yes p ↦ map_delete_hit m key k (e ∙ p) ∙ sym (map_delete_hit m key j p)
    | no p ↦
        map_delete_miss m key k (λ q. p (sym e ∙ q)) ∙ r k j e ∙ sym (map_delete_miss m key j p)
  ]

  -- A new row at the end, under a key that the index does not have.
  pub push-IsIndexed :
      (rows : List Row) (m : KeyMap ℕ) (row : Row) (key a : StableKey)
      → IsIndexed rows m
      → stable_key_from_row row id_field ≡ some a
      → map_key a ≡ map_key key
      → m key ≡ none
      → IsIndexed (rows ++ row ∷ []) (map_set m key (length rows))
  push-IsIndexed rows m row key a x keyed same fresh = record {
    respects = map_set-respects m key (length rows) x.respects;
    sound = λ k i h. elim (StableKey-discrete (map_key k) (map_key key)) [
      | yes p ↦
          let at_end : i ≡ length rows = ground (arith, map_set_hit m key k (length rows) p) in
          (a, rw at_end (pushed ∙ keyed), same ∙ sym p)
      | no p ↦
          let (j, found, e) = x.sound k i (sym (map_set_miss m key k (length rows) p) ∙ h) in
          (
            j,
            ap key_of (get_elem?-append_left rows (row ∷ []) i (key_at-lt rows i found)) ∙ found,
            e,
          )
    ];
    complete = λ i h. elim (dec_lt i (length rows)) [
      | yes p ↦
          let (j, found, placed) = x.complete i p in
          (
            j,
            ap key_of (get_elem?-append_left rows (row ∷ []) i p) ∙ found,
            map_set_miss m key j (length rows) (λ q. absurd (clash j i placed (x.respects j key q)))
                ∙ placed,
          )
      | no p ↦
          let at_end : i ≡ length rows = omega (arith, length-append rows (row ∷ [])) in
          (a, rw at_end (pushed ∙ keyed), rw at_end (map_set_hit m key a (length rows) same))
    ];
  }
    where
      pushed : key_at (rows ++ row ∷ []) (length rows) ≡ stable_key_from_row row id_field
      pushed =
          let z : length rows - length rows ≡ 0 = omega arith in
          ap key_of (
            get_elem?-append_right rows (row ∷ []) (length rows) (omega arith)
            ∙ ap (get_elem? (row ∷ [])) z)

      clash : (j : StableKey) (i : ℕ) → m j ≡ some i → m j ≡ m key → ⊥
      clash j i p q = cc

  -- A row with the same key in the place of another.
  pub set-IsIndexed :
      (rows : List Row) (m : KeyMap ℕ) (row : Row) (key a : StableKey) (index : ℕ)
      → IsIndexed rows m
      → stable_key_from_row row id_field ≡ some a
      → map_key a ≡ map_key key
      → m key ≡ some index
      → IsIndexed (set rows index row) m
  set-IsIndexed rows m row key a index x keyed same placed =
      let (b, there, e) = x.sound key index placed in
      let inside = key_at-lt rows index there in
      record {
        respects = x.respects;
        sound = λ k i h. elim (ℕ_discrete i index) [
          | yes p ↦
              let (c, found, e') = x.sound k i h in
              let eq : c ≡ b = cc (ap (key_at rows) p) in
              (
                a,
                rw p (ap key_of (get_elem?-set_self rows index row inside) ∙ keyed),
                same ∙ sym e ∙ sym (ap map_key eq) ∙ e',
              )
          | no p ↦
              let (c, found, e') = x.sound k i h in
              (c, ap key_of (get_elem?-set_ne rows index i row (λ q. p (sym q))) ∙ found, e')
        ];
        complete = λ i h. elim (ℕ_discrete i index) [
          | yes p ↦ (
            a,
            rw p (ap key_of (get_elem?-set_self rows index row inside) ∙ keyed),
            x.respects a key same ∙ placed ∙ ap some (sym p),
          )
          | no p ↦
              let (c, found, at_i) = x.complete i (omega (arith, length-set rows index row)) in
              (c, ap key_of (get_elem?-set_ne rows index i row (λ q. p (sym q))) ∙ found, at_i)
        ];
      }
