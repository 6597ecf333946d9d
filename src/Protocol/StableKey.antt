-- ===== src/Protocol/StableKey.antt =====
-- protocol/stable-key.ts: row keys, and the `Map` objects that the worker keys by them.
use view_server.Prelude.{
  zero, String, Bool, true, false, Option, none, some, ite, ℕ_discrete, ◌≡◌, ◌≢◌, if_pos, if_neg,
}
use view_server.Protocol.Value.{Number, finite, Value, number, string, String-discrete, Row, read}

pub data StableKey : Type 0 where
  text : String → StableKey
  num : Number → StableKey

unfoldable pub StableKey-discrete : Discrete StableKey
StableKey-discrete = hlevel (ℕ_discrete, String-discrete)

-- `none` is the `TypeError` that it throws.
unfoldable pub stable_key_from_value : Value → Option StableKey
stable_key_from_value (string s) = some (text s)
stable_key_from_value (number (finite minus m)) = some (num (finite minus m))
stable_key_from_value _ = none

unfoldable pub is_stable_key : Value → Bool
is_stable_key (string s) = true
is_stable_key (number (finite minus m)) = true
is_stable_key _ = false

unfoldable pub stable_key_from_row : Row → String → Option StableKey
stable_key_from_row row id_field = stable_key_from_value (read row id_field)

-- `Object.is`
unfoldable pub stable_key_equals : StableKey → StableKey → Bool
stable_key_equals left right = ite (StableKey-discrete left right) true false

-- A `Map` takes -0 and 0 for one key, and no other two keys: it stores 0.
unfoldable pub map_key : StableKey → StableKey
map_key (num (finite minus zero)) = num (finite false zero)
map_key key = key

-- A `Map` that is only read by key.
abbrev pub KeyMap {ℓ} : Type ℓ → Type ℓ
KeyMap V = StableKey → Option V

module _ {ℓ} {V : Type ℓ} where
  abbrev pub empty_map : KeyMap V
  empty_map = λ _. none

  unfoldable pub map_set : KeyMap V → StableKey → V → KeyMap V
  map_set m key value = λ j. ite (StableKey-discrete (map_key j) (map_key key)) (some value) (m j)

  unfoldable pub map_delete : KeyMap V → StableKey → KeyMap V
  map_delete m key = λ j. ite (StableKey-discrete (map_key j) (map_key key)) none (m j)

-- What a `Map` reads after a write.
module _ {ℓ} {V : Type ℓ} (m : KeyMap V) (key j : StableKey) where
  pub map_set_hit : (v : V) → map_key j ≡ map_key key → map_set m key v j ≡ some v
  unfolding map_set
  map_set_hit v e = if_pos (StableKey-discrete (map_key j) (map_key key)) e _ _

  pub map_set_miss : (v : V) → map_key j ≢ map_key key → map_set m key v j ≡ m j
  unfolding map_set
  map_set_miss v e = if_neg (StableKey-discrete (map_key j) (map_key key)) e _ _

  pub map_delete_hit : map_key j ≡ map_key key → map_delete m key j ≡ none
  unfolding map_delete
  map_delete_hit e = if_pos (StableKey-discrete (map_key j) (map_key key)) e _ _

  pub map_delete_miss : map_key j ≢ map_key key → map_delete m key j ≡ m j
  unfolding map_delete
  map_delete_miss e = if_neg (StableKey-discrete (map_key j) (map_key key)) e _ _
