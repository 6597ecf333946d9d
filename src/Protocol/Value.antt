-- ===== src/Protocol/Value.antt =====
-- The JavaScript values that a row holds (`unknown` in packages/core/src/protocol/query.ts).
use text.Mathlib.Text.{◌==◌ as str_eq}
use text.Mathlib.TextEquality.{eq_iff}
use view_server.Prelude.{
  ℕ, zero, String, Bool, true, false, List, [], ◌∷◌, ◌≡◌, refl, ℕ_discrete, if◌then◌else◌,
}

-- A double. Each finite one is a multiple of 2 ^ -1074: its sign (`true` for minus), and its
-- magnitude in that unit, so `finite true 0` is -0.
pub data Number : Type 0 where
  nan : Number
  infinite : Bool → Number
  finite : Bool → ℕ → Number

pub data BigInt : Type 0 where
  pos : ℕ → BigInt
  negsuc : ℕ → BigInt

-- `object r` is a reference to an object, such as a BigDecimal: `Object.is` compares references.
pub data Value : Type 0 where
  undefined : Value
  null : Value
  boolean : Bool → Value
  number : Number → Value
  bigint : BigInt → Value
  string : String → Value
  object : ℕ → Value

decide_text : (s t : String) (b : Bool) → str_eq s t ≡ b → Dec (s ≡ t)
decide_text s t true e = yes ((eq_iff s t).0 e)
decide_text s t false e = no (λ p. cc (e, (eq_iff s t).1 p))

unfoldable pub String-discrete : Discrete String
unfolding decide_text
String-discrete s t = decide_text s t (str_eq s t) refl

unfoldable pub Number-discrete : Discrete Number
Number-discrete = hlevel ℕ_discrete

unfoldable pub BigInt-discrete : Discrete BigInt
BigInt-discrete = hlevel ℕ_discrete

-- `Object.is` on values.
unfoldable pub Value-discrete : Discrete Value
Value-discrete = hlevel (ℕ_discrete, String-discrete)

-- A plain object: its own enumerable properties in the order of `Object.keys`.
abbrev pub Row : Type 0
Row = List (String × Value)

-- `row[field]`
unfoldable pub read : Row → String → Value
read [] field = undefined
read ((name, value) ∷ row) field = if str_eq name field then value else read row field

-- `Object.keys(row)`
unfoldable pub keys : Row → List String
keys [] = []
keys ((name, _) ∷ row) = name ∷ keys row

-- `row[field] = value`: an existing property keeps its place.
unfoldable pub write : Row → String → Value → Row
write [] field value = (field, value) ∷ []
write ((name, old) ∷ row) field value =
    if str_eq name field then (name, value) ∷ row else (name, old) ∷ write row field value

-- A value at the edge of a query: -0 becomes 0, and `undefined` becomes `null`.
unfoldable pub materialize_query_value : Value → Value
materialize_query_value (number (finite true zero)) = number (finite false zero)
materialize_query_value undefined = null
materialize_query_value value = value
