-- ===== src/Protocol/QuerySemantics.antt =====
-- protocol/query-semantics.ts: how values compare, and the order that a query asks for.
-- The number that a comparison returns is -1, 0 or 1: an `Ordering`, and `none` for NaN.
use Prim.Native.Nat.{Ordering}
use text.Mathlib.Text.{◌==◌ as str_eq}
use view_server.Prelude.{
  String, Bool, true, false, ◌&&◌, ◌||◌, not, Option, none, some, List, [], ◌∷◌, ◌++◌, filter_by,
  ltb, ◌==◌, if◌then◌else◌, ite,
}
use view_server.Protocol.Value.{
  Number, infinite, finite, BigInt, pos, negsuc, Value, undefined, null, boolean, number, bigint,
  string, object, Value-discrete, BigInt-discrete, Row, read,
}
use view_server.Protocol.Host.{Host}

pub data SortDirection : Type 0 where
  asc desc : SortDirection

pub record OrderField : Type 0 where
  pub field : String
  pub direction : SortDirection

abbrev pub OrderBy : Type 0
OrderBy = List OrderField

-- `orderBy.some((order) => order.field === field)`
unfoldable pub orders_by : OrderBy → String → Bool
orders_by [] field = false
orders_by (order ∷ rest) field = str_eq order.field field || orders_by rest field

-- `rawQueryOrderBy`, given `query.orderBy`
unfoldable pub raw_query_order_by : Option OrderBy → String → OrderBy
unfolding orders_by
raw_query_order_by none id_field = record { field = id_field; direction = asc } ∷ []
raw_query_order_by (some order_by) id_field =
    if orders_by order_by id_field
    then order_by
    else order_by ++ record { field = id_field; direction = asc } ∷ []

ascending : List String → OrderBy
ascending [] = []
ascending (field ∷ fields) = record { field = field; direction = asc } ∷ ascending fields

-- `groupedQueryOrderBy`, given `query.orderBy` and `query.groupBy`
unfoldable pub grouped_query_order_by : Option OrderBy → List String → OrderBy
unfolding orders_by ascending
grouped_query_order_by none group_by = ascending group_by
grouped_query_order_by (some order_by) group_by =
    order_by ++ ascending (filter_by (λ field. not (orders_by order_by field)) group_by)

abbrev pub is_nullish : Value → Bool
is_nullish undefined = true
is_nullish null = true
is_nullish _ = false

-- `left === right ? 0 : left < right ? -1 : 1`
abbrev pub three_way : Bool → Bool → Ordering
three_way true less = Ordering.eq
three_way false true = Ordering.lt
three_way false false = Ordering.gt

-- `===` on numbers: NaN equals nothing, and -0 equals 0.
abbrev bool_eq : Bool → Bool → Bool
bool_eq true b = b
bool_eq false b = not b

unfoldable pub number_eq : Number → Number → Bool
number_eq (finite s m) (finite t n) = m == n && (bool_eq s t || (m == 0))
number_eq (infinite s) (infinite t) = bool_eq s t
number_eq _ _ = false

-- `<` on numbers
unfoldable pub number_lt : Number → Number → Bool
number_lt (finite true m) (finite true n) = ltb n m
number_lt (finite true m) (finite false n) = not (m == 0 && (n == 0))
number_lt (finite false m) (finite true n) = false
number_lt (finite false m) (finite false n) = ltb m n
number_lt (finite s m) (infinite t) = not t
number_lt (infinite s) (finite t n) = s
number_lt (infinite s) (infinite t) = s && not t
number_lt _ _ = false

unfoldable pub bigint_lt : BigInt → BigInt → Bool
bigint_lt (pos m) (pos n) = ltb m n
bigint_lt (pos m) (negsuc n) = false
bigint_lt (negsuc m) (pos n) = true
bigint_lt (negsuc m) (negsuc n) = ltb n m

unfoldable pub compare_booleans : Bool → Bool → Ordering
compare_booleans true true = Ordering.eq
compare_booleans true false = Ordering.gt
compare_booleans false true = Ordering.lt
compare_booleans false false = Ordering.eq

-- What one order decides, and otherwise the later ones.
abbrev pub settle : SortDirection → Ordering → Ordering → Ordering
settle direction Ordering.eq later = later
settle asc Ordering.lt later = Ordering.lt
settle asc Ordering.gt later = Ordering.gt
settle desc Ordering.lt later = Ordering.gt
settle desc Ordering.gt later = Ordering.lt

module _ (host : Host) where
  open host use {
    Decimal, decimal_of, from_bigint, from_number, from_string, equals, order, lower, text_lt,
    to_string,
  }

  unfoldable pub compare_lowercase_strings : String → String → Ordering
  compare_lowercase_strings left right =
      three_way (str_eq (lower left) (lower right)) (text_lt (lower left) (lower right))

  abbrev pub is_big_decimal : Value → Bool
  is_big_decimal (object r) = elim (decimal_of r) [ none ↦ false | some _ ↦ true ]
  is_big_decimal _ = false

  unfoldable pub to_big_decimal : Value → Option Decimal
  to_big_decimal (object r) = decimal_of r
  to_big_decimal (bigint n) = some (from_bigint n)
  to_big_decimal (number n) = from_number n
  to_big_decimal (string s) = from_string s
  to_big_decimal _ = none

  -- The part of `compareNonNullValues` after the decimals.
  unfoldable pub compare_plain : Value → Value → Ordering
  unfolding compare_lowercase_strings number_eq number_lt bigint_lt compare_booleans
  compare_plain (string s) (string t) = compare_lowercase_strings s t
  compare_plain (bigint m) (bigint n) =
      three_way (ite (BigInt-discrete m n) true false) (bigint_lt m n)
  compare_plain (number m) (number n) = three_way (number_eq m n) (number_lt m n)
  compare_plain (boolean a) (boolean b) = compare_booleans a b
  compare_plain left right = compare_lowercase_strings (to_string left) (to_string right)

  -- Both decimals, if either value is one and both can be read as one.
  unfoldable pub as_decimals : Value → Value → Option (Decimal × Decimal)
  unfolding to_big_decimal
  as_decimals left right =
      if is_big_decimal left || is_big_decimal right
      then (elim (to_big_decimal left) [
        | none ↦ none
        | some l ↦ elim (to_big_decimal right) [ none ↦ none | some r ↦ some (l, r) ]
      ])
      else none

  unfoldable pub compare_non_null_values : Value → Value → Ordering
  unfolding as_decimals compare_plain
  compare_non_null_values left right = elim (as_decimals left right) [
    | some (l, r) ↦ order l r
    | none ↦ compare_plain left right
  ]

  unfoldable pub compare_values : Value → Value → Ordering
  unfolding compare_non_null_values
  compare_values left right =
      if is_nullish left && is_nullish right
      then Ordering.eq
      else if is_nullish left
      then Ordering.lt
      else if is_nullish right
      then Ordering.gt
      else compare_non_null_values left right

  unfoldable pub compare_filter_values : Value → Value → Option Ordering
  unfolding compare_non_null_values
  compare_filter_values left right =
      if is_nullish left || is_nullish right
      then none
      else some (compare_non_null_values left right)

  -- The part of `valuesEqual` after the decimals.
  unfoldable pub plain_equal : Value → Value → Bool → Bool
  plain_equal (string s) (string t) strict =
      if strict then str_eq s t else str_eq (lower s) (lower t)
  plain_equal left right strict = ite (Value-discrete left right) true false

  unfoldable pub values_equal : Value → Value → Bool → Bool
  unfolding as_decimals plain_equal
  values_equal left right strict =
      if is_nullish left && is_nullish right then true else (elim (as_decimals left right) [
        | some (l, r) ↦ equals l r
        | none ↦ plain_equal left right strict
      ])

  -- The loop of `compareRowsForOrder`.
  unfoldable pub compare_rows_for_order : Row → Row → OrderBy → Ordering
  unfolding compare_values
  compare_rows_for_order left right [] = Ordering.eq
  compare_rows_for_order left right (o ∷ rest) =
      settle o.direction (compare_values (read left o.field) (read right o.field))
        (compare_rows_for_order left right rest)
