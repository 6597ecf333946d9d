-- ===== src/Worker/QueryEngine/Filter.antt =====
-- worker/query-engine.ts: filters. `compileFilter` returns a test of rows; here it is a function of the
-- row as well. `literal_string_fields` is the set of that name in the execution options.
use Prim.Native.Nat.{Ordering}
use text.Mathlib.Text.{◌==◌ as str_eq}
use view_server.Prelude.{
  zero, String, Bool, true, false, ◌&&◌, ◌||◌, not, Option, none, some, List, [], ◌∷◌, ◌++◌, ite,
  if◌then◌else◌,
}
use view_server.Protocol.Value.{
  Number, finite, BigInt, Value, undefined, null, boolean, number, bigint, string, object,
  Number-discrete, BigInt-discrete, Value-discrete, Row, read,
}
use view_server.Ordered.{is_lt, is_gt}
use view_server.Protocol.Host.{Host}
use view_server.Protocol.QuerySemantics.{values_equal, compare_filter_values}

pub data RuntimeComparator : Type 0 where
  equals not_equals greater_than greater_than_or_equal less_than less_than_or_equal :
      RuntimeComparator
  contains starts_with one_of : RuntimeComparator

pub data LogicalOp : Type 0 where
  and_op or_op : LogicalOp

mutual
  pub data RuntimeFilterNode : Type 0 where
    predicate : String → RuntimeComparator → Value → RuntimeFilterNode
    conditions : LogicalOp → FilterNodes → RuntimeFilterNode

  pub data FilterNodes : Type 0 where
    nil : FilterNodes
    cons : RuntimeFilterNode → FilterNodes → FilterNodes

-- What a `Set` of each kind of candidate holds, and the flags, of `compileOneOfMatcher`.
pub record OneOfSets : Type 0 where
  pub strings : List String
  pub numbers : List Number
  pub bigints : List BigInt
  pub booleans : List Bool
  pub has_positive_zero : Bool
  pub has_negative_zero : Bool
  pub has_nullish : Bool
  pub fallback_candidates : List Value

abbrev pub no_candidates : OneOfSets
no_candidates = record {
  strings = [];
  numbers = [];
  bigints = [];
  booleans = [];
  has_positive_zero = false;
  has_negative_zero = false;
  has_nullish = false;
  fallback_candidates = [];
}

abbrev pub any {ℓ} : {A : Type ℓ} → (A → Bool) → List A → Bool
any p [] = false
any p (x ∷ xs) = p x || any p xs

abbrev pub same_bool : Bool → Bool → Bool
same_bool true b = b
same_bool false b = not b

-- `Object.is` on numbers, bigints and values
abbrev pub same_number : Number → Number → Bool
same_number a b = ite (Number-discrete a b) true false

abbrev pub same_bigint : BigInt → BigInt → Bool
same_bigint a b = ite (BigInt-discrete a b) true false

abbrev pub same_value : Value → Value → Bool
same_value a b = ite (Value-discrete a b) true false

module _ (host : Host) where
  open host use {lower, includes, elements_of}

  -- `strictStringEquality ? text : text.toLowerCase()`
  abbrev pub fold_case : Bool → String → String
  fold_case strict text = if strict then text else lower text

  unfoldable pub compile_equality_matcher : Value → Bool → Value → Bool
  compile_equality_matcher (string s) strict (string t) =
      str_eq (fold_case strict t) (fold_case strict s)
  compile_equality_matcher (string s) strict row_value =
      values_equal host row_value (string s) strict
  compile_equality_matcher (object r) strict row_value =
      values_equal host row_value (object r) strict
  compile_equality_matcher filter_value strict row_value =
      same_value row_value filter_value || values_equal host row_value filter_value strict

  -- `contains` and `starts_with`: the test of the lower-cased texts is a parameter.
  unfoldable pub compile_string_matcher : (String → String → Bool) → Value → Value → Bool
  compile_string_matcher test (string s) (string t) = test (lower t) (lower s)
  compile_string_matcher test filter_value row_value = false

  -- One round of the loop over the candidates.
  unfoldable pub add_candidate : Bool → OneOfSets → Value → OneOfSets
  add_candidate strict sets (string s) = record sets { strings = fold_case strict s ∷ sets.strings }
  add_candidate strict sets (number (finite true zero)) = record sets { has_negative_zero = true }
  add_candidate strict sets (number (finite false zero)) = record sets { has_positive_zero = true }
  add_candidate strict sets (number n) = record sets { numbers = n ∷ sets.numbers }
  add_candidate strict sets (bigint n) = record sets { bigints = n ∷ sets.bigints }
  add_candidate strict sets (boolean b) = record sets { booleans = b ∷ sets.booleans }
  add_candidate strict sets undefined = record sets { has_nullish = true }
  add_candidate strict sets null = record sets { has_nullish = true }
  add_candidate strict sets (object r) = record sets {
    fallback_candidates = sets.fallback_candidates ++ object r ∷ [];
  }

  unfoldable pub add_candidates : Bool → OneOfSets → List Value → OneOfSets
  unfolding add_candidate
  add_candidates strict sets [] = sets
  add_candidates strict sets (v ∷ vs) = add_candidates strict (add_candidate strict sets v) vs

  -- The `switch` on the type of the row's value.
  unfoldable pub in_sets : Bool → OneOfSets → Value → Bool
  in_sets strict sets (string s) = any (λ t. str_eq t (fold_case strict s)) sets.strings
  in_sets strict sets (number (finite true zero)) = sets.has_negative_zero
  in_sets strict sets (number (finite false zero)) = sets.has_positive_zero
  in_sets strict sets (number n) = any (λ m. same_number m n) sets.numbers
  in_sets strict sets (bigint n) = any (λ m. same_bigint m n) sets.bigints
  in_sets strict sets (boolean b) = any (λ c. same_bool c b) sets.booleans
  in_sets strict sets undefined = sets.has_nullish
  in_sets strict sets null = sets.has_nullish
  in_sets strict sets (object r) = false

  -- The candidates that are compared one by one.
  abbrev pub remaining : OneOfSets → List Value → Value → List Value
  remaining sets candidates (object r) = candidates
  remaining sets candidates _ = sets.fallback_candidates

  unfoldable pub match_one_of : Bool → List Value → Value → Bool
  unfolding add_candidates in_sets
  match_one_of strict candidates row_value =
      let sets = add_candidates strict no_candidates candidates in
      in_sets strict sets row_value
      || any (λ candidate. values_equal host row_value candidate strict)
          (remaining sets candidates row_value)

  -- A filter value that is no array matches nothing.
  unfoldable pub compile_one_of_matcher : Value → Bool → Value → Bool
  unfolding match_one_of
  compile_one_of_matcher (object r) strict row_value = elim (elements_of r) [
    | none ↦ false
    | some candidates ↦ match_one_of strict candidates row_value
  ]
  compile_one_of_matcher filter_value strict row_value = false

  -- The tests of a comparison against 0; a comparison with NaN fails.
  abbrev pub holds_for : (Ordering → Bool) → Option Ordering → Bool
  holds_for test none = false
  holds_for test (some compared) = test compared

  unfoldable pub compile_predicate : RuntimeComparator → Value → Bool → Value → Bool
  unfolding compile_equality_matcher compile_string_matcher compile_one_of_matcher
  compile_predicate equals value strict v = compile_equality_matcher value strict v
  compile_predicate not_equals value strict v = not (compile_equality_matcher value strict v)
  compile_predicate greater_than value strict v =
      holds_for is_gt (compare_filter_values host v value)
  compile_predicate greater_than_or_equal value strict v =
      holds_for (λ o. not (is_lt o)) (compare_filter_values host v value)
  compile_predicate less_than value strict v = holds_for is_lt (compare_filter_values host v value)
  compile_predicate less_than_or_equal value strict v =
      holds_for (λ o. not (is_gt o)) (compare_filter_values host v value)
  compile_predicate contains value strict v = compile_string_matcher includes value v
  compile_predicate starts_with value strict v = compile_string_matcher host.starts_with value v
  compile_predicate one_of value strict v = compile_one_of_matcher value strict v

  module _ (literal_string_fields : String → Bool) where
    unfoldable mutual
      unfolding compile_predicate

      pub match_node : RuntimeFilterNode → Row → Bool
      match_node (predicate field comparator value) row =
          compile_predicate comparator value (literal_string_fields field) (read row field)
      match_node (conditions and_op nodes) row = match_every nodes row
      match_node (conditions or_op nodes) row = match_some nodes row

      pub match_every : FilterNodes → Row → Bool
      match_every nil row = true
      match_every (cons node nodes) row = match_node node row && match_every nodes row

      pub match_some : FilterNodes → Row → Bool
      match_some nil row = false
      match_some (cons node nodes) row = match_node node row || match_some nodes row

    unfoldable pub compile_filter : Option RuntimeFilterNode → Row → Bool
    unfolding match_node
    compile_filter none row = true
    compile_filter (some node) row = match_node node row
