-- ===== src/Server/QueryLimitPolicy.antt =====
-- server/query-limit-policy.ts: which queries are let through, and the count of those that are not. The
-- limits are positive integers: config/define-config.ts validates them. `ColumnCatalog.validateQuery` is
-- an argument.
pub mod Bounds
pub mod Checks
pub mod Verdict
use text.Mathlib.Text.{◌==◌ as str_eq}
use view_server.Prelude.{
  ℕ, zero, suc, ◌+◌, ◌*◌, ◌%◌, ◌^◌, max, String, Bool, true, false, not, ◌||◌, Option, none, some,
  List, [], ◌∷◌, length, ltb, ◌==◌, if◌then◌else◌,
}
use view_server.Protocol.Value.{Number, nan, infinite, finite}
use view_server.Worker.QueryEngine.Filter.{
  RuntimeFilterNode, FilterNodes, predicate, conditions, nil, cons,
}
use view_server.Worker.QueryEngine.Query.{
  RuntimeQuery, raw, grouped, RuntimeGroupedQuery, offset_of, limit_of, condition_of,
}

pub record NormalizedQueryLimits : Type 0 where
  pub max_page_size : ℕ
  pub max_aggregate_count : ℕ
  pub max_group_by_fields : ℕ
  pub max_filter_depth : ℕ
  pub max_filter_conditions : ℕ

pub record QueryLimitsConfig : Type 0 where
  pub max_page_size : Option ℕ
  pub max_aggregate_count : Option ℕ
  pub max_group_by_fields : Option ℕ
  pub max_filter_depth : Option ℕ
  pub max_filter_conditions : Option ℕ

-- The errors that the policy makes: `actual` is a number of the query.
pub data ViewServerError : Type 0 where
  invalid_query : String → String → ViewServerError
  query_limit_exceeded : String → String → ℕ → Number → ViewServerError
  catalog_error : ℕ → ViewServerError

pub data Result : Type 0 where
  ok : RuntimeQuery → Result
  error : ViewServerError → Result

-- A policy: its limits, and the map `#rejectedByTopic` with its entries in order.
pub record QueryLimitPolicy : Type 0 where
  pub global_limits : NormalizedQueryLimits
  pub topic_limits : String → Option QueryLimitsConfig
  pub rejected_by_topic : List (String × ℕ)

pub record FilterStats : Type 0 where
  pub depth : ℕ
  pub conditions : ℕ

unfoldable mutual
  pub node_stats : RuntimeFilterNode → FilterStats
  node_stats (predicate field comparator value) = record { depth = 1; conditions = 1 }
  node_stats (conditions op nodes) =
      let children = nodes_stats nodes in
      record { depth = 1 + children.depth; conditions = children.conditions }

  -- the largest depth, and the sum of the conditions
  pub nodes_stats : FilterNodes → FilterStats
  nodes_stats nil = record { depth = 0; conditions = 0 }
  nodes_stats (cons node nodes) =
      let first = node_stats node in
      let rest = nodes_stats nodes in
      record { depth = max first.depth rest.depth; conditions = first.conditions + rest.conditions }

unfoldable pub runtime_filter_stats : Option RuntimeFilterNode → FilterStats
unfolding node_stats
runtime_filter_stats none = record { depth = 0; conditions = 0 }
runtime_filter_stats (some node) = node_stats node

-- An integer as a number.
abbrev pub from_nat : ℕ → Number
from_nat n = finite false (n * 2 ^ 1074)

-- `Number.isInteger`
unfoldable pub is_integer : Number → Bool
is_integer (finite _ magnitude) = magnitude % 2 ^ 1074 == 0
is_integer _ = false

-- `n < 0`, for integers
abbrev pub is_negative : Number → Bool
is_negative (finite true magnitude) = ltb 0 magnitude
is_negative _ = false

-- `n <= 0`, for integers
abbrev pub is_not_positive : Number → Bool
is_not_positive (finite true magnitude) = true
is_not_positive (finite false magnitude) = magnitude == 0
is_not_positive _ = false

-- `n > limit`
unfoldable pub exceeds : Number → ℕ → Bool
exceeds (finite false magnitude) limit = ltb (limit * 2 ^ 1074) magnitude
exceeds (infinite negative) limit = not negative
exceeds _ limit = false

unfoldable pub bad_offset : Option Number → Bool
unfolding is_integer
bad_offset none = false
bad_offset (some n) = not (is_integer n) || is_negative n

unfoldable pub bad_limit : Option Number → Bool
unfolding is_integer
bad_limit none = false
bad_limit (some n) = not (is_integer n) || is_not_positive n

abbrev pub set_limit : RuntimeQuery → Number → RuntimeQuery
set_limit (raw q) n = raw (record q { limit = some n })
set_limit (grouped q) n = grouped (record q { limit = some n })

-- `limitedQuery`
abbrev pub limited : RuntimeQuery → Option Number → ℕ → RuntimeQuery
limited query none max_page_size = set_limit query (from_nat max_page_size)
limited query (some n) max_page_size = query

abbrev pub given_or : Option ℕ → ℕ → ℕ
given_or none n = n
given_or (some m) n = m

unfoldable pub override : Option QueryLimitsConfig → NormalizedQueryLimits → NormalizedQueryLimits
override none limits = limits
override (some o) limits = record {
  max_page_size = given_or o.max_page_size limits.max_page_size;
  max_aggregate_count = given_or o.max_aggregate_count limits.max_aggregate_count;
  max_group_by_fields = given_or o.max_group_by_fields limits.max_group_by_fields;
  max_filter_depth = given_or o.max_filter_depth limits.max_filter_depth;
  max_filter_conditions = given_or o.max_filter_conditions limits.max_filter_conditions;
}

unfoldable pub limits_for_topic : QueryLimitPolicy → String → NormalizedQueryLimits
unfolding override
limits_for_topic policy topic = override (policy.topic_limits topic) policy.global_limits

-- `map.get(topic) ?? 0`, and `map.set(topic, n)`
unfoldable pub count_of : List (String × ℕ) → String → ℕ
count_of [] topic = 0
count_of ((name, n) ∷ counts) topic = if str_eq name topic then n else count_of counts topic

unfoldable pub set_count : List (String × ℕ) → String → ℕ → List (String × ℕ)
set_count [] topic n = (topic, n) ∷ []
set_count ((name, m) ∷ counts) topic n =
    if str_eq name topic then (name, n) ∷ counts else (name, m) ∷ set_count counts topic n

unfoldable pub sum_counts : List (String × ℕ) → ℕ
sum_counts [] = 0
sum_counts ((name, n) ∷ counts) = n + sum_counts counts

unfoldable pub rejected_count : QueryLimitPolicy → String → ℕ
unfolding count_of
rejected_count policy topic = count_of policy.rejected_by_topic topic

-- `metrics().rejectedQueries`
unfoldable pub rejected_queries : QueryLimitPolicy → ℕ
unfolding sum_counts
rejected_queries policy = sum_counts policy.rejected_by_topic

unfoldable pub reject : QueryLimitPolicy → String → ViewServerError → QueryLimitPolicy × Result
unfolding set_count rejected_count
reject policy topic e = (
  record policy {
    rejected_by_topic = set_count policy.rejected_by_topic topic (rejected_count policy topic + 1);
  },
  error e,
)

-- The error of `#validateGroupedQuery`, if it rejects.
unfoldable pub grouped_error :
    String → RuntimeQuery → NormalizedQueryLimits → Option ViewServerError
grouped_error topic (raw q) limits = none
grouped_error topic (grouped q) limits =
    if ltb limits.max_group_by_fields (length q.group_by)
    then some (
        query_limit_exceeded topic "maxGroupByFields" limits.max_group_by_fields
          (from_nat (length q.group_by)))
    else if ltb limits.max_aggregate_count (length q.aggregates)
    then some (
        query_limit_exceeded topic "maxAggregateCount" limits.max_aggregate_count
          (from_nat (length q.aggregates)))
    else none

-- The error of the checks of the filter, the last ones.
unfoldable pub filter_error : String → RuntimeQuery → NormalizedQueryLimits → Option ViewServerError
unfolding runtime_filter_stats
filter_error topic query limits =
    let filter_stats = runtime_filter_stats (condition_of query) in
    if ltb limits.max_filter_depth filter_stats.depth
    then some (
        query_limit_exceeded topic "maxFilterDepth" limits.max_filter_depth
          (from_nat filter_stats.depth))
    else if ltb limits.max_filter_conditions filter_stats.conditions
    then some (
        query_limit_exceeded topic "maxFilterConditions" limits.max_filter_conditions
          (from_nat filter_stats.conditions))
    else none

-- `limitedQuery.limit !== undefined && limitedQuery.limit > limits.maxPageSize`
unfoldable pub page_error : String → Option Number → NormalizedQueryLimits → Option ViewServerError
unfolding exceeds
page_error topic none limits = none
page_error topic (some n) limits =
    if exceeds n limits.max_page_size
    then some (query_limit_exceeded topic "maxPageSize" limits.max_page_size n)
    else none

unfoldable pub window_error : String → RuntimeQuery → Option ViewServerError
unfolding bad_offset bad_limit
window_error topic query =
    if bad_offset (offset_of query)
    then some (invalid_query topic "Query offset must be a non-negative integer")
    else if bad_limit (limit_of query)
    then some (invalid_query topic "Query limit must be a positive integer")
    else none

-- The rest of a validation, unless the checks before it found an error.
abbrev pub or_reject :
    QueryLimitPolicy
    → String
    → Option ViewServerError
    → QueryLimitPolicy × Result
    → QueryLimitPolicy × Result
or_reject policy topic none rest = rest
or_reject policy topic (some e) rest = reject policy topic e

abbrev pub with_catalog : Option (RuntimeQuery → Result) → RuntimeQuery → Result
with_catalog none query = ok query
with_catalog (some validate_query) query = validate_query query

unfoldable pub validate :
    QueryLimitPolicy
    → String
    → RuntimeQuery
    → Option (RuntimeQuery → Result)
    → QueryLimitPolicy × Result
unfolding limits_for_topic reject window_error page_error grouped_error filter_error
validate policy topic query catalog =
    let limits = limits_for_topic policy topic in
    let limited_query = limited query (limit_of query) limits.max_page_size in
    or_reject policy topic (window_error topic query) (
      or_reject policy topic (page_error topic (limit_of limited_query) limits) (
        or_reject policy topic (grouped_error topic limited_query limits) (
          or_reject policy topic (filter_error topic limited_query limits)
            (policy, with_catalog catalog limited_query))))
