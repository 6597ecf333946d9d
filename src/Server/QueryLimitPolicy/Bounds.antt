-- ===== src/Server/QueryLimitPolicy/Bounds.antt =====
-- server/query-limit-policy.ts: the limits as bounds on the numbers of a query.
use view_server.Prelude.{ℕ, ◌*◌, ◌%◌, ◌^◌, ◌≤◌, ◌<◌, ◌≡◌, true, false, Option, none, some, length}
use view_server.Protocol.Value.{Number, nan, infinite, finite}
use view_server.Worker.QueryEngine.Query.{
  RuntimeQuery, raw, grouped, offset_of, limit_of, condition_of,
}
use view_server.Server.QueryLimitPolicy.{NormalizedQueryLimits, runtime_filter_stats}

-- An offset is absent or an integer that is not negative, of which one is -0.
abbrev pub IsOffset : Option Number → Type 0
IsOffset none = Unit
IsOffset (some nan) = ⊥
IsOffset (some (infinite negative)) = ⊥
IsOffset (some (finite true magnitude)) = magnitude ≡ 0
IsOffset (some (finite false magnitude)) = magnitude % 2 ^ 1074 ≡ 0

-- A limit is a positive integer that is at most the page size.
pub record IsPage (limit : Option Number) (max_page_size : ℕ) : Type 0 where
  pub magnitude : ℕ
  pub number : limit ≡ some (finite false magnitude)
  pub positive : 0 < magnitude
  pub integer : magnitude % 2 ^ 1074 ≡ 0
  pub bounded : magnitude ≤ max_page_size * 2 ^ 1074

-- The numbers of the fields to group by and of the aggregates are within the limits.
abbrev pub Grouping : NormalizedQueryLimits → RuntimeQuery → Type 0
Grouping limits (raw q) = Unit
Grouping limits (grouped q) =
    (length q.group_by ≤ limits.max_group_by_fields)
    × (length q.aggregates ≤ limits.max_aggregate_count)

-- The query is one that the limits allow.
pub record Within (limits : NormalizedQueryLimits) (query : RuntimeQuery) : Type 0 where
  pub page : IsPage (limit_of query) limits.max_page_size
  pub offset : IsOffset (offset_of query)
  pub depth : (runtime_filter_stats (condition_of query)).depth ≤ limits.max_filter_depth
  pub conditions :
      (runtime_filter_stats (condition_of query)).conditions ≤ limits.max_filter_conditions
  pub grouping : Grouping limits query

-- The query as it goes on: with the page size as its limit, if it has none, and else as it is.
abbrev pub with_page : RuntimeQuery → ℕ → RuntimeQuery
with_page (raw q) max_page_size = raw (record {
  fields = q.fields;
  condition = q.condition;
  order_by = q.order_by;
  offset = q.offset;
  limit = some (finite false (max_page_size * 2 ^ 1074));
})
with_page (grouped q) max_page_size = grouped (record {
  group_by = q.group_by;
  aggregates = q.aggregates;
  condition = q.condition;
  order_by = q.order_by;
  offset = q.offset;
  limit = some (finite false (max_page_size * 2 ^ 1074));
})

pub data IsPaged (max_page_size : ℕ) (query passed : RuntimeQuery) : Type 0 where
  as_given :
      (n : Number) → limit_of query ≡ some n → passed ≡ query → IsPaged max_page_size query passed
  by_default :
      limit_of query ≡ none
      → passed ≡ with_page query max_page_size
      → IsPaged max_page_size query passed
