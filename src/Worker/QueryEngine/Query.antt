-- ===== src/Worker/QueryEngine/Query.antt =====
-- protocol/query.ts: the queries as the server reads them, raw or grouped.
use view_server.Prelude.{String, Bool, true, false, Option, List, [], ◌∷◌, ◌&&◌}
use view_server.Protocol.Value.{Number}
use view_server.Protocol.QuerySemantics.{OrderBy}
use view_server.Worker.QueryEngine.Filter.{RuntimeFilterNode}
use view_server.Worker.QueryEngine.Execute.{RuntimeRawQuery}

pub data AggregateFunction : Type 0 where
  count count_distinct sum avg min_of max_of : AggregateFunction
  string_concat string_concat_distinct : String → AggregateFunction

pub record RuntimeAggregateDefinition : Type 0 where
  pub agg_func : AggregateFunction
  pub field : String

-- `condition` is the field `where`; the aggregates are the entries of the map, in order.
pub record RuntimeGroupedQuery : Type 0 where
  pub group_by : List String
  pub aggregates : List (String × RuntimeAggregateDefinition)
  pub condition : Option RuntimeFilterNode
  pub order_by : Option OrderBy
  pub offset : Option Number
  pub limit : Option Number

pub data RuntimeQuery : Type 0 where
  raw : RuntimeRawQuery → RuntimeQuery
  grouped : RuntimeGroupedQuery → RuntimeQuery

abbrev pub offset_of : RuntimeQuery → Option Number
offset_of (raw q) = q.offset
offset_of (grouped q) = q.offset

abbrev pub limit_of : RuntimeQuery → Option Number
limit_of (raw q) = q.limit
limit_of (grouped q) = q.limit

abbrev pub condition_of : RuntimeQuery → Option RuntimeFilterNode
condition_of (raw q) = q.condition
condition_of (grouped q) = q.condition

unfoldable pub is_incremental_aggregate_supported : AggregateFunction → Bool
is_incremental_aggregate_supported count = true
is_incremental_aggregate_supported sum = true
is_incremental_aggregate_supported min_of = true
is_incremental_aggregate_supported max_of = true
is_incremental_aggregate_supported _ = false

unfoldable pub all_supported : List (String × RuntimeAggregateDefinition) → Bool
unfolding is_incremental_aggregate_supported
all_supported [] = true
all_supported ((_, aggregate) ∷ aggregates) =
    is_incremental_aggregate_supported aggregate.agg_func && all_supported aggregates

unfoldable pub is_incremental_grouped_accumulator_supported : RuntimeGroupedQuery → Bool
unfolding all_supported
is_incremental_grouped_accumulator_supported query = all_supported query.aggregates
