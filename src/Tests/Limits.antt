-- ===== src/Tests/Limits.antt =====
-- A raw query under small limits.
use view_server.Prelude.{[], ◌∷◌, Option, none, some, String, true, arith}
use view_server.Protocol.Value.{string}
use view_server.Worker.QueryEngine.Filter.{predicate, equals}
use view_server.Worker.QueryEngine.Query.{RuntimeQuery, raw}
use view_server.Server.QueryLimitPolicy.{
  QueryLimitPolicy, QueryLimitsConfig, validate, limits_for_topic, override,
}
use view_server.Server.QueryLimitPolicy.Verdict.{Verdict, validate_lem}

abbrev no_overrides : String → Option QueryLimitsConfig
no_overrides topic = none

abbrev policy : QueryLimitPolicy
policy = record {
  global_limits = record {
    max_page_size = 50;
    max_aggregate_count = 4;
    max_group_by_fields = 2;
    max_filter_depth = 3;
    max_filter_conditions = 5;
  };
  topic_limits = no_overrides;
  rejected_by_topic = ("orders", 2) ∷ [];
}

abbrev query : RuntimeQuery
query = raw (record {
  fields = ("id", true) ∷ [];
  condition = some (predicate "id" equals (string "a"));
  order_by = none;
  offset = none;
  limit = none;
})

validate_lem_example : Verdict policy "orders" query none (validate policy "orders" query none)
unfolding limits_for_topic override
validate_lem_example = validate_lem policy "orders" query none (omega arith)
