-- ===== src/Worker/Projection.antt =====
-- worker/projection.ts: the fields of a row that a query selects.
use view_server.Prelude.{
  String, Bool, true, false, ◌&&◌, ◌||◌, List, [], ◌∷◌, ◌++◌, Option, none, some, if◌then◌else◌,
}
use view_server.Protocol.Value.{Row, read, write, keys, materialize_query_value}
use view_server.Protocol.Host.{Host}
use view_server.Protocol.QuerySemantics.{values_equal}
use view_server.Worker.MutationStore.{set_of, contains}

-- `Object.entries(query.fields)`
abbrev pub FieldProjection : Type 0
FieldProjection = List (String × Bool)

unfoldable pub project_fields : Row → FieldProjection → Row → Row
project_fields row [] projected = projected
project_fields row ((field, enabled) ∷ fields) projected = project_fields row fields (
    if enabled then write projected field (materialize_query_value (read row field)) else projected)

unfoldable pub project_row : Row → FieldProjection → String → Row
unfolding project_fields
project_row row fields id_field = write (project_fields row fields []) id_field (read row id_field)

module _ (host : Host) where
  -- The loop of `projectedRowsEqual`.
  unfoldable pub equal_at : Row → Row → List String → Bool
  equal_at left right [] = true
  equal_at left right (key ∷ names) =
      values_equal host (materialize_query_value (read left key))
        (materialize_query_value (read right key)) true
      && equal_at left right names

  unfoldable pub projected_rows_equal : Option Row → Row → Bool
  unfolding equal_at
  projected_rows_equal none right = false
  projected_rows_equal (some left) right = equal_at left right (set_of (keys left ++ keys right))

-- The loop of `projectedFieldsMayHaveChanged`.
unfoldable pub some_projected : FieldProjection → List String → Bool
some_projected [] changed_fields = false
some_projected ((field, enabled) ∷ fields) changed_fields =
    enabled && contains changed_fields field || some_projected fields changed_fields

unfoldable pub projected_fields_may_have_changed : FieldProjection → String → List String → Bool
unfolding some_projected
projected_fields_may_have_changed fields id_field changed_fields =
    contains changed_fields id_field || some_projected fields changed_fields
