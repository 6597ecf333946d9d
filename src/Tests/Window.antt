-- ===== src/Tests/Window.antt =====
-- The window of a small topic, ordered by a number.
use Prim.Native.Nat.{Ordering, compare}
use view_server.Prelude.{ℕ, ◌≡◌, refl, List, [], ◌∷◌, none, some, true, false, ltb, All, arith, ◌<◌}
use view_server.Protocol.Value.{Row, Value, finite, number, read}
use view_server.Protocol.Host.{Host}
use view_server.Protocol.QuerySemantics.{
  OrderBy, asc, compare_rows_for_order, compare_values, compare_non_null_values, compare_plain,
  as_decimals, number_eq, number_lt,
}
use view_server.Ordered.{search_loop}
use view_server.Ordered.Search.{search_loop_lem}
use view_server.Worker.QueryEngine.Execute.{
  RuntimeRawQuery, execute_raw_query_windowed_splice, execute_raw_query_sorted,
}
use view_server.Worker.QueryEngine.Windowed.{
  execute_raw_query_windowed_splice_lem, execute_raw_query_sorted_lem, window_of,
}

-- No objects, and letters of one case.
abbrev pub host : Host
host = record {
  Decimal = Unit;
  decimal_of = λ r. none;
  elements_of = λ r. none;
  from_bigint = λ n. tt;
  from_number = λ n. some tt;
  from_string = λ s. none;
  equals = λ a b. true;
  order = λ a b. Ordering.eq;
  lower = λ s. s;
  text_lt = λ s t. false;
  includes = λ s t. false;
  starts_with = λ s t. false;
  to_string = λ v. "";
}

abbrev by_n : OrderBy
by_n = record { field = "n"; direction = asc } ∷ []

abbrev row : ℕ → Row
row n = ("n", number (finite false n)) ∷ []

abbrev rows : List Row
rows = row 3 ∷ row 1 ∷ row 2 ∷ []

abbrev IsNumbered : Row → Type 0
IsNumbered r = (n : ℕ) × (r ≡ row n)

abbrev magnitude_of : Value → ℕ
magnitude_of (number (finite false m)) = m
magnitude_of _ = 0

abbrev rank : Row → ℕ
unfolding read
rank r = magnitude_of (read r "n")

agree_at :
    (n m : ℕ)
    → compare_rows_for_order host (row n) (row m) by_n ≡ compare (rank (row n)) (rank (row m))
unfolding compare_rows_for_order compare_values compare_non_null_values compare_plain as_decimals
    number_eq number_lt read rank
agree_at n m = ground arith

agree :
    (a b : Row)
    → IsNumbered a
    → IsNumbered b
    → compare_rows_for_order host a b by_n ≡ compare (rank a) (rank b)
agree a b (n, p) (m, q) = rw (p, q) (agree_at n m)

rows-IsNumbered : All IsNumbered rows
rows-IsNumbered = ((3, refl), ((1, refl), ((2, refl), tt)))

abbrev query : RuntimeRawQuery
query = record {
  fields = ("n", true) ∷ [];
  condition = none;
  order_by = some by_n;
  offset = none;
  limit = none;
}

execute_raw_query_windowed_splice_lem_example :
    execute_raw_query_windowed_splice host rows query "n" (λ r. true) by_n 0 2
    ≡ execute_raw_query_sorted host rows query "n" (λ r. true) by_n 0 2
execute_raw_query_windowed_splice_lem_example =
    execute_raw_query_windowed_splice_lem host by_n rank IsNumbered agree rows query "n" (λ r. true)
      0 2 rows-IsNumbered

execute_raw_query_sorted_lem_example :
    execute_raw_query_sorted host rows query "n" (λ r. true) by_n 1 2
    ≡ window_of host by_n rows query "n" (λ r. true) 1 2
execute_raw_query_sorted_lem_example =
    execute_raw_query_sorted_lem host by_n rows query "n" (λ r. true) 1 2

below_three : (i : ℕ) → i < 8 → ltb i 3 ≡ ltb i 3
below_three i h = refl

search_loop_lem_example : search_loop (λ i. ltb i 3) 8 0 8 ≡ 3
search_loop_lem_example =
    search_loop_lem (λ i. ltb i 3) 8 0 8 3 (omega arith) (omega arith) (omega arith) below_three
