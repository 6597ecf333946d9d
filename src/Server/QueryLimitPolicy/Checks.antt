-- ===== src/Server/QueryLimitPolicy/Checks.antt =====
-- server/query-limit-policy.ts: the checks of a query, each of them against the bound that it is for.
use mathlib.Core.Path.{subst}
use native.Mathlib.Nat.{mul-mod_left}
use view_server.Prelude.{
  ℕ, ◌*◌, ◌%◌, ◌^◌, ◌≤◌, ◌<◌, String, ◌≡◌, refl, sym, ap, ◌∙◌, ◌≢◌, Bool, true, false, ◌||◌, not,
  Option, none, some, arith, ltb, ◌==◌, if◌then◌else◌, length,
}
use view_server.Protocol.Value.{Number, nan, infinite, finite}
use view_server.Worker.QueryEngine.Query.{
  RuntimeQuery, raw, grouped, offset_of, limit_of, condition_of,
}
use view_server.Server.QueryLimitPolicy.{
  NormalizedQueryLimits, ViewServerError, runtime_filter_stats, from_nat, is_integer, exceeds,
  bad_offset, bad_limit, limited, set_limit, grouped_error, filter_error, page_error, window_error,
}
use view_server.Server.QueryLimitPolicy.Bounds.{
  IsOffset, IsPage, Grouping, with_page, IsPaged, as_given, by_default,
}

ltb-false : (a b : ℕ) → ltb a b ≡ false → b ≤ a
ltb-false a b h = ground arith

not_over : (a b : ℕ) → b ≤ a → ltb a b ≡ false
not_over a b h = ground arith

or_false : (a b : Bool) → a || b ≡ false → (a ≡ false) × (b ≡ false)
or_false true b h = cc
or_false false b h = (refl, h)

some_ne_none {ℓ} : {A : Type ℓ} {a : A} → some a ≢ none
some_ne_none h = cc

-- A check that is passed.
passed :
    (b : Bool) (e : ViewServerError) (rest : Option ViewServerError)
    → (if b then some e else rest) ≡ none
    → (b ≡ false) × (rest ≡ none)
passed true e rest h = absurd (some_ne_none h)
passed false e rest h = (refl, h)

divides : (m : ℕ) → not (m % 2 ^ 1074 == 0) ≡ false → m % 2 ^ 1074 ≡ 0
divides m h = ground arith

divided : (m : ℕ) → m % 2 ^ 1074 ≡ 0 → not (m % 2 ^ 1074 == 0) ≡ false
divided m h = ground arith

IsOffset-ok : (offset : Option Number) → bad_offset offset ≡ false → IsOffset offset
unfolding bad_offset is_integer
IsOffset-ok none h = tt
IsOffset-ok (some nan) h = cc
IsOffset-ok (some (infinite s)) h = cc
IsOffset-ok (some (finite true m)) h = none_below m ((or_false _ _ h).1)
  where
    none_below : (m : ℕ) → ltb 0 m ≡ false → m ≡ 0
    none_below m h = ground arith
IsOffset-ok (some (finite false m)) h = divides m ((or_false _ _ h).0)

IsOffset-passes : (offset : Option Number) → IsOffset offset → bad_offset offset ≡ false
unfolding bad_offset is_integer
IsOffset-passes none h = refl
IsOffset-passes (some nan) h = absurd h
IsOffset-passes (some (infinite s)) h = absurd h
IsOffset-passes (some (finite true m)) h = rw h refl
IsOffset-passes (some (finite false m)) h = rw (divided m h) refl

IsPage-of_number :
    (topic : String) (n : Number) (limits : NormalizedQueryLimits)
    → bad_limit (some n) ≡ false
    → page_error topic (some n) limits ≡ none
    → IsPage (some n) limits.max_page_size
unfolding bad_limit page_error exceeds is_integer
IsPage-of_number topic nan limits b h = cc
IsPage-of_number topic (infinite s) limits b h = cc
IsPage-of_number topic (finite true m) limits b h = absurd (true_ne_false ((or_false _ _ b).1))
  where
    true_ne_false : true ≢ false
    true_ne_false e = cc
IsPage-of_number topic (finite false m) limits b h =
    let (whole, nonzero) = or_false _ _ b in
    let (fits, _) = passed (ltb (limits.max_page_size * 2 ^ 1074) m) _ _ h in
    record {
      magnitude = m;
      number = refl;
      positive = not_zero m nonzero;
      integer = divides m whole;
      bounded = ltb-false _ _ fits;
    }
  where
    not_zero : (m : ℕ) → (m == 0) ≡ false → 0 < m
    not_zero m e = ground arith

default-IsPage : (n : ℕ) → 0 < n → IsPage (some (finite false (n * 2 ^ 1074))) n
default-IsPage n h = record {
  magnitude = n * 2 ^ 1074;
  number = refl;
  positive = omega arith;
  integer = mul-mod_left n (2 ^ 1074);
  bounded = omega arith;
}

limit_passes :
    (n : Number) (max_page_size : ℕ) → IsPage (some n) max_page_size → bad_limit (some n) ≡ false
unfolding bad_limit is_integer
limit_passes n max_page_size page =
    let same : n ≡ finite false page.magnitude = some_injective page.number in
    let whole = divided page.magnitude page.integer in
    let nonzero = not_zero page.magnitude page.positive in rw same (rw (whole, nonzero) refl)
  where
    some_injective : {m n : Number} → some m ≡ some n → m ≡ n
    some_injective e = cc

    not_zero : (m : ℕ) → 0 < m → (m == 0) ≡ false
    not_zero m h = ground arith

pub page_passes :
    (topic : String) (limit : Option Number) (limits : NormalizedQueryLimits)
    → IsPage limit limits.max_page_size
    → page_error topic limit limits ≡ none
unfolding page_error exceeds
page_passes topic limit limits page =
    let fits = not_over (limits.max_page_size * 2 ^ 1074) page.magnitude page.bounded in
    rw page.number (rw fits refl)

-- What `limitedQuery` is.
pub limited-IsPaged :
    (query : RuntimeQuery) (max_page_size : ℕ)
    → IsPaged max_page_size query (limited query (limit_of query) max_page_size)
limited-IsPaged query n = by_limit (limit_of query) refl
  where
    page_set : (query : RuntimeQuery) → set_limit query (from_nat n) ≡ with_page query n
    page_set (raw q) = refl
    page_set (grouped q) = refl

    by_limit :
        (limit : Option Number) → limit_of query ≡ limit → IsPaged n query (limited query limit n)
    by_limit none at = by_default at (page_set query)
    by_limit (some m) at = as_given m at refl

offset_of-paged :
    (n : ℕ) (query passed : RuntimeQuery)
    → IsPaged n query passed
    → offset_of passed ≡ offset_of query
offset_of-paged n query passed (as_given m at e) = ap offset_of e
offset_of-paged n (raw q) passed (by_default at e) = ap offset_of e
offset_of-paged n (grouped q) passed (by_default at e) = ap offset_of e

limit_of-with_page :
    (query : RuntimeQuery) (n : ℕ)
    → limit_of (with_page query n) ≡ some (finite false (n * 2 ^ 1074))
limit_of-with_page (raw q) n = refl
limit_of-with_page (grouped q) n = refl

-- The checks of the offset and the limit, both ways.
pub window_ok :
    (topic : String) (query passed : RuntimeQuery) (limits : NormalizedQueryLimits)
    → 0 < limits.max_page_size
    → IsPaged limits.max_page_size query passed
    → window_error topic query ≡ none
    → page_error topic (limit_of passed) limits ≡ none
    → IsOffset (offset_of passed) × IsPage (limit_of passed) limits.max_page_size
unfolding window_error
window_ok topic query next limits positive paged h g =
    let (a, rest) = passed (bad_offset (offset_of query)) _ _ h in
    let (b, _) = passed (bad_limit (limit_of query)) _ _ rest in
    let offset =
      subst IsOffset (sym (offset_of-paged limits.max_page_size query next paged))
        (IsOffset-ok (offset_of query) a) in
    (offset, page next paged b g)
  where
    page :
        (next : RuntimeQuery)
        → IsPaged limits.max_page_size query next
        → bad_limit (limit_of query) ≡ false
        → page_error topic (limit_of next) limits ≡ none
        → IsPage (limit_of next) limits.max_page_size
    page next (as_given n at e) b g =
        let limit = ap limit_of e ∙ at in
        let b' = rw at at b in
        let g' = rw limit at g in rw limit (IsPage-of_number topic n limits b' g')
    page next (by_default at e) b g =
        rw (ap limit_of e ∙ limit_of-with_page query limits.max_page_size)
          (default-IsPage limits.max_page_size positive)

pub window_passes :
    (topic : String) (query next : RuntimeQuery) (n : ℕ)
    → IsPaged n query next
    → IsOffset (offset_of next)
    → IsPage (limit_of next) n
    → window_error topic query ≡ none
unfolding window_error bad_limit
window_passes topic query next n paged offset page =
    let o =
      IsOffset-passes (offset_of query)
        (subst IsOffset (offset_of-paged n query next paged) offset) in
    rw (o, limit next paged page) refl
  where
    limit :
        (next : RuntimeQuery)
        → IsPaged n query next
        → IsPage (limit_of next) n
        → bad_limit (limit_of query) ≡ false
    limit next (as_given m at e) page =
        rw at (limit_passes m n (subst (λ l. IsPage l n) (ap limit_of e ∙ at) page))
    limit next (by_default at e) page = rw at refl

pub Grouping-ok :
    (topic : String) (query : RuntimeQuery) (limits : NormalizedQueryLimits)
    → grouped_error topic query limits ≡ none
    → Grouping limits query
unfolding grouped_error
Grouping-ok topic (raw q) limits h = tt
Grouping-ok topic (grouped q) limits h =
    let (a, rest) = passed (ltb limits.max_group_by_fields (length q.group_by)) _ _ h in
    let (b, _) = passed (ltb limits.max_aggregate_count (length q.aggregates)) _ _ rest in
    (ltb-false _ _ a, ltb-false _ _ b)

pub Grouping-passes :
    (topic : String) (query : RuntimeQuery) (limits : NormalizedQueryLimits)
    → Grouping limits query
    → grouped_error topic query limits ≡ none
unfolding grouped_error
Grouping-passes topic (raw q) limits h = refl
Grouping-passes topic (grouped q) limits (a, b) = rw (not_over _ _ a, not_over _ _ b) refl

pub filter_ok :
    (topic : String) (query : RuntimeQuery) (limits : NormalizedQueryLimits)
    → filter_error topic query limits ≡ none
    → ((runtime_filter_stats (condition_of query)).depth ≤ limits.max_filter_depth)
      × ((runtime_filter_stats (condition_of query)).conditions ≤ limits.max_filter_conditions)
unfolding filter_error
filter_ok topic query limits h =
    let stats = runtime_filter_stats (condition_of query) in
    let (a, rest) = passed (ltb limits.max_filter_depth stats.depth) _ _ h in
    let (b, _) = passed (ltb limits.max_filter_conditions stats.conditions) _ _ rest in
    (ltb-false _ _ a, ltb-false _ _ b)

pub filter_passes :
    (topic : String) (query : RuntimeQuery) (limits : NormalizedQueryLimits)
    → (runtime_filter_stats (condition_of query)).depth ≤ limits.max_filter_depth
    → (runtime_filter_stats (condition_of query)).conditions ≤ limits.max_filter_conditions
    → filter_error topic query limits ≡ none
unfolding filter_error
filter_passes topic query limits deep many = rw (not_over _ _ deep, not_over _ _ many) refl
