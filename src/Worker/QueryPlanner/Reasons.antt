-- ===== src/Worker/QueryPlanner/Reasons.antt =====
-- worker/query-planner.ts: what each strategy means for the query that gets it.
use view_server.Prelude.{
  ℕ, ◌≤◌, ◌<◌, ◌≡◌, ◌≢◌, refl, ap, sym, ◌∙◌, inl, inr, Bool, Bool-cases, true, false, ◌&&◌, Option,
  none, some, ltb, leb, ◌==◌, if◌then◌else◌, arith, ltb→lt, leb→le,
}
use view_server.Worker.QueryEngine.Query.{
  RuntimeQuery, raw, grouped, RuntimeGroupedQuery, is_incremental_grouped_accumulator_supported,
}
use view_server.Worker.QueryEngine.Execute.{RuntimeRawQuery}
use view_server.Worker.QueryPlanner.{
  QueryOperation, query_operation, subscription_operation, QueryStrategy, raw_small_window_snapshot,
  raw_active_plan_eligible, raw_active_plan_skipped, grouped_chdb_refresh,
  grouped_incremental_accumulator_eligible, memory_fallback, query_rejected_by_limits,
  QueryPlannerOptions, is_true, is_zero, plan, fits_accumulator, plan_grouped, window_end, plan_raw,
  plan_kind, plan_query,
}

-- The rows of the topic fit the accumulator, and all aggregates can be kept up to date in it.
abbrev pub Accumulates : QueryPlannerOptions → RuntimeGroupedQuery → Type 0
Accumulates o q =
    (0 < o.grouped_accumulator_max_rows)
    × (o.row_count ≤ o.grouped_accumulator_max_rows)
    × (is_incremental_grouped_accumulator_supported q ≡ true)

abbrev pub Admits : QueryPlannerOptions → Type 0
Admits o = (o.row_count ≤ o.active_plan_auto_build_max_rows) × (o.max_active_plans ≢ some 0)

-- What must hold of the query and the options for a strategy to be chosen.
abbrev pub Means : QueryPlannerOptions → RuntimeQuery → QueryOperation → QueryStrategy → Type 0
Means o q operation query_rejected_by_limits = o.rejected_by_limits ≡ some true
Means o (grouped q) operation grouped_incremental_accumulator_eligible = Accumulates o q
Means o (grouped q) operation grouped_chdb_refresh =
    ¬ Accumulates o q × (o.supports_grouped_refresh_snapshots ≡ true)
Means o (grouped q) operation memory_fallback =
    ¬ Accumulates o q × (o.supports_grouped_refresh_snapshots ≡ false)
Means o (raw q) query_operation raw_small_window_snapshot =
    window_end q ≤ o.raw_window_optimization_limit
Means o (raw q) query_operation memory_fallback = o.raw_window_optimization_limit < window_end q
Means o (raw q) subscription_operation raw_active_plan_skipped = ¬ Admits o
Means o (raw q) subscription_operation raw_active_plan_eligible = Admits o
Means o q operation strategy = ⊥

true_ne_false : true ≢ false
true_ne_false e = cc

all_true : (a b c : Bool) → a && b && c ≡ true → (a ≡ true) × (b ≡ true) × (c ≡ true)
all_true true true true h = (refl, refl, refl)
all_true true true false h = cc
all_true true false c h = cc
all_true false b c h = cc

fits-Accumulates :
    (o : QueryPlannerOptions) (q : RuntimeGroupedQuery)
    → fits_accumulator o q ≡ true
    → Accumulates o q
fits-Accumulates o q h =
    let (a, b, c) =
      all_true (ltb 0 o.grouped_accumulator_max_rows)
        (leb o.row_count o.grouped_accumulator_max_rows)
        (is_incremental_grouped_accumulator_supported q) h in
    (ltb→lt _ _ a, leb→le _ _ b, c)

not-Accumulates :
    (o : QueryPlannerOptions) (q : RuntimeGroupedQuery)
    → fits_accumulator o q ≡ false
    → ¬ Accumulates o q
not-Accumulates o q h (a, b, c) = true_ne_false (sym fit ∙ h)
  where
    fit : fits_accumulator o q ≡ true
    fit =
        let p : ltb 0 o.grouped_accumulator_max_rows ≡ true = ground arith in
        let r : leb o.row_count o.grouped_accumulator_max_rows ≡ true = ground arith in
        rw (p, r, c) refl

plan_grouped_lem :
    (o : QueryPlannerOptions) (q : RuntimeGroupedQuery)
    → Means o (grouped q) o.operation (plan_grouped o q).strategy
unfolding plan_grouped
plan_grouped_lem o q = elim (Bool-cases (fits_accumulator o q)) [
  | inl h ↦ rw h (fits-Accumulates o q h)
  | inr h ↦ rw h (refresh h o.supports_grouped_refresh_snapshots refl)
]
  where
    refresh :
        fits_accumulator o q ≡ false
        → (b : Bool) → o.supports_grouped_refresh_snapshots ≡ b
        → Means o
            (grouped q)
            o.operation
            (if b
              then plan o grouped_chdb_refresh
                  "grouped query uses chDB refresh snapshot with memory fallback"
              else plan o memory_fallback "grouped query has no supported accelerator").strategy
    refresh h true s = (not-Accumulates o q h, s)
    refresh h false s = (not-Accumulates o q h, s)

-- The limit on plans, which may be absent.
zero-some : (limit : Option ℕ) → is_zero limit ≡ true → limit ≡ some 0
zero-some none h = cc
zero-some (some n) h = ap some (is_0 n h)
  where
    is_0 : (n : ℕ) → (n == 0) ≡ true → n ≡ 0
    is_0 n h = ground arith

not_zero : (limit : Option ℕ) → is_zero limit ≡ false → limit ≢ some 0
not_zero limit h e = true_ne_false (sym (ap is_zero e) ∙ h)

plan_raw_lem :
    (o : QueryPlannerOptions) (q : RuntimeRawQuery) (operation : QueryOperation)
    → Means o (raw q) operation (plan_raw o q operation).strategy
unfolding plan_raw
plan_raw_lem o q query_operation =
    elim (Bool-cases (leb (window_end q) o.raw_window_optimization_limit)) [
      | inl h ↦ rw h (leb→le (window_end q) o.raw_window_optimization_limit h)
      | inr h ↦ rw h (above (window_end q) o.raw_window_optimization_limit h)
    ]
  where
    above : (a b : ℕ) → leb a b ≡ false → b < a
    above a b h = ground arith
plan_raw_lem o q subscription_operation =
    elim (Bool-cases (ltb o.active_plan_auto_build_max_rows o.row_count)) [
      | inl h ↦
          let more = ltb→lt o.active_plan_auto_build_max_rows o.row_count h in
          rw h (λ admits. too_many more admits.0)
      | inr h ↦ elim (Bool-cases (is_zero o.max_active_plans)) [
        | inl z ↦ rw (h, z) (λ admits. admits.1 (zero-some o.max_active_plans z))
        | inr z ↦
            rw (h, z)
              (
                within o.active_plan_auto_build_max_rows o.row_count h,
                not_zero o.max_active_plans z,
              )
      ]
    ]
  where
    too_many :
        o.active_plan_auto_build_max_rows < o.row_count
        → ¬ (o.row_count ≤ o.active_plan_auto_build_max_rows)
    too_many l k = omega arith

    within : (a b : ℕ) → ltb a b ≡ false → b ≤ a
    within a b h = ground arith

-- The strategy that is chosen means what it says: a query that counts as rejected was rejected, and of
-- the others an incremental accumulator or an active plan is chosen exactly if it is admitted, a chDB
-- refresh only where it is supported and the accumulator is not admitted, a small window only where the
-- window fits; no raw query gets a strategy for grouped ones or the other way round.
pub plan_query_lem : (o : QueryPlannerOptions) → Means o o.query o.operation (plan_query o).strategy
unfolding plan_query
plan_query_lem o = elim (Bool-cases (is_true o.rejected_by_limits)) [
  | inl h ↦ rw h (rejected o.query o.operation (given o.rejected_by_limits h))
  | inr h ↦ rw h (of_kind o.query)
]
  where
    given : (b : Option Bool) → is_true b ≡ true → b ≡ some true
    given (some b) e = ap some e
    given none e = cc

    rejected :
        (q : RuntimeQuery) (operation : QueryOperation)
        → o.rejected_by_limits ≡ some true
        → Means o q operation query_rejected_by_limits
    rejected (raw q) query_operation e = e
    rejected (raw q) subscription_operation e = e
    rejected (grouped q) operation e = e

    of_kind : (q : RuntimeQuery) → Means o q o.operation (plan_kind o q).strategy
    of_kind (raw q) = plan_raw_lem o q o.operation
    of_kind (grouped q) = plan_grouped_lem o q
