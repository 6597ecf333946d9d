-- ===== src/Server/QueryLimitPolicy/Verdict.antt =====
-- server/query-limit-policy.ts: `validate`, and the counts of what it rejects.
use text.Mathlib.Text.{◌==◌ as str_eq}
use text.Mathlib.TextEquality.{eq_iff}
use view_server.Prelude.{
  ℕ, ◌+◌, ◌<◌, String, ◌≡◌, refl, sym, ap, ◌∙◌, ◌≢◌, ◌⊎◌, inl, inr, false, Option, none, some, List,
  [], ◌∷◌, arith, if◌then◌else◌, Bool-cases,
}
use view_server.Protocol.Texts.{same_text, other_text}
use view_server.Worker.QueryEngine.Query.{RuntimeQuery, limit_of}
use view_server.Server.QueryLimitPolicy.{
  QueryLimitPolicy, ViewServerError, Result, ok, error, limited, limits_for_topic, count_of,
  set_count, sum_counts, rejected_count, rejected_queries, reject, grouped_error, filter_error,
  page_error, window_error, validate, or_reject, with_catalog,
}
use view_server.Server.QueryLimitPolicy.Bounds.{Within, IsPaged}
use view_server.Server.QueryLimitPolicy.Checks.{
  limited-IsPaged, window_ok, window_passes, page_passes, Grouping-ok, Grouping-passes, filter_ok,
  filter_passes,
}

count_of-set_count_self :
    (cs : List (String × ℕ)) (t : String) (n : ℕ) → count_of (set_count cs t n) t ≡ n
unfolding count_of set_count
count_of-set_count_self [] t n = rw (same_text t) refl
count_of-set_count_self ((name, m) ∷ cs) t n = elim (Bool-cases (str_eq name t)) [
  | inl e ↦ rw (e, count_of) (rw e refl)
  | inr e ↦ rw (e, count_of) (rw e (count_of-set_count_self cs t n))
]

count_of-set_count_other :
    (cs : List (String × ℕ)) (t u : String) (n : ℕ)
    → t ≢ u
    → count_of (set_count cs t n) u ≡ count_of cs u
unfolding count_of set_count
count_of-set_count_other [] t u n d = rw (other_text t u d) refl
count_of-set_count_other ((name, m) ∷ cs) t u n d = elim (Bool-cases (str_eq name t)) [
  | inl e ↦
      let apart : str_eq name u ≡ false =
        other_text name u (λ q. d (sym ((eq_iff name t).0 e) ∙ q)) in
      rw (e, count_of) (rw apart refl)
  | inr e ↦
      rw (e, count_of)
        (ap (λ r. if str_eq name u then m else r) (count_of-set_count_other cs t u n d))
]

sum_counts-set_count :
    (cs : List (String × ℕ)) (t : String)
    → sum_counts (set_count cs t (count_of cs t + 1)) ≡ sum_counts cs + 1
unfolding sum_counts count_of set_count
sum_counts-set_count [] t = omega arith
sum_counts-set_count ((name, m) ∷ cs) t = elim (Bool-cases (str_eq name t)) [
  | inl e ↦ rw (e, sum_counts) (omega arith)
  | inr e ↦ rw (e, sum_counts) (omega (arith, sum_counts-set_count cs t))
]

-- One more rejection of the topic, and none of another.
pub record Counted (p p' : QueryLimitPolicy) (topic : String) : Type 0 where
  pub topic_count : rejected_count p' topic ≡ rejected_count p topic + 1
  pub other_counts :
      (other : String) → topic ≢ other → rejected_count p' other ≡ rejected_count p other
  pub total : rejected_queries p' ≡ rejected_queries p + 1

reject-Counted :
    (p : QueryLimitPolicy) (topic : String) (e : ViewServerError)
    → Counted p (reject p topic e).0 topic
unfolding reject rejected_count rejected_queries
reject-Counted p topic e = record {
  topic_count =
      count_of-set_count_self p.rejected_by_topic topic (count_of p.rejected_by_topic topic + 1);
  other_counts = λ other d.
      count_of-set_count_other p.rejected_by_topic topic other
        (count_of p.rejected_by_topic topic + 1) d;
  total = sum_counts-set_count p.rejected_by_topic topic;
}

pub rejected :
    (p : QueryLimitPolicy) (topic : String) (e : ViewServerError)
    → Counted p (reject p topic e).0 topic × ((reject p topic e).1 ≡ error e)
unfolding reject
rejected p topic e = (reject-Counted p topic e, refl)

-- The answer for a query that is within the limits: that of the catalog, whichever it is, and with no
-- catalog the query itself.
abbrev pub Answered : Option (RuntimeQuery → Result) → RuntimeQuery → Result → Type 0
Answered none query result = result ≡ ok query
Answered (some validate_query) query result = result ≡ validate_query query

-- What a validation did with the query as it goes on: it is within the limits, nothing is counted and
-- the result is the answer for it, or it is not, and an error is the result and counted.
abbrev pub Outcome :
    QueryLimitPolicy
    → String
    → RuntimeQuery
    → Option (RuntimeQuery → Result)
    → QueryLimitPolicy × Result
    → Type 0
Outcome p topic query catalog (p', result) =
    (Within (limits_for_topic p topic) query × (p' ≡ p) × Answered catalog query result)
    ⊎ ((¬ Within (limits_for_topic p topic) query)
        × Counted p p' topic
        × ((e : ViewServerError) × (result ≡ error e)))

abbrev pub Verdict :
    QueryLimitPolicy
    → String
    → RuntimeQuery
    → Option (RuntimeQuery → Result)
    → QueryLimitPolicy × Result
    → Type 0
Verdict p topic query catalog result =
    (next : RuntimeQuery) × IsPaged (limits_for_topic p topic).max_page_size query next
    × Outcome p topic next catalog result

-- One check, which a query that is within the limits passes.
rejection :
    (p : QueryLimitPolicy) (topic : String) (query : RuntimeQuery)
    (catalog : Option (RuntimeQuery → Result)) (first : Option ViewServerError)
    (rest : QueryLimitPolicy × Result)
    → (Within (limits_for_topic p topic) query → first ≡ none)
    → (first ≡ none → Outcome p topic query catalog rest)
    → Outcome p topic query catalog (or_reject p topic first rest)
rejection p topic query catalog none rest passes go_on = go_on refl
rejection p topic query catalog (some e) rest passes go_on =
    let (counted, failed) = rejected p topic e in
    inr ((λ within. some_ne_none (passes within)), counted, (e, failed))
  where
    some_ne_none : some e ≢ none
    some_ne_none h = cc

answered :
    (catalog : Option (RuntimeQuery → Result)) (query : RuntimeQuery)
    → Answered catalog query (with_catalog catalog query)
answered none query = refl
answered (some validate_query) query = refl

-- Under a positive page size a validation goes by the query with the page size as its limit if it has
-- none. If the limit, offset, filter and grouping of that are within the limits of the topic, nothing is
-- counted, and the result is what the catalog says of it, be that a failure, or the query itself if
-- there is no catalog. If they are not, the result is an error, the count of the topic and the total go
-- up by one, and no other count changes.
pub validate_lem :
    (p : QueryLimitPolicy) (topic : String) (query : RuntimeQuery)
    (catalog : Option (RuntimeQuery → Result))
    → 0 < (limits_for_topic p topic).max_page_size
    → Verdict p topic query catalog (validate p topic query catalog)
unfolding validate
validate_lem p topic query catalog positive =
    let limits = limits_for_topic p topic in
    let q = limited query (limit_of query) limits.max_page_size in
    let paged = limited-IsPaged query limits.max_page_size in
    (
      q,
      paged,
      rejection p topic q catalog (window_error topic query) _
          (λ i. window_passes topic query q limits.max_page_size paged i.offset i.page)
          (λ w.
            rejection p topic q catalog (page_error topic (limit_of q) limits) _
              (λ i. page_passes topic (limit_of q) limits i.page)
              (λ g.
                rejection p topic q catalog (grouped_error topic q limits) _
                  (λ i. Grouping-passes topic q limits i.grouping)
                  (λ h.
                    rejection p topic q catalog (filter_error topic q limits) _
                      (λ i. filter_passes topic q limits i.depth i.conditions)
                      (λ f.
                        let (offset, page) = window_ok topic query q limits positive paged w g in
                        let (deep, many) = filter_ok topic q limits f in
                        let within : Within limits q = record {
                          page = page;
                          offset = offset;
                          depth = deep;
                          conditions = many;
                          grouping = Grouping-ok topic q limits h;
                        } in
                        inl (within, refl, answered catalog q))))),
    )
