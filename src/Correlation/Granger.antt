-- ===== src/Correlation/Granger.antt =====
-- correlation/causality/granger_engine.py: `find_root_cause`. The database and the libraries pandas
-- and statsmodels are not part of the program: they are the parameter `Statistics`.
pub mod Degrees
pub mod Leading
pub mod Causal
pub mod Selection
use distrosense.Base.{
  ◌>>=◌, ℕ, suc, ◌+◌, String, Bool, true, false, not, ◌||◌, Option, none, some, List, [], ◌∷◌, ◌++◌,
  Result, ok, raised, ltb, leb, select, string_eq, nat_eq, ◌==◌, if◌then◌else◌,
}
use distrosense.Base.Dict.{Dict, get, put, keys}
use distrosense.Correlation.Cluster.{Anomaly, Cluster}

-- `fetch` is `_fetch_series`, which raises where the query does, `size` is len, `aligned` is the length
-- of the two series' inner join without missing values, or the exception of pandas, and `granger effect cause` is the test of the joined series at every lag:
-- whether its least p value is below the threshold, or an exception.
pub record Statistics : Type 1 where
  pub Series : Type 0
  pub fetch : String → String → Result Series
  pub size : Series → ℕ
  pub aligned : Series → Series → Result ℕ
  pub granger : Series → Series → Result Bool

abbrev pub granger_min_points : ℕ
granger_min_points = 15

-- ANOMALY_TYPE_TO_METRIC
unfoldable pub anomaly_type_to_metric : Dict String String
anomaly_type_to_metric =
    ("CPU_SPIKE", "cpu_percent")
    ∷ ("LATENCY_BURST", "latency_p99")
    ∷ ("ERROR_RATE_SPIKE", "error_rate")
    ∷ ("REQUEST_DROP", "request_rate")
    ∷ []

abbrev pub or_cpu : Option String → String
or_cpu none = "cpu_percent"
or_cpu (some metric) = metric

-- `_metric_for`
unfoldable pub metric_for : Option String → String
unfolding anomaly_type_to_metric get
metric_for none = "cpu_percent"
metric_for (some anomaly_type) = or_cpu (get anomaly_type_to_metric anomaly_type)

pub data Method : Type 0 where
  granger fallback_earliest : Method

pub record RootCause : Type 0 where
  pub root_cause_service_id : String
  pub method : Method
  pub causal_edges : List (String × String)

-- sid not in latest or a.detected_at > latest[sid].detected_at
abbrev pub is_later : Option Anomaly → Anomaly → Bool
is_later none a = true
is_later (some b) a = ltb b.detected_at a.detected_at

unfoldable pub latest_by_service : Dict String Anomaly → List Anomaly → Dict String Anomaly
latest_by_service latest [] = latest
latest_by_service latest (a ∷ anomalies) =
    latest_by_service
      (if is_later (get latest a.service_id) a then put latest a.service_id a else latest) anomalies

-- d.get(k, 0)
abbrev pub degree : Dict String ℕ → String → ℕ
degree d k = elim (get d k) [ none ↦ 0 | some n ↦ n ]

-- d[k] += 1
unfoldable pub bump : Dict String ℕ → String → Dict String ℕ
bump d k = put d k (suc (degree d k))

-- {sid: 0 for sid in service_ids}
unfoldable pub zeros : List String → Dict String ℕ
zeros [] = []
zeros (sid ∷ sids) = (sid, 0) ∷ zeros sids

unfoldable pub out_degrees : Dict String ℕ → List (String × String) → Dict String ℕ
unfolding bump
out_degrees d [] = d
out_degrees d ((a, b) ∷ edges) = out_degrees (bump d a) edges

unfoldable pub in_degrees : Dict String ℕ → List (String × String) → Dict String ℕ
unfolding bump
in_degrees d [] = d
in_degrees d ((a, b) ∷ edges) = in_degrees (bump d b) edges

-- max(l, key=key) of a list that begins with `best`: the first of the greatest
unfoldable pub max_by : (String → ℕ) → String → List String → String
max_by key best [] = best
max_by key best (x ∷ l) = max_by key (if ltb (key best) (key x) then x else best) l

-- min(l, key=detected_at) of a list that begins with `best`: the first of the least
unfoldable pub earliest : Anomaly → List Anomaly → Anomaly
earliest best [] = best
earliest best (a ∷ l) = earliest (if ltb a.detected_at best.detected_at then a else best) l

-- candidates = sources if sources else service_ids
abbrev pub or_all : List String → List String → List String
or_all [] service_ids = service_ids
or_all sources service_ids = sources

-- max raises on an empty sequence
abbrev pub max_of : (String → ℕ) → List String → Result String
max_of key [] = raised
max_of key (x ∷ l) = ok (max_by key x l)

-- the part of `find_root_cause` behind the loops
unfoldable pub pick_root : List Anomaly → List String → List (String × String) → Result RootCause
unfolding out_degrees in_degrees zeros max_by earliest
pick_root [] service_ids [] = raised
pick_root (a ∷ anomalies) service_ids [] = ok (record {
  root_cause_service_id = (earliest a anomalies).service_id;
  method = fallback_earliest;
  causal_edges = [];
})
pick_root anomalies service_ids (e ∷ edges) =
    let out = out_degrees (zeros service_ids) (e ∷ edges) in
    let incoming = in_degrees (zeros service_ids) (e ∷ edges) in
    let sources = select (λ sid. degree incoming sid == 0) service_ids in
    elim (max_of (degree out) (or_all sources service_ids)) [
      | raised ↦ raised
      | ok root ↦
          ok (record { root_cause_service_id = root; method = granger; causal_edges = e ∷ edges })
    ]

module _ (st : Statistics) where
  open st use {Series, fetch, size, aligned}

  -- for sid, anomaly in latest_by_service.items(): ...
  unfoldable pub series_by_service :
      Dict String Series → Dict String Anomaly → Result (Dict String Series)
  unfolding metric_for
  series_by_service series [] = ok series
  series_by_service series ((sid, a) ∷ latest) = fetch sid (metric_for a.anomaly_type) >>= λ s.
      series_by_service (if leb granger_min_points (size s) then put series sid s else series)
        latest

  abbrev pub holds : Result Bool → Bool
  holds (ok b) = b
  holds raised = false

  -- behind the join: an exception of the test is caught, one of the join is not
  abbrev pub judged : Series → Series → Result ℕ → Result Bool
  judged effect cause raised = raised
  judged effect cause (ok points) =
      ok (if ltb points granger_min_points then false else holds (st.granger effect cause))

  -- the body of the inner loop: whether the pair gives an edge
  unfoldable pub is_edge : String × Series → String × Series → Result Bool
  is_edge (a, cause) (b, effect) =
      if a == b then ok false else judged effect cause (aligned effect cause)

  unfoldable pub edges_from : String × Series → Dict String Series → Result (List (String × String))
  unfolding is_edge
  edges_from a [] = ok []
  edges_from a (b ∷ series) = is_edge a b >>= λ edge.
      edges_from a series >>= λ rest. ok (if edge then (a.0, b.0) ∷ rest else rest)

  -- for a_id in service_ids: for b_id in service_ids: ...
  unfoldable pub edges_of :
      Dict String Series → Dict String Series → Result (List (String × String))
  unfolding edges_from
  edges_of [] all = ok []
  edges_of (a ∷ series) all =
      edges_from a all >>= λ edges. edges_of series all >>= λ rest. ok (edges ++ rest)

  unfoldable pub find_root_cause : Cluster → Result RootCause
  unfolding latest_by_service series_by_service edges_of pick_root
  find_root_cause c = do
    series ← series_by_service [] (latest_by_service [] c.anomalies)
    edges ← edges_of series series
    pick_root c.anomalies (keys series) edges
