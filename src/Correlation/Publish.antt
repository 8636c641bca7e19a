-- ===== src/Correlation/Publish.antt =====
-- correlation/publisher/incident_publisher.py: the payload of `publish`; and
-- correlation/main.py: `_check_finalized`. The databases and Kafka are the parameter `Outside`.
-- The payload's fields anomaly_count and opened_at, which nothing but a Slack text reads, are left out.
pub mod Payload
pub mod Finalize
use Prim.Native.String.{compare}
use Prim.Native.Nat.{Ordering}
use distrosense.Base.{
  ℕ, zero, suc, ◌+◌, max, String, Bool, true, false, Option, none, some, List, [], ◌∷◌, ◌++◌, map,
  Result, ok, raised, ◌>>=◌, value, string_eq, ◌==◌, if◌then◌else◌,
}
use distrosense.Correlation.Cluster.{Anomaly, Cluster, set_union}
use distrosense.Correlation.Granger.{
  Statistics, Method, granger, fallback_earliest, RootCause, find_root_cause,
}
use distrosense.Correlation.Clusterer.{Clusterer, pop_finalized}
use distrosense.Orchestrator.Incident.{Incident}

-- a.get("severity") or 1
unfoldable pub severity_or_one : Anomaly → ℕ
severity_or_one a = elim a.severity [ none ↦ 1 | some zero ↦ 1 | some (suc n) ↦ suc n ]

-- a.get("anomaly_type") or "UNKNOWN"
unfoldable pub type_or_unknown : Anomaly → String
type_or_unknown a = elim a.anomaly_type [
  | none ↦ "UNKNOWN"
  | some t ↦ if t == "" then "UNKNOWN" else t
]

unfoldable pub highest : ℕ → List Anomaly → ℕ
unfolding severity_or_one
highest best [] = best
highest best (a ∷ l) = highest (max best (severity_or_one a)) l

-- max over the anomalies, which raises on none
abbrev pub severity : List Anomaly → Result ℕ
severity [] = raised
severity (a ∷ l) = ok (highest (severity_or_one a) l)

-- sorted(xs)
unfoldable pub sort_in : String → List String → List String
sort_in x [] = x ∷ []
sort_in x (y ∷ ys) =
    let rest = sort_in x ys in elim (compare x y) [ Ordering.gt ↦ y ∷ rest | _ ↦ x ∷ y ∷ ys ]

unfoldable pub sorted : List String → List String
unfolding sort_in
sorted [] = []
sorted (x ∷ xs) = sort_in x (sorted xs)

abbrev pub method_name : Method → String
method_name granger = "granger"
method_name fallback_earliest = "fallback_earliest"

unfoldable pub payload : String → Cluster → RootCause → Result Incident
unfolding sorted type_or_unknown
payload incident_id c r = do
  highest_severity ← severity c.anomalies
  ok (record {
    incident_id = value incident_id;
    root_cause_service = value r.root_cause_service_id;
    causality_method = value (method_name r.method);
    member_service_ids = value (sorted c.service_ids);
    severity = value highest_severity;
    anomaly_types = value (sorted (set_union [] (map type_or_unknown c.anomalies)));
    closed_at = value c.last_updated;
  })

-- `statistics` is `raised` where a query of the metrics raises, `save_incident` stores the row and
-- returns its id, and `send` is JsonProducer.send with wait=True, which Common/Kafka.antt models.
pub record Outside : Type 1 where
  pub W : Type 0
  pub statistics : W → Result Statistics
  pub save_incident : W → Cluster → RootCause → W × Result String
  pub send : W → String → Incident → W × Bool

-- what the counters INCIDENTS and FINALIZE_FAILURES tell of a cluster
pub data Outcome : Type 0 where
  published save_failed publish_failed : Outcome

module _ (o : Outside) where
  open o use {W, statistics, save_incident, send}

  -- `publish`
  unfoldable pub publish : W → String → Cluster → RootCause → W × Bool
  unfolding payload
  publish w incident_id c r = elim (payload incident_id c r) [
    | raised ↦ (w, false)
    | ok i ↦ send w r.root_cause_service_id i
  ]

  abbrev pub published_or_not : W × Bool → W × Outcome
  published_or_not (w, true) = (w, published)
  published_or_not (w, false) = (w, publish_failed)

  -- behind `save_incident`
  unfoldable pub announce : Cluster → RootCause → W × Result String → W × Outcome
  unfolding publish
  announce c r (w, raised) = (w, save_failed)
  announce c r (w, ok incident_id) = published_or_not (publish w incident_id c r)

  unfoldable pub root_cause_of : W → Cluster → Result RootCause
  root_cause_of w c = do st ← statistics w; find_root_cause st c

  -- the body of the loop of `_check_finalized`
  unfoldable pub finalize : W → Cluster → W × Outcome
  unfolding announce root_cause_of
  finalize w c = elim (root_cause_of w c) [
    | raised ↦ (w, save_failed)
    | ok r ↦ announce c r (save_incident w c r)
  ]

  unfoldable pub finalize_each : W → List Cluster → W × List (Cluster × Outcome)
  unfolding finalize
  finalize_each w [] = (w, [])
  finalize_each w (c ∷ cs) =
      let (w', outcome) = finalize w c in
      let (w'', outcomes) = finalize_each w' cs in (w'', (c, outcome) ∷ outcomes)

  -- `_check_finalized`
  unfoldable pub check_finalized : ℕ → Clusterer → W → Clusterer × W × List (Cluster × Outcome)
  unfolding finalize_each
  check_finalized now s w =
      let (s', finalized) = pop_finalized now s in
      let (w', outcomes) = finalize_each w finalized in (s', w', outcomes)
