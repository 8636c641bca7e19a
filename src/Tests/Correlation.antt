-- ===== src/Tests/Correlation.antt =====
-- The correlation engine on a graph of four services.
use distrosense.Base.{
  ltb, ℕ, ◌+◌, ◌≡◌, refl, String, true, false, some, List, [], ◌∷◌, ok, arith, elem, All, string_eq,
  nat_eq, ◌==◌, if◌then◌else◌, ◌↔◌,
}
use distrosense.Correlation.Granger.{granger}
use distrosense.Correlation.Publish.{Outside, payload}
use distrosense.Correlation.Publish.Payload.{IsGreatest, cpu_spikes, payload-rules}
use distrosense.Orchestrator.Incident.{Incident}
use distrosense.Orchestrator.Rules.{evaluate, rules}
use distrosense.Orchestrator.Rules.Shipped.{selected}
use distrosense.Base.Dict.{Dict, get, put}
use distrosense.Correlation.Cluster.{Anomaly, Cluster, add, merge}
use distrosense.Correlation.Search.{component, owners}
use distrosense.Correlation.Search.Correct.{Reach, component-Reach}
use distrosense.Correlation.Search.Ends.{component-ends}
use distrosense.Correlation.Clusterer as clusterer
use distrosense.Correlation.Clusterer.{Clusterer, add_anomaly, pop_finalized, is_finalized}
use distrosense.Correlation.Clusterer.Invariant.{IsValid, add_anomaly-IsValid}
use distrosense.Correlation.Clusterer.Consistent.{IsConsistent}
use distrosense.Correlation.Clusterer.Weight as weight
use distrosense.Correlation.Clusterer.Weight.{
  weight_of, total, total-add_anomaly, pop_finalized-splits, Event, arrivals, run-total,
}
use distrosense.Correlation.Cluster.{new_cluster}
use distrosense.Correlation.Clusterer.{is_eligible}
use distrosense.Correlation.Clusterer.Window.{is_finalized-age}
use distrosense.Correlation.Clusterer.Span.{IsShort, add_anomaly-IsShort}
use distrosense.Correlation.Granger.{Statistics, RootCause, find_root_cause}

-- payment calls order, order calls inventory; auth stands alone
related_services : String → List String
related_services sid =
    if sid == "payment"
    then "order" ∷ []
    else if sid == "order"
    then "payment" ∷ "inventory" ∷ []
    else if sid == "inventory"
    then "order" ∷ []
    else []

abbrev owner : Dict String ℕ
owner = ("order", 0) ∷ ("inventory", 1) ∷ ("auth", 2) ∷ []

component-ends_example : (component related_services owner "payment").frontier ≡ []
component-ends_example = component-ends related_services owner "payment"

component-Reach_example :
    (elem "inventory" (component related_services owner "payment").visited ≡ true)
    ↔ Reach related_services owner "payment" "inventory"
component-Reach_example = component-Reach related_services owner "payment" "inventory"

abbrev payment : Anomaly
payment = record {
  id = some "a1";
  service_id = "payment";
  anomaly_type = some "CPU_SPIKE";
  severity = some 4;
  detected_at = 10000;
}

abbrev inventory : Anomaly
inventory = record payment { id = some "a2"; service_id = "inventory"; detected_at = 20000 }

abbrev order : Anomaly
order = record payment { id = some "a3"; service_id = "order"; detected_at = 30000 }

-- two clusters that an anomaly of the order service joins
abbrev apart : Clusterer
apart = record {
  next_key = 2;
  active_clusters =
      (record {
        key = 0;
        anomalies = payment ∷ [];
        service_ids = "payment" ∷ [];
        created_at = 10000;
        last_updated = 10000;
      })
      ∷ (record {
        key = 1;
        anomalies = inventory ∷ [];
        service_ids = "inventory" ∷ [];
        created_at = 20000;
        last_updated = 20000;
      })
      ∷ [];
}

joined :
    (add_anomaly related_services apart order).active_clusters
    ≡ (record {
      key = 0;
      anomalies = payment ∷ order ∷ inventory ∷ [];
      service_ids = "payment" ∷ "order" ∷ "inventory" ∷ [];
      created_at = 10000;
      last_updated = 30000;
    })
      ∷ []
unfolding add_anomaly related_services component get put clusterer.connected_clusters owners merge
    add
joined = refl

alone-IsConsistent :
    (key : ℕ) (a : Anomaly)
    → IsConsistent (record {
      key = key;
      anomalies = a ∷ [];
      service_ids = a.service_id ∷ [];
      created_at = a.detected_at;
      last_updated = a.detected_at;
    })
alone-IsConsistent key a = record {
  services = λ sid. refl;
  latest = (omega arith, tt);
  attained = ground (arith, nat_eq.beq_iff a.detected_at a.detected_at);
  opened = ground (arith, nat_eq.beq_iff a.detected_at a.detected_at);
}

apart-IsValid : IsValid apart
apart-IsValid = record {
  once = refl;
  fresh = (omega arith, (omega arith, tt));
  consistent = (alone-IsConsistent 0 payment, (alone-IsConsistent 1 inventory, tt));
}

add_anomaly-IsValid_example : IsValid (add_anomaly related_services apart order)
add_anomaly-IsValid_example = add_anomaly-IsValid related_services apart order apart-IsValid

abbrev events : List Event
events =
    Event.arrive payment
    ∷ Event.arrive inventory
    ∷ Event.check 50000
    ∷ Event.arrive order
    ∷ Event.check 200000
    ∷ []

run-total_example :
    total (λ a. 1) (weight.run related_services clusterer.init events).0.active_clusters
      + total (λ a. 1) (weight.run related_services clusterer.init events).1
    ≡ weight_of (λ a. 1) (arrivals events)
run-total_example = run-total related_services (λ a. 1) events

add_anomaly-IsShort_example :
    All (IsShort 30000) (add_anomaly related_services apart order).active_clusters
add_anomaly-IsShort_example = add_anomaly-IsShort related_services apart order (
  record { short = omega arith; past = omega arith },
  (record { short = omega arith; past = omega arith }, tt),
)

-- a series is the name of its service; inventory causes order, and order causes payment
abbrev statistics : Statistics
statistics = record {
  Series = String;
  fetch = λ sid metric. ok sid;
  size = λ s. 20;
  aligned = λ s t. ok 18;
  granger = λ effect cause. ok (
      if cause == "inventory"
      then effect == "order"
      else (if cause == "order" then effect == "payment" else false));
}

abbrev incident : Cluster
incident = record {
  key = 0;
  anomalies = payment ∷ order ∷ inventory ∷ [];
  service_ids = "payment" ∷ "order" ∷ "inventory" ∷ [];
  created_at = 10000;
  last_updated = 30000;
}

root_cause :
    (r : RootCause) × (find_root_cause statistics incident ≡ ok r)
    × (r.root_cause_service_id ≡ "inventory")
unfolding find_root_cause get put
root_cause = (_, refl, refl)

is_finalized-age_example :
    (is_finalized 105000 (new_cluster 0 payment) ≡ ltb 100000 105000)
    × (is_eligible 105000 (new_cluster 0 payment) ≡ ltb 105000 100000)
unfolding new_cluster
is_finalized-age_example =
    is_finalized-age 105000 (new_cluster 0 payment) (alone-IsConsistent 0 payment)

abbrev inventory_root : RootCause
inventory_root = record { root_cause_service_id = "inventory"; method = granger; causal_edges = [] }

payload-rules_example :
    (i : Incident) × (n : ℕ) × (payload "inc-1" incident inventory_root ≡ ok i)
    × IsGreatest incident.anomalies n
    × (evaluate rules i ≡ ok (some (selected n 3 (cpu_spikes incident.anomalies))))
payload-rules_example =
    payload-rules "inc-1" incident inventory_root payment (order ∷ inventory ∷ []) refl

-- everything works; the state counts the calls
abbrev outside : Outside
outside = record {
  W = ℕ;
  statistics = λ w. ok statistics;
  save_incident = λ w c r. (w + 1, ok "inc-1");
  send = λ w key i. (w + 1, true);
}
