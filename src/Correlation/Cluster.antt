-- ===== src/Correlation/Cluster.antt =====
-- correlation/clustering/incident_clusterer.py: `Cluster`. An anomaly is the JSON object that
-- flink_jobs/models/anomaly_event.py writes. Instants are milliseconds; the source divides by 1000.
-- A Python set is the list of its elements, each once.
use distrosense.Base.{
  ℕ, min, max, String, Option, List, [], ◌∷◌, ◌++◌, elem, string_eq, if◌then◌else◌,
}

pub record Anomaly : Type 0 where
  pub id : Option String
  pub service_id : String
  pub anomaly_type : Option String
  pub severity : Option ℕ
  pub detected_at : ℕ

-- `key` is the identity of the object: Python compares clusters by identity.
pub record Cluster : Type 0 where
  pub key : ℕ
  pub anomalies : List Anomaly
  pub service_ids : List String
  pub created_at : ℕ
  pub last_updated : ℕ

-- s.add(x)
unfoldable pub set_add : List String → String → List String
set_add s x = if elem x s then s else s ++ x ∷ []

-- s |= t
unfoldable pub set_union : List String → List String → List String
unfolding set_add
set_union s [] = s
set_union s (x ∷ t) = set_union (set_add s x) t

-- Cluster(anomaly)
unfoldable pub new_cluster : ℕ → Anomaly → Cluster
new_cluster key a = record {
  key = key;
  anomalies = a ∷ [];
  service_ids = a.service_id ∷ [];
  created_at = a.detected_at;
  last_updated = a.detected_at;
}

unfoldable pub add : Cluster → Anomaly → Cluster
unfolding set_add
add c a = record c {
  anomalies = c.anomalies ++ a ∷ [];
  service_ids = set_add c.service_ids a.service_id;
  last_updated = max c.last_updated a.detected_at;
}

unfoldable pub merge : Cluster → Cluster → Cluster
unfolding set_union
merge c other = record c {
  anomalies = c.anomalies ++ other.anomalies;
  service_ids = set_union c.service_ids other.service_ids;
  created_at = min c.created_at other.created_at;
  last_updated = max c.last_updated other.last_updated;
}
