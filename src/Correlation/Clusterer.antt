-- ===== src/Correlation/Clusterer.antt =====
-- correlation/clustering/incident_clusterer.py: `IncidentClusterer`. The clock's reading is an
-- argument of `pop_finalized`. `next_key` gives new objects their identity.
pub mod Lists
pub mod Weight
pub mod Consistent
pub mod Invariant
pub mod Span
pub mod Window
use distrosense.Base.{
  ℕ, suc, ◌+◌, String, Bool, true, false, not, ◌&&◌, ◌||◌, Option, none, some, List, [], ◌∷◌, ◌++◌,
  elem, nat_eq, string_eq, select, ltb, leb, if◌then◌else◌, length, ◌==◌,
}
use distrosense.Base.Dict.{Dict, get}
use distrosense.Correlation.Cluster.{Anomaly, Cluster, new_cluster, add, merge}
use distrosense.Correlation.Search.{owners, component}

-- CORRELATION_WINDOW_SECONDS and CORRELATION_MAX_CLUSTER_AGE_SECONDS, in milliseconds
abbrev pub correlation_window : ℕ
correlation_window = 300000

abbrev pub correlation_max_cluster_age : ℕ
correlation_max_cluster_age = 90000

pub record Clusterer : Type 0 where
  pub next_key : ℕ
  pub active_clusters : List Cluster

unfoldable pub init : Clusterer
init = record { next_key = 0; active_clusters = [] }

unfoldable pub open_cluster_count : Clusterer → ℕ
open_cluster_count s = length s.active_clusters

-- the condition of the comprehension `eligible`
abbrev pub is_eligible : ℕ → Cluster → Bool
is_eligible now c =
    leb now (c.last_updated + correlation_window)
    && ltb now (c.created_at + correlation_max_cluster_age)

-- the condition of the comprehension `finalized`
abbrev pub is_finalized : ℕ → Cluster → Bool
is_finalized now c =
    ltb (c.last_updated + correlation_window) now
    || ltb (c.created_at + correlation_max_cluster_age) now

-- l.remove(c)
unfoldable pub remove : ℕ → List Cluster → List Cluster
remove key [] = []
remove key (c ∷ l) = if c.key == key then l else c ∷ remove key l

-- The list holds the object that was changed: its entry is the new value.
unfoldable pub store : Cluster → List Cluster → List Cluster
store target [] = []
store target (c ∷ l) = if c.key == target.key then target ∷ l else c ∷ store target l

-- {id(owner[s]) for s in visited if s in owner}
unfoldable pub hit : Dict String ℕ → List String → List ℕ
hit owner [] = []
hit owner (s ∷ visited) =
    let rest = hit owner visited in elim (get owner s) [ none ↦ rest | some key ↦ key ∷ rest ]

-- for other in matching[1:]: target.merge(other); self._active_clusters.remove(other)
unfoldable pub absorb : Cluster → List Cluster → List Cluster → Cluster × List Cluster
unfolding remove
absorb target [] active = (target, active)
absorb target (other ∷ others) active = absorb (merge target other) others (remove other.key active)

-- the rest of `add_anomaly`, from `matching` on
unfoldable pub assign : Clusterer → Anomaly → List Cluster → Clusterer
unfolding absorb store
assign s a [] = record {
  next_key = suc s.next_key;
  active_clusters = s.active_clusters ++ new_cluster s.next_key a ∷ [];
}
assign s a (first ∷ others) =
    let (target, active) = absorb (add first a) others s.active_clusters in
    record s { active_clusters = store target active }

module _ (get_related_services : String → List String) where
  unfoldable pub connected_clusters : String → List Cluster → List Cluster
  unfolding hit
  connected_clusters service_id eligible =
      let owner = owners [] eligible in
      let found = hit owner (component get_related_services owner service_id).visited in
      select (λ c. elem c.key found) eligible

  unfoldable pub add_anomaly : Clusterer → Anomaly → Clusterer
  unfolding assign
  add_anomaly s a =
      assign s a
        (connected_clusters a.service_id (select (is_eligible a.detected_at) s.active_clusters))

-- for c in finalized: self._active_clusters.remove(c)
unfoldable pub remove_all : List Cluster → List Cluster → List Cluster
unfolding remove
remove_all [] active = active
remove_all (c ∷ finalized) active = remove_all finalized (remove c.key active)

unfoldable pub pop_finalized : ℕ → Clusterer → Clusterer × List Cluster
unfolding remove_all
pop_finalized now s =
    let finalized = select (is_finalized now) s.active_clusters in
    (record s { active_clusters = remove_all finalized s.active_clusters }, finalized)
