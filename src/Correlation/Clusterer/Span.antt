-- ===== src/Correlation/Clusterer/Span.antt =====
-- How far apart in time the anomalies of one cluster lie.
use distrosense.Base.{
  ℕ, ◌+◌, ◌≤◌, ◌<◌, List, [], ◌∷◌, arith, select, All, All-append, Bool-cases, inl, inr, String,
}
use distrosense.Correlation.Cluster.{Anomaly, Cluster, new_cluster, add, merge}
use distrosense.Correlation.Clusterer.{
  Clusterer, absorb, connected_clusters, assign, add_anomaly, is_eligible,
  correlation_max_cluster_age, remove,
}
use distrosense.Correlation.Clusterer.Lists.{Within-select}
use distrosense.Correlation.Clusterer.Invariant.{All-Within, All-store, All-remove}

-- The cluster's span is under the age limit, and no part of it is later than `now`.
pub record IsShort (now : ℕ) (c : Cluster) : Type 0 where
  pub short : c.last_updated < c.created_at + correlation_max_cluster_age
  pub past : c.last_updated ≤ now

-- ... and `now` is within the age limit too
record IsYoung (now : ℕ) (c : Cluster) : Type 0 where
  past : c.last_updated ≤ now
  young : now < c.created_at + correlation_max_cluster_age

absorb-IsYoung :
    (now : ℕ) (others : List Cluster) (target : Cluster) (active : List Cluster)
    → IsYoung now target
    → All (IsYoung now) others
    → All (IsShort now) active
    → IsYoung now (absorb target others active).0
      × All (IsShort now) (absorb target others active).1
unfolding absorb
absorb-IsYoung now [] target active y a h = (y, h)
absorb-IsYoung now (o ∷ others) target active y a h =
    absorb-IsYoung now others (merge target o) (remove o.key active)
      (unfold merge in omega (arith, y, a.0)) a.1 (All-remove (IsShort now) o.key active h)

eligible-IsYoung :
    (now : ℕ) (l : List Cluster)
    → All (IsShort now) l
    → All (IsYoung now) (select (is_eligible now) l)
eligible-IsYoung now [] h = tt
eligible-IsYoung now (c ∷ l) h = elim (Bool-cases (is_eligible now c)) [
  | inl e ↦ rw e (record { past = h.0.past; young = ground arith }, eligible-IsYoung now l h.1)
  | inr e ↦ rw e (eligible-IsYoung now l h.1)
]

assign-IsShort :
    (s : Clusterer) (a : Anomaly) (matching : List Cluster)
    → All (IsYoung a.detected_at) matching
    → All (IsShort a.detected_at) s.active_clusters
    → All (IsShort a.detected_at) (assign s a matching).active_clusters
unfolding assign
assign-IsShort s a [] y h =
    All-append (IsShort a.detected_at) s.active_clusters (new_cluster s.next_key a ∷ []) h
      (unfold new_cluster in (record { short = omega arith; past = omega arith }, tt))
assign-IsShort s a (c ∷ others) y h =
    let (t, rest) =
      absorb-IsYoung a.detected_at others (add c a) s.active_clusters
        (unfold add in omega (arith, y.0)) y.1 h in
    All-store (IsShort a.detected_at) (absorb (add c a) others s.active_clusters).0
      (absorb (add c a) others s.active_clusters).1
      (record { short = omega (arith, t); past = omega (arith, t) }) rest

-- An anomaly that is not older than what the active clusters hold keeps every cluster's span, from
-- `created_at` to `last_updated`, under the age limit, merges included.
pub add_anomaly-IsShort :
    (get_related_services : String → List String) (s : Clusterer) (a : Anomaly)
    → All (IsShort a.detected_at) s.active_clusters
    → All (IsShort a.detected_at) (add_anomaly get_related_services s a).active_clusters
unfolding add_anomaly connected_clusters
add_anomaly-IsShort g s a h =
    assign-IsShort s a _
      (All-Within (IsYoung a.detected_at) (Within-select _ _)
        (eligible-IsYoung a.detected_at s.active_clusters h))
      h
