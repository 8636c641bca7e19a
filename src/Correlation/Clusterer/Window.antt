-- ===== src/Correlation/Clusterer/Window.antt =====
-- The idle window against the age limit.
use distrosense.Base.{ℕ, ◌+◌, ◌≤◌, ◌≡◌, true, List, [], ◌∷◌, arith, All, ltb, nat_eq}
use distrosense.Correlation.Cluster.{Anomaly, Cluster}
use distrosense.Correlation.Clusterer.{is_eligible, is_finalized, correlation_max_cluster_age}
use distrosense.Correlation.Clusterer.Consistent.{IsConsistent, detects}

detects-le :
    (t m : ℕ) (l : List Anomaly) → detects t l ≡ true → All (λ a. a.detected_at ≤ m) l → t ≤ m
detects-le t m [] h a = cc
detects-le t m (x ∷ l) h a = ground (arith, detects-le t m l, nat_eq.beq_iff x.detected_at t)

-- On a consistent cluster the idle window never decides: 300 s of silence are more than 90 s of age.
-- Both the test for joining and the test for closing are the age limit alone.
pub is_finalized-age :
    (now : ℕ) (c : Cluster)
    → IsConsistent c
    → (is_finalized now c ≡ ltb (c.created_at + correlation_max_cluster_age) now)
      × (is_eligible now c ≡ ltb now (c.created_at + correlation_max_cluster_age))
is_finalized-age now c v =
    let order = detects-le c.created_at c.last_updated c.anomalies v.opened v.latest in
    (ground arith, ground arith)
