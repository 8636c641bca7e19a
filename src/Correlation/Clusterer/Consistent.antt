-- ===== src/Correlation/Clusterer/Consistent.antt =====
-- What a cluster says of its anomalies (class Cluster of
-- correlation/clustering/incident_clusterer.py), kept by adding and by merging.
use distrosense.Base.{
  ℕ, ◌≤◌, ◌≡◌, refl, max, min, String, Bool, true, ◌||◌, List, [], ◌∷◌, ◌++◌, arith, any, elem,
  elem-append, nat_eq, string_eq, All, All-append, ◌==◌, ◌∙◌, ◌⊎◌, inl, inr,
}
use distrosense.Correlation.Cluster.{Anomaly, Cluster, set_add, set_union, new_cluster, add, merge}

-- the detection of one of the anomalies
abbrev pub detects : ℕ → List Anomaly → Bool
detects t = any (λ a. a.detected_at == t)

-- The services are those of the anomalies, `last_updated` is the latest detection, and `created_at`
-- is the detection of one of them.
pub record IsConsistent (c : Cluster) : Type 0 where
  pub services :
      (sid : String) → elem sid c.service_ids ≡ any (λ a. sid == a.service_id) c.anomalies
  pub latest : All (λ a. a.detected_at ≤ c.last_updated) c.anomalies
  pub attained : detects c.last_updated c.anomalies ≡ true
  pub opened : detects c.created_at c.anomalies ≡ true

any-append : (p : Anomaly → Bool) (xs ys : List Anomaly) → any p (xs ++ ys) ≡ (any p xs || any p ys)
any-append p [] ys = refl
any-append p (x ∷ xs) ys = ground (arith, any-append p xs ys)

detects-pick :
    (t m n : ℕ) (xs ys : List Anomaly)
    → (t ≡ m) ⊎ (t ≡ n)
    → detects m xs ≡ true
    → detects n ys ≡ true
    → detects t (xs ++ ys) ≡ true
detects-pick t m n xs ys (inl e) h k = any-append (λ a. a.detected_at == t) xs ys ∙ rw (e, h) refl
detects-pick t m n xs ys (inr e) h k =
    any-append (λ a. a.detected_at == t) xs ys ∙ rw (e, k) (ground arith)

elem-set_add : (s : List String) (x y : String) → elem y (set_add s x) ≡ (elem y s || y == x)
unfolding set_add
elem-set_add s x y = ground (arith, elem-append y s (x ∷ []), string_eq.beq_iff y x)

elem-set_union : (s t : List String) (y : String) → elem y (set_union s t) ≡ (elem y s || elem y t)
unfolding set_union
elem-set_union s [] y = ground arith
elem-set_union s (x ∷ t) y = ground (arith, elem-set_union (set_add s x) t y, elem-set_add s x y)

pub new_cluster-IsConsistent : (key : ℕ) (a : Anomaly) → IsConsistent (new_cluster key a)
unfolding new_cluster
new_cluster-IsConsistent key a = record {
  services = λ sid. refl;
  latest = omega arith;
  attained = ground arith;
  opened = ground arith;
}

later :
    (m n : ℕ) (l : List Anomaly)
    → m ≤ n
    → All (λ a. a.detected_at ≤ m) l
    → All (λ a. a.detected_at ≤ n) l
later m n [] h a = tt
later m n (x ∷ l) h a = (omega arith, later m n l h a.1)

pub add-IsConsistent : (c : Cluster) (a : Anomaly) → IsConsistent c → IsConsistent (add c a)
unfolding add
add-IsConsistent c a v = record {
  services = λ sid. ground (
    arith,
    elem-set_add c.service_ids a.service_id sid,
    any-append (λ b. sid == b.service_id) c.anomalies (a ∷ []),
    v.services sid,
  );
  latest =
      All-append _ c.anomalies (a ∷ []) (later _ _ c.anomalies (omega arith) v.latest)
        (omega arith);
  attained =
      detects-pick (max c.last_updated a.detected_at) c.last_updated a.detected_at c.anomalies
        (a ∷ []) (omega arith) v.attained (ground arith);
  opened =
      ground
        (arith, any-append (λ b. b.detected_at == c.created_at) c.anomalies (a ∷ []), v.opened);
}

pub merge-IsConsistent :
    (c o : Cluster) → IsConsistent c → IsConsistent o → IsConsistent (merge c o)
unfolding merge
merge-IsConsistent c o v u = record {
  services = λ sid. ground (
    arith,
    elem-set_union c.service_ids o.service_ids sid,
    any-append (λ b. sid == b.service_id) c.anomalies o.anomalies,
    v.services sid,
    u.services sid,
  );
  latest =
      All-append _ c.anomalies o.anomalies (later _ _ c.anomalies (omega arith) v.latest)
        (later _ _ o.anomalies (omega arith) u.latest);
  attained =
      detects-pick (max c.last_updated o.last_updated) c.last_updated o.last_updated c.anomalies
        o.anomalies (omega arith) v.attained u.attained;
  opened =
      detects-pick (min c.created_at o.created_at) c.created_at o.created_at c.anomalies o.anomalies
        (omega arith) v.opened u.opened;
}
