-- ===== src/Correlation/Publish/Payload.antt =====
-- What the rule engine makes of a published incident.
use distrosense.Base.{
  ℕ, suc, ◌≤◌, ◌≡◌, refl, ap, ◌∙◌, max, String, Bool, true, some, List, [], ◌∷◌, ◌++◌, map, ok,
  string_eq, nat_eq, ◌==◌, any, ◌||◌, All, length, elem, arith, nat_beq_iff,
}
use distrosense.Correlation.Cluster.{Anomaly, Cluster, set_add, set_union}
use distrosense.Correlation.Granger.{RootCause}
use distrosense.Correlation.Publish.{
  severity_or_one, type_or_unknown, highest, severity, sort_in, sorted, payload,
}
use distrosense.Orchestrator.Incident.{Incident}
use distrosense.Orchestrator.Rules.{evaluate, rules}
use distrosense.Orchestrator.Rules.Shipped.{selected, has_cpu_spike, evaluate-rules}

module _ (p : String → Bool) where
  any-sort_in : (x : String) (l : List String) → any p (sort_in x l) ≡ (p x || any p l)
  unfolding sort_in
  any-sort_in x [] = refl
  any-sort_in x (y ∷ l) = ground (arith, any-sort_in x l)

  any-sorted : (l : List String) → any p (sorted l) ≡ any p l
  unfolding sorted
  any-sorted [] = refl
  any-sorted (x ∷ l) = any-sort_in x (sorted l) ∙ ap (λ b. p x || b) (any-sorted l)

  any-elem : (x : String) (l : List String) → elem x l ≡ true → p x ≡ true → any p l ≡ true
  any-elem x [] m h = cc
  any-elem x (y ∷ l) m h = ground (arith, any-elem x l, string_eq.beq_iff x y)

  any-append : (xs ys : List String) → any p (xs ++ ys) ≡ (any p xs || any p ys)
  any-append [] ys = refl
  any-append (x ∷ xs) ys = ground (arith, any-append xs ys)

  any-set_add : (s : List String) (x : String) → any p (set_add s x) ≡ (any p s || p x)
  unfolding set_add
  any-set_add s x = ground (arith, any-elem x s, any-append s (x ∷ []))

  any-set_union : (s t : List String) → any p (set_union s t) ≡ (any p s || any p t)
  unfolding set_union
  any-set_union s [] = ground arith
  any-set_union s (x ∷ t) = ground (arith, any-set_union (set_add s x) t, any-set_add s x)

  any-map : (l : List Anomaly) → any p (map type_or_unknown l) ≡ any (λ a. p (type_or_unknown a)) l
  any-map [] = refl
  any-map (a ∷ l) = ground (arith, any-map l)

length-sort_in : (x : String) (l : List String) → length (sort_in x l) ≡ suc (length l)
unfolding sort_in
length-sort_in x [] = refl
length-sort_in x (y ∷ l) = ground (arith, length-sort_in x l)

length-sorted : (l : List String) → length (sorted l) ≡ length l
unfolding sorted
length-sorted [] = refl
length-sorted (x ∷ l) = omega (arith, length-sort_in x (sorted l), length-sorted l)

-- The greatest severity of the anomalies.
pub record IsGreatest (anomalies : List Anomaly) (n : ℕ) : Type 0 where
  pub most : All (λ a. severity_or_one a ≤ n) anomalies
  pub attained : any (λ a. severity_or_one a == n) anomalies ≡ true

highest-most :
    (best : ℕ) (l : List Anomaly)
    → (best ≤ highest best l) × All (λ a. severity_or_one a ≤ highest best l) l
unfolding highest
highest-most best [] = (omega arith, tt)
highest-most best (a ∷ l) =
    let (h, rest) = highest-most (max best (severity_or_one a)) l in
    (omega (arith, h), (omega (arith, h), rest))

highest-attained :
    (best : ℕ) (l : List Anomaly)
    → (best == highest best l || any (λ a. severity_or_one a == highest best l) l) ≡ true
unfolding highest
highest-attained best [] = ground (arith, nat_beq_iff best best)
highest-attained best (a ∷ l) =
    let m = max best (severity_or_one a) in
    let n = highest m l in
    ground (
      arith,
      highest-attained m l,
      nat_beq_iff m n,
      nat_beq_iff best n,
      nat_beq_iff (severity_or_one a) n,
    )

-- some anomaly is a CPU spike
abbrev pub cpu_spikes : List Anomaly → Bool
cpu_spikes = any (λ a. elem (type_or_unknown a) ("CPU_SPIKE" ∷ []))

has_cpu_spike-types :
    (l : List Anomaly)
    → has_cpu_spike (sorted (set_union [] (map type_or_unknown l))) ≡ cpu_spikes l
unfolding has_cpu_spike
has_cpu_spike-types l =
    let p : String → Bool = λ t. elem t ("CPU_SPIKE" ∷ []) in
    any-sorted p (set_union [] (map type_or_unknown l))
    ∙ any-set_union p [] (map type_or_unknown l)
    ∙ any-map p l

-- For a cluster with an anomaly, the publisher writes an incident from which the shipped rules
-- select by the greatest severity of the anomalies, the number of the cluster's services, and
-- whether an anomaly is a CPU spike.
pub payload-rules :
    (incident_id : String) (c : Cluster) (r : RootCause) (a : Anomaly) (l : List Anomaly)
    → c.anomalies ≡ a ∷ l
    → (i : Incident) × (n : ℕ) × (payload incident_id c r ≡ ok i)
      × IsGreatest c.anomalies n
      × (evaluate rules i ≡ ok (some (selected n (length c.service_ids) (cpu_spikes c.anomalies))))
unfolding payload
payload-rules incident_id c r a l e =
    let n = highest (severity_or_one a) l in
    let (h, rest) = highest-most (severity_or_one a) l in
    let found : severity c.anomalies ≡ ok n = rw e refl in
    let best : IsGreatest c.anomalies n =
      rw e (record { most = (h, rest); attained = highest-attained (severity_or_one a) l }) in
    rw found (
      _,
      n,
      refl,
      best,
      evaluate-rules _ n (sorted c.service_ids)
            (sorted (set_union [] (map type_or_unknown c.anomalies))) refl refl refl
          ∙ rw (length-sorted c.service_ids, has_cpu_spike-types c.anomalies) refl,
    )
