-- ===== src/Correlation/Clusterer/Weight.antt =====
-- No anomaly is lost, and none is counted twice.
use distrosense.Base.{
  ℕ, ◌+◌, ◌≡◌, refl, ap, Bool, true, false, List, [], ◌∷◌, ◌++◌, arith, elem, nat_eq, nat_beq_iff,
  distinct, select, ◌==◌, ==_refl, ◌∙◌, sym, String, not, Bool-cases, inl, inr,
}
use distrosense.Correlation.Clusterer.{
  Clusterer, init, remove, store, absorb, assign, add_anomaly, remove_all, pop_finalized,
  is_finalized,
}
use distrosense.Correlation.Clusterer.Lists.{
  ids, Within, skip, keep, Within-select, Within-remove_second, Within-tail, elem-ids_head,
  distinct-remove, elem-Within,
}
use distrosense.Correlation.Cluster.{Anomaly, Cluster, new_cluster, add, merge}
use distrosense.Correlation.Clusterer.Invariant.{
  IsValid, connected-Within, add_anomaly-IsValid, pop_finalized-IsValid,
}

module _ (weight : Anomaly → ℕ) where
  abbrev pub weight_of : List Anomaly → ℕ
  weight_of [] = 0
  weight_of (a ∷ l) = weight a + weight_of l

  -- The sum of the weights of all anomalies of all clusters.
  abbrev pub total : List Cluster → ℕ
  total [] = 0
  total (c ∷ l) = weight_of c.anomalies + total l

  weight_of-append : (xs ys : List Anomaly) → weight_of (xs ++ ys) ≡ weight_of xs + weight_of ys
  weight_of-append [] ys = omega arith
  weight_of-append (x ∷ xs) ys = omega (arith, weight_of-append xs ys)

  total-append : (xs ys : List Cluster) → total (xs ++ ys) ≡ total xs + total ys
  total-append [] ys = omega arith
  total-append (x ∷ xs) ys = omega (arith, total-append xs ys)

  total-remove :
      {c : Cluster} {xs ys : List Cluster}
      → Within (c ∷ xs) ys
      → distinct (ids ys) ≡ true
      → total (remove c.key ys) + weight_of c.anomalies ≡ total ys
  unfolding remove
  total-remove {c = c} (skip e w) d =
      let other : (e.key == c.key) ≡ false =
        ground (arith, elem-ids_head w, nat_beq_iff e.key c.key) in
      rw other (omega (arith, total-remove w (ground arith)))
  total-remove (keep c w) d = rw (==_refl c.key) (omega arith)

  total-store :
      (t : Cluster) {c : Cluster} {xs ys : List Cluster}
      → Within (c ∷ xs) ys
      → distinct (ids ys) ≡ true
      → c.key ≡ t.key
      → total (store t ys) + weight_of c.anomalies ≡ total ys + weight_of t.anomalies
  unfolding store
  total-store t {c = c} (skip e w) d k =
      let other : (e.key == t.key) ≡ false =
        ground (arith, elem-ids_head w, nat_beq_iff e.key c.key, nat_beq_iff e.key t.key) in
      rw other (omega (arith, total-store t w (ground arith) k))
  total-store t (keep c w) d k =
      let this : (c.key == t.key) ≡ true = (nat_beq_iff c.key t.key).1 k in rw this (omega arith)

  weight-merge :
      (c o : Cluster)
      → weight_of (merge c o).anomalies ≡ weight_of c.anomalies + weight_of o.anomalies
  unfolding merge
  weight-merge c o = weight_of-append c.anomalies o.anomalies

  weight-add :
      (c : Cluster) (a : Anomaly) → weight_of (add c a).anomalies ≡ weight_of c.anomalies + weight a
  unfolding add
  weight-add c a = omega (arith, weight_of-append c.anomalies (a ∷ []))

  -- what the merging loop leaves
  record Absorbed (b target : Cluster) (active : List Cluster) (r : Cluster × List Cluster)
      : Type 0 where
    key : r.0.key ≡ target.key
    sum : weight_of r.0.anomalies + total r.1 ≡ weight_of target.anomalies + total active
    still : Within (b ∷ []) r.1
    once : distinct (ids r.1) ≡ true

  absorb-Absorbed :
      (b target : Cluster) (others active : List Cluster)
      → Within (b ∷ others) active
      → distinct (ids active) ≡ true
      → Absorbed b target active (absorb target others active)
  unfolding absorb
  absorb-Absorbed b target [] active w d = record { key = refl; sum = refl; still = w; once = d }
  absorb-Absorbed b target (o ∷ others) active w d =
      let rest =
        absorb-Absorbed b (merge target o) others (remove o.key active) (Within-remove_second w d)
          (distinct-remove o.key active d) in
      record {
        key = rest.key ∙ unfold merge in refl;
        sum = omega (arith, rest.sum, weight-merge target o, total-remove (Within-tail w) d);
        still = rest.still;
        once = rest.once;
      }

  total-assign :
      (s : Clusterer) (a : Anomaly) (matching : List Cluster)
      → Within matching s.active_clusters
      → distinct (ids s.active_clusters) ≡ true
      → total (assign s a matching).active_clusters ≡ weight a + total s.active_clusters
  unfolding assign
  total-assign s a [] w d =
      unfold new_cluster in
      omega (arith, total-append s.active_clusters (new_cluster s.next_key a ∷ []))
  total-assign s a (c ∷ others) w d =
      let r = absorb (add c a) others s.active_clusters in
      let h = absorb-Absorbed c (add c a) others s.active_clusters w d in
      let same : c.key ≡ r.0.key = unfold add in sym h.key in
      omega (arith, total-store r.0 h.still h.once same, h.sum, weight-add c a)

  -- A new anomaly adds its weight to that of the active clusters, whatever the clusters that it
  -- joins and merges: no anomaly is lost in a merge, and none is kept twice.
  pub total-add_anomaly :
      (get_related_services : String → List String) (s : Clusterer) (a : Anomaly)
      → IsValid s
      → total (add_anomaly get_related_services s a).active_clusters
        ≡ weight a + total s.active_clusters
  unfolding add_anomaly
  total-add_anomaly g s a v = total-assign s a _ (connected-Within g s a) v.once

remove_all-cons :
    (f : List Cluster) (c : Cluster) (l : List Cluster)
    → elem c.key (ids f) ≡ false
    → remove_all f (c ∷ l) ≡ c ∷ remove_all f l
unfolding remove_all remove
remove_all-cons [] c l h = refl
remove_all-cons (d ∷ f) c l h =
    let other : (c.key == d.key) ≡ false = ground arith in
    rw other (remove_all-cons f c (remove d.key l) (ground arith))

remove_self : (c : Cluster) (l : List Cluster) → remove c.key (c ∷ l) ≡ l
unfolding remove
remove_self c l = rw (==_refl c.key) refl

remove_all-select :
    (p : Cluster → Bool) (l : List Cluster)
    → distinct (ids l) ≡ true
    → remove_all (select p l) l ≡ select (λ c. not (p c)) l
unfolding remove_all remove
remove_all-select p [] d = refl
remove_all-select p (c ∷ l) d = elim (Bool-cases (p c)) [
  | inl e ↦
      rw e (ap (remove_all (select p l)) (remove_self c l) ∙ remove_all-select p l (ground arith))
  | inr e ↦ rw e (
      remove_all-cons (select p l) c l (elem-Within c.key (Within-select p l) (ground arith))
      ∙ ap (◌∷◌ c) (remove_all-select p l (ground arith)))
]

-- Finalizing splits the active clusters: those that are idle past the window or over the age limit
-- are handed out, and exactly the others stay, each list in its old order.
pub pop_finalized-splits :
    (now : ℕ) (s : Clusterer)
    → IsValid s
    → ((pop_finalized now s).1 ≡ select (is_finalized now) s.active_clusters)
      × ((pop_finalized now s).0.active_clusters
          ≡ select (λ c. not (is_finalized now c)) s.active_clusters)
unfolding pop_finalized
pop_finalized-splits now s v = (refl, remove_all-select (is_finalized now) s.active_clusters v.once)

total-select :
    (weight : Anomaly → ℕ) (p : Cluster → Bool) (l : List Cluster)
    → total weight (select p l) + total weight (select (λ c. not (p c)) l) ≡ total weight l
total-select weight p [] = omega arith
total-select weight p (c ∷ l) = ground (arith, total-select weight p l)

-- The consumer's loop as a sequence of events: an anomaly arrives, or finalized clusters are popped.
pub data Event : Type 0 where
  arrive : Anomaly → Event
  check : ℕ → Event

pub arrivals : List Event → List Anomaly
arrivals [] = []
arrivals (arrive a ∷ es) = a ∷ arrivals es
arrivals (check now ∷ es) = arrivals es

module _ (get_related_services : String → List String) where
  -- the clusterer after the events, and all clusters handed out
  pub run : Clusterer → List Event → Clusterer × List Cluster
  run s [] = (s, [])
  run s (arrive a ∷ es) = run (add_anomaly get_related_services s a) es
  run s (check now ∷ es) =
      let (s', popped) = pop_finalized now s in let (t, later) = run s' es in (t, popped ++ later)

  run-total_from :
      (weight : Anomaly → ℕ) (s : Clusterer) (es : List Event)
      → IsValid s
      → total weight (run s es).0.active_clusters + total weight (run s es).1
        ≡ total weight s.active_clusters + weight_of weight (arrivals es)
  unfolding run arrivals
  run-total_from weight s [] v = omega arith
  run-total_from weight s (arrive a ∷ es) v =
      let s' = add_anomaly get_related_services s a in
      omega (
        arith,
        run-total_from weight s' es (add_anomaly-IsValid get_related_services s a v),
        total-add_anomaly weight get_related_services s a v,
      )
  run-total_from weight s (check now ∷ es) v =
      let s' = (pop_finalized now s).0 in
      let (out, kept) = pop_finalized-splits now s v in
      omega (
        arith,
        run-total_from weight s' es (pop_finalized-IsValid now s v).0,
        total-append weight (pop_finalized now s).1 (run s' es).1,
        ap (total weight) out,
        ap (total weight) kept,
        total-select weight (is_finalized now) s.active_clusters,
      )

  -- From the start, over every sequence of arrivals and checks: the anomalies that arrived are, for
  -- every weight, as many as those in the active clusters and in the clusters handed out together.
  -- So each arrival is in exactly one cluster, once.
  pub run-total :
      (weight : Anomaly → ℕ) (es : List Event)
      → total weight (run init es).0.active_clusters + total weight (run init es).1
        ≡ weight_of weight (arrivals es)
  run-total weight es =
      unfold init in
      omega
        (arith, run-total_from weight init es (record { once = refl; fresh = tt; consistent = tt }))
