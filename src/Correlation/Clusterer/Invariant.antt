-- ===== src/Correlation/Clusterer/Invariant.antt =====
-- What every active cluster says of its anomalies.
use distrosense.Base.{
  ℕ, suc, ◌<◌, ◌≡◌, refl, ap, String, true, false, List, [], ◌∷◌, ◌++◌, arith, elem, nat_eq,
  nat_beq_iff, string_eq, distinct, distinct-concat, select, All, All-append, All-map, ◌==◌, ◌∙◌,
  Bool-cases, inl, inr,
}
use distrosense.Correlation.Cluster.{Anomaly, Cluster, new_cluster, add, merge}
use distrosense.Correlation.Clusterer.{
  Clusterer, remove, store, absorb, connected_clusters, assign, add_anomaly, remove_all,
  pop_finalized, is_eligible, is_finalized,
}
use distrosense.Correlation.Clusterer.Lists.{
  ids, Within, none, skip, keep, Within-select, Within-trans, distinct-remove, ids-store,
}
use distrosense.Correlation.Clusterer.Consistent.{
  IsConsistent, new_cluster-IsConsistent, add-IsConsistent, merge-IsConsistent,
}

-- Identities are given once and from `next_key` up, and every active cluster is consistent.
pub record IsValid (s : Clusterer) : Type 0 where
  pub once : distinct (ids s.active_clusters) ≡ true
  pub fresh : All (λ c. c.key < s.next_key) s.active_clusters
  pub consistent : All IsConsistent s.active_clusters

module _ {ℓ} (P : Cluster → Type ℓ) where
  pub All-remove : (key : ℕ) (l : List Cluster) → All P l → All P (remove key l)
  unfolding remove
  All-remove key [] h = h
  All-remove key (c ∷ l) h = elim (Bool-cases (c.key == key)) [
    | inl e ↦ rw e h.1
    | inr e ↦ rw e (h.0, All-remove key l h.1)
  ]

  All-remove_all : (f l : List Cluster) → All P l → All P (remove_all f l)
  unfolding remove_all
  All-remove_all [] l h = h
  All-remove_all (c ∷ f) l h = All-remove_all f (remove c.key l) (All-remove c.key l h)

  pub All-store : (t : Cluster) (l : List Cluster) → P t → All P l → All P (store t l)
  unfolding store
  All-store t [] p h = h
  All-store t (c ∷ l) p h = elim (Bool-cases (c.key == t.key)) [
    | inl e ↦ rw e (p, h.1)
    | inr e ↦ rw e (h.0, All-store t l p h.1)
  ]

  pub All-Within : {xs ys : List Cluster} → Within xs ys → All P ys → All P xs
  All-Within none h = h
  All-Within (skip c w) h = All-Within w h.1
  All-Within (keep c w) h = (h.0, All-Within w h.1)

-- the merging loop keeps what holds of all clusters and of their merges
pub record Absorbs {ℓ} (P : Cluster → Type ℓ) (target : Cluster) (r : Cluster × List Cluster)
    : Type ℓ where
  pub key : r.0.key ≡ target.key
  pub here : P r.0
  pub rest : All P r.1
  pub once : distinct (ids r.1) ≡ true

absorb-Absorbs {ℓ} :
    (P : Cluster → Type ℓ) (kept : (c o : Cluster) → P c → P o → P (merge c o))
    (others : List Cluster) (target : Cluster) (active : List Cluster)
    → P target
    → All P others
    → All P active
    → distinct (ids active) ≡ true
    → Absorbs P target (absorb target others active)
unfolding absorb
absorb-Absorbs P kept [] target active p a h d = record { key = refl; here = p; rest = h; once = d }
absorb-Absorbs P kept (o ∷ others) target active p a h d =
    let r =
      absorb-Absorbs P kept others (merge target o) (remove o.key active) (kept target o p a.0) a.1
        (All-remove P o.key active h) (distinct-remove o.key active d) in
    record { key = r.key ∙ unfold merge in refl; here = r.here; rest = r.rest; once = r.once }

not-elem_fresh : (n : ℕ) (l : List Cluster) → All (λ c. c.key < n) l → elem n (ids l) ≡ false
not-elem_fresh n [] h = refl
not-elem_fresh n (c ∷ l) h = ground (arith, not-elem_fresh n l, nat_beq_iff n c.key)

ids-append : (xs ys : List Cluster) → ids (xs ++ ys) ≡ ids xs ++ ids ys
ids-append [] ys = refl
ids-append (x ∷ xs) ys = ap (◌∷◌ x.key) (ids-append xs ys)

fresh_later : (n : ℕ) (l : List Cluster) → All (λ c. c.key < n) l → All (λ c. c.key < suc n) l
fresh_later n [] h = tt
fresh_later n (c ∷ l) h = (omega arith, fresh_later n l h.1)

-- what an active cluster of a valid clusterer has
abbrev Fits : ℕ → Cluster → Type 0
Fits n c = (c.key < n) × IsConsistent c

All-both : (n : ℕ) (l : List Cluster) → All (λ c. c.key < n) l → All IsConsistent l → All (Fits n) l
All-both n [] h k = tt
All-both n (c ∷ l) h k = ((h.0, k.0), All-both n l h.1 k.1)

assign-IsValid :
    (s : Clusterer) (a : Anomaly) (matching : List Cluster)
    → Within matching s.active_clusters
    → IsValid s
    → IsValid (assign s a matching)
unfolding assign
assign-IsValid s a [] w v =
    let c = new_cluster s.next_key a in
    record {
      once = rw (ids-append s.active_clusters (c ∷ [])) (
          unfold new_cluster in
          distinct-concat s.next_key (ids s.active_clusters) v.once
            (not-elem_fresh s.next_key s.active_clusters v.fresh));
      fresh =
          All-append _ s.active_clusters (c ∷ []) (fresh_later s.next_key s.active_clusters v.fresh)
            (unfold new_cluster in omega arith);
      consistent =
          All-append IsConsistent s.active_clusters (c ∷ []) v.consistent
            (new_cluster-IsConsistent s.next_key a, tt);
    }
assign-IsValid s a (c ∷ others) w v =
    let all = All-both s.next_key s.active_clusters v.fresh v.consistent in
    let part = All-Within (Fits s.next_key) w all in
    let r = absorb (add c a) others s.active_clusters in
    let h =
      absorb-Absorbs (Fits s.next_key)
        (λ x o p q. (unfold merge in p.0, merge-IsConsistent x o p.1 q.1)) others (add c a)
        s.active_clusters (unfold add in part.0.0, add-IsConsistent c a part.0.1) part.1 all
        v.once in
    let stored = All-store (Fits s.next_key) r.0 r.1 h.here h.rest in
    record {
      once = rw (ids-store r.0 r.1) h.once;
      fresh = All-map (λ x p. p.0) (store r.0 r.1) stored;
      consistent = All-map (λ x p. p.1) (store r.0 r.1) stored;
    }

-- The clusters that `_connected_clusters` returns stand in the active list.
pub connected-Within :
    (get_related_services : String → List String) (s : Clusterer) (a : Anomaly)
    → Within
        (connected_clusters get_related_services a.service_id
          (select (is_eligible a.detected_at) s.active_clusters))
        s.active_clusters
unfolding connected_clusters
connected-Within g s a = Within-trans (Within-select _ _) (Within-select _ s.active_clusters)

-- A new anomaly leaves the clusterer valid.
pub add_anomaly-IsValid :
    (get_related_services : String → List String) (s : Clusterer) (a : Anomaly)
    → IsValid s
    → IsValid (add_anomaly get_related_services s a)
unfolding add_anomaly
add_anomaly-IsValid g s a v = assign-IsValid s a _ (connected-Within g s a) v

distinct-remove_all :
    (f l : List Cluster) → distinct (ids l) ≡ true → distinct (ids (remove_all f l)) ≡ true
unfolding remove_all
distinct-remove_all [] l d = d
distinct-remove_all (c ∷ f) l d = distinct-remove_all f (remove c.key l) (distinct-remove c.key l d)

-- Finalizing leaves the clusterer valid, and every cluster that it hands out is consistent.
pub pop_finalized-IsValid :
    (now : ℕ) (s : Clusterer)
    → IsValid s
    → IsValid (pop_finalized now s).0 × All IsConsistent (pop_finalized now s).1
unfolding pop_finalized
pop_finalized-IsValid now s v =
    let f = select (is_finalized now) s.active_clusters in
    (
      record {
        once = distinct-remove_all f s.active_clusters v.once;
        fresh = All-remove_all _ f s.active_clusters v.fresh;
        consistent = All-remove_all IsConsistent f s.active_clusters v.consistent;
      },
      All-Within IsConsistent (Within-select (is_finalized now) s.active_clusters) v.consistent,
    )
