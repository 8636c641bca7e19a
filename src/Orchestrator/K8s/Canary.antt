-- ===== src/Orchestrator/K8s/Canary.antt =====
-- What the return value of `rollback_canary` says of the cluster.
use distrosense.Base.{
  ◌≡◌, ◌≢◌, String, true, false, Option, some, ok, arith, Bool-cases, Option-cases, Result-cases,
  string_eq, option_eq, option_beq_iff, ◌==◌, inl, inr,
}
use distrosense.Orchestrator.K8s.{
  Cluster, K8sClient, rollout_name_for, abort_rollout, rollback_canary,
}

module _ (c : Cluster) (k : K8sClient) (w : c.World) where
  open c use {World, min_replicas, phase, aborted, patch_abort, abort_sets, abort_other, abort_hpa}

  -- A rollback took place: the rollout is deployed, its phase was read and is not Healthy, its abort
  -- flag is set, no other rollout's is touched, and no HPA is.
  pub record RolledBack (service_id : Option String) (w' : World) : Type 0 where
    pub name : String
    pub deployed : rollout_name_for service_id ≡ some name
    pub in_flight : phase w name ≢ ok (some "Healthy")
    pub abort_set : aborted w' name ≡ true
    pub others : (other : String) → name ≢ other → aborted w' other ≡ aborted w other
    pub hpas : (other : String) → min_replicas w' other ≡ min_replicas w other

  abort-RolledBack :
      (service_id : Option String) (name : String) (p : Option String)
      → rollout_name_for service_id ≡ some name
      → phase w name ≡ ok p
      → (abort_rollout c k w name (ok p)).2 ≡ ok true
      → RolledBack service_id (abort_rollout c k w name (ok p)).1
  unfolding abort_rollout
  abort-RolledBack service_id name p deployed read h = elim (Bool-cases (p == some "Healthy")) [
    | inl healthy ↦ ground arith
    | inr flight ↦ elim (Bool-cases (patch_abort w name).1) [
      | inr failed ↦ ground arith
      | inl done ↦
          rw (flight, done)
            (record {
              name = name;
              deployed = deployed;
              in_flight = λ q. ground (arith, option_beq_iff p (some "Healthy"));
              abort_set = abort_sets w name done;
              others = λ o q. abort_other w name o q;
              hpas = λ o. abort_hpa w name o;
            })
    ]
  ]

  -- `rollback_canary` returns True only after a rollback that took place.
  pub rollback_canary-true :
      (service_id : Option String)
      → (rollback_canary c k w service_id).2 ≡ ok true
      → RolledBack service_id (rollback_canary c k w service_id).1
  unfolding rollback_canary
  rollback_canary-true service_id h = elim (Option-cases (rollout_name_for service_id)) [
    | inl e ↦ ground arith
    | inr (name, e) ↦ elim (Result-cases (phase w name)) [
      | inl bad ↦ unfold abort_rollout in ground arith
      | inr (p, read) ↦
          rw (e, rollback_canary, read)
            (abort-RolledBack service_id name p e read (rw (e, rollback_canary, read) at h))
    ]
  ]

  -- It returns False only if it did not touch the cluster, and then the service has no deployment
  -- or its rollout is Healthy.
  pub rollback_canary-false :
      (service_id : Option String)
      → (rollback_canary c k w service_id).2 ≡ ok false
      → ((rollback_canary c k w service_id).1 ≡ w)
        × ((name : String)
            → rollout_name_for service_id ≡ some name
            → phase w name ≡ ok (some "Healthy"))
  unfolding rollback_canary abort_rollout
  rollback_canary-false service_id h = (
    ground arith,
    λ name e. elim (Result-cases (phase w name)) [
      | inl bad ↦ ground arith
      | inr (p, read) ↦ ground (arith, option_beq_iff p (some "Healthy"))
    ],
  )
