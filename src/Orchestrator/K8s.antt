-- ===== src/Orchestrator/K8s.antt =====
-- orchestrator/integrations/k8s_client.py. The Kubernetes API server is not part of the program: it
-- is the parameter `Cluster`. A call that raises returns `raised`; what was done before stays done.
pub mod Baseline
pub mod Revert
pub mod Canary
use distrosense.Base.{
  ℕ, zero, suc, ◌+◌, ◌≡◌, ◌≢◌, String, Bool, true, false, Option, none, some, List, [], ◌∷◌, Result,
  ok, raised, ltb, leb, string_eq, option_eq, if◌then◌else◌, ◌==◌,
}
use distrosense.Base.Dict.{Dict, get, put, del}

-- The HPAs by rollout name (spec.minReplicas), and the Argo rollouts' phase and abort flag. A
-- patch that fails changes nothing, one that succeeds sets its field, and neither touches another
-- object.
pub record Cluster : Type 1 where
  pub World : Type 0
  pub min_replicas : World → String → Option ℕ
  pub readable : World → String → Bool
  pub patch_hpa : World → String → ℕ → World × Bool
  pub phase : World → String → Result (Option String)
  pub aborted : World → String → Bool
  pub patch_abort : World → String → World × Bool
  pub patched :
      (w : World) (name : String) (n : ℕ)
      → (patch_hpa w name n).1 ≡ true
      → min_replicas (patch_hpa w name n).0 name ≡ some n
  pub patch_other :
      (w : World) (name other : String) (n : ℕ)
      → name ≢ other
      → min_replicas (patch_hpa w name n).0 other ≡ min_replicas w other
  pub abort_sets :
      (w : World) (name : String)
      → (patch_abort w name).1 ≡ true
      → aborted (patch_abort w name).0 name ≡ true
  pub abort_other :
      (w : World) (name other : String)
      → name ≢ other
      → aborted (patch_abort w name).0 other ≡ aborted w other
  pub abort_hpa :
      (w : World) (name other : String)
      → min_replicas (patch_abort w name).0 other ≡ min_replicas w other

abbrev pub revert_retry : ℕ
revert_retry = 60000

-- SERVICE_ID_TO_ROLLOUT
unfoldable pub rollouts : Dict String String
rollouts =
    ("svc-a0bc923b", "payment-service")
    ∷ ("svc-be899d1f", "order-service")
    ∷ ("svc-02c8974b", "inventory-service")
    ∷ ("svc-bc56eed1", "auth-service")
    ∷ []

-- `raised`: rollout name -> (original minReplicas, instant to put it back)
pub record K8sClient : Type 0 where
  pub revert_after : ℕ
  pub holds : Dict String (ℕ × ℕ)

-- SERVICE_ID_TO_ROLLOUT.get(service_id); a service that is None has no rollout
unfoldable pub rollout_name_for : Option String → Option String
unfolding rollouts get
rollout_name_for none = none
rollout_name_for (some service_id) = get rollouts service_id

-- `spec.min_replicas or 1`
unfoldable pub or_one : Option ℕ → ℕ
or_one none = 1
or_one (some zero) = 1
or_one (some (suc n)) = suc n

module _ (c : Cluster) where
  open c use {World, min_replicas, readable, patch_hpa, phase, patch_abort}

  -- a method's result: the client, the cluster, and the value returned
  abbrev pub Outcome : Type 0
  Outcome = K8sClient × World × Result Bool

  -- the rest of `trigger_hpa` for a rollout that is not held up yet
  unfoldable pub raise_hpa : K8sClient → World → String → ℕ → ℕ → Outcome
  unfolding or_one
  raise_hpa k w name least revert_at =
      if readable w name
      then (let current = or_one (min_replicas w name) in
          if leb least current
          then (k, w, ok true)
          else let (w', done) = patch_hpa w name least in
            if done
            then (record k { holds = put k.holds name (current, revert_at) }, w', ok true)
            else (k, w', raised))
      else (k, w, raised)

  unfoldable pub hold_hpa : K8sClient → World → String → ℕ → ℕ → Option (ℕ × ℕ) → Outcome
  unfolding raise_hpa
  hold_hpa k w name least revert_at (some (original, _)) =
      (record k { holds = put k.holds name (original, revert_at) }, w, ok true)
  hold_hpa k w name least revert_at none = raise_hpa k w name least revert_at

  unfoldable pub trigger_hpa : K8sClient → World → ℕ → Option String → ℕ → Outcome
  unfolding hold_hpa rollout_name_for
  trigger_hpa k w now service_id least = elim (rollout_name_for service_id) [
    | none ↦ (k, w, ok false)
    | some name ↦ hold_hpa k w name least (now + k.revert_after) (get k.holds name)
  ]

  -- one round of the loop of `revert_expired`
  unfoldable pub revert_one : ℕ → K8sClient → World → String → ℕ → ℕ → K8sClient × World
  revert_one now k w name original revert_at =
      if ltb now revert_at
      then (k, w)
      else let (w', done) = patch_hpa w name original in
        if done
        then (record k { holds = del k.holds name }, w')
        else (record k { holds = put k.holds name (original, now + revert_retry) }, w')

  -- for rollout_name, (original, revert_at) in list(self._raised.items())
  unfoldable pub revert_each : ℕ → K8sClient → World → Dict String (ℕ × ℕ) → K8sClient × World
  unfolding revert_one
  revert_each now k w [] = (k, w)
  revert_each now k w ((name, (original, revert_at)) ∷ items) =
      let (k', w') = revert_one now k w name original revert_at in revert_each now k' w' items

  unfoldable pub revert_expired : ℕ → K8sClient → World → K8sClient × World
  unfolding revert_each
  revert_expired now k w = revert_each now k w k.holds

  -- the rest of `rollback_canary`, from the phase that was read on
  unfoldable pub abort_rollout : K8sClient → World → String → Result (Option String) → Outcome
  abort_rollout k w name raised = (k, w, raised)
  abort_rollout k w name (ok phase) =
      if phase == some "Healthy"
      then (k, w, ok false)
      else let (w', done) = patch_abort w name in if done then (k, w', ok true) else (k, w', raised)

  unfoldable pub rollback_canary : K8sClient → World → Option String → Outcome
  unfolding abort_rollout rollout_name_for
  rollback_canary k w service_id = elim (rollout_name_for service_id) [
    | none ↦ (k, w, ok false)
    | some name ↦ abort_rollout k w name (phase w name)
  ]

  -- `DisabledK8sClient`: reports every action as skipped
  unfoldable pub disabled_action : K8sClient → World → Option String → Outcome
  disabled_action k w service_id = (k, w, ok false)
