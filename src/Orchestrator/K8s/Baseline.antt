-- ===== src/Orchestrator/K8s/Baseline.antt =====
-- The HPA's own minReplicas survives everything that the client does: it is on the cluster, or it is
-- remembered for as long as the HPA is held up.
use distrosense.Base.{
  ℕ, zero, suc, ◌+◌, ◌<◌, ◌≡◌, refl, String, true, false, Option, none, some, arith, leb,
  Bool-cases, Option-cases, string_eq, ◌==◌, distinct, inl, inr, ◌⊎◌, subst,
}
use distrosense.Base.Dict.{get, put, del, keys, get-put, get-del, distinct-put, distinct-del}
use distrosense.Orchestrator.K8s.{
  Cluster, K8sClient, rollout_name_for, or_one, raise_hpa, trigger_hpa,
}

-- Every hold stands once, and the value to put back is at least 1.
pub record IsValid (k : K8sClient) : Type 0 where
  pub once : distinct (keys k.holds) ≡ true
  pub positive :
      (name : String) (original revert_at : ℕ)
      → get k.holds name ≡ some (original, revert_at)
      → 0 < original

or_one-pos : (o : Option ℕ) → 0 < or_one o
unfolding or_one
or_one-pos none = omega arith
or_one-pos (some zero) = omega arith
or_one-pos (some (suc n)) = omega arith

pub or_one-some : (n : ℕ) → 0 < n → or_one (some n) ≡ n
unfolding or_one
or_one-some zero h = absurd (omega arith)
or_one-some (suc n) h = refl

pub put-IsValid :
    (k : K8sClient) (name : String) (original revert_at : ℕ)
    → 0 < original
    → IsValid k
    → IsValid (record k { holds = put k.holds name (original, revert_at) })
put-IsValid k name original revert_at h v = record {
  once = distinct-put k.holds name (original, revert_at) v.once;
  positive =
      λ j o t e. ground (arith, get-put k.holds name j (original, revert_at), v.positive j o t);
}

pub del-IsValid :
    (k : K8sClient) (name : String) → IsValid k → IsValid (record k { holds = del k.holds name })
del-IsValid k name v = record {
  once = distinct-del k.holds name v.once;
  positive = λ j o t e. ground (arith, get-del k.holds name j, v.positive j o t);
}

module _ (c : Cluster) where
  open c use {World, min_replicas, readable, patch_hpa, patched, patch_other}

  -- The minReplicas that the rollout's HPA has when nothing holds it up.
  unfoldable pub baseline : K8sClient → World → String → ℕ
  unfolding or_one
  baseline k w name = elim (get k.holds name) [
    | none ↦ or_one (min_replicas w name)
    | some (original, _) ↦ original
  ]

  -- One call keeps validity and every baseline.
  pub record Keeps (k : K8sClient) (w : World) (k' : K8sClient) (w' : World) : Type 0 where
    pub valid : IsValid k'
    pub same : (name : String) → baseline k' w' name ≡ baseline k w name

  baseline-put :
      (k : K8sClient) (w : World) (name other : String) (original revert_at : ℕ)
      → baseline k w name ≡ original
      → baseline (record k { holds = put k.holds name (original, revert_at) }) w other
        ≡ baseline k w other
  unfolding baseline
  baseline-put k w name other original revert_at e =
      ground (arith, get-put k.holds name other (original, revert_at), string_eq.beq_iff name other)

  -- the cluster changes at a rollout that is held up, or not at all
  baseline-world :
      (k : K8sClient) (w w' : World) (other : String)
      → min_replicas w' other ≡ min_replicas w other
      → baseline k w' other ≡ baseline k w other
  unfolding baseline
  baseline-world k w w' other e = ground arith

  pub hpa-patched_other :
      (w : World) (name other : String) (n : ℕ)
      → ((name == other) ≡ true)
        ⊎ (min_replicas (patch_hpa w name n).0 other ≡ min_replicas w other)
  hpa-patched_other w name other n = elim (Bool-cases (name == other)) [
    | inl e ↦ inl e
    | inr e ↦ inr (patch_other w name other n (λ p. ground (arith, string_eq.beq_iff name other)))
  ]

  -- A patch that raises was not applied. It is not so after a timeout, for one.
  abbrev pub FailsWhole : Type 0
  FailsWhole =
      (w : World) (name : String) (n : ℕ)
      → (patch_hpa w name n).1 ≡ false
      → min_replicas (patch_hpa w name n).0 name ≡ min_replicas w name

  pub hpa-FailsWhole :
      (whole : FailsWhole) (w : World) (name other : String) (n : ℕ)
      → (patch_hpa w name n).1 ≡ false
      → min_replicas (patch_hpa w name n).0 other ≡ min_replicas w other
  hpa-FailsWhole whole w name other n failed = elim (hpa-patched_other w name other n) [
    | inl e ↦
        subst (λ j. min_replicas (patch_hpa w name n).0 j ≡ min_replicas w j)
          ((string_eq.beq_iff name other).0 e) (whole w name n failed)
    | inr h ↦ h
  ]

  raise-Keeps :
      (whole : FailsWhole) (k : K8sClient) (w : World) (name : String) (least revert_at : ℕ)
      → get k.holds name ≡ none
      → IsValid k
      → Keeps k w (raise_hpa c k w name least revert_at).0 (raise_hpa c k w name least revert_at).1
  unfolding raise_hpa
  raise-Keeps whole k w name least revert_at free v = elim (Bool-cases (readable w name)) [
    | inr e ↦ rw e (record { valid = v; same = λ j. refl })
    | inl e ↦ elim (Bool-cases (leb least (or_one (min_replicas w name)))) [
      | inl enough ↦ rw (e, enough) (record { valid = v; same = λ j. refl })
      | inr low ↦ elim (Bool-cases (patch_hpa w name least).1) [
        | inr failed ↦
            rw (e, low, failed)
              (record {
                valid = v;
                same = λ j.
                    baseline-world k w (patch_hpa w name least).0 j
                      (hpa-FailsWhole whole w name j least failed);
              })
        | inl done ↦
            rw (e, low, done)
              (record {
                valid =
                    put-IsValid k name (or_one (min_replicas w name)) revert_at
                      (or_one-pos (min_replicas w name)) v;
                same = λ j.
                    unfold baseline in
                    ground (
                      arith,
                      get-put k.holds name j (or_one (min_replicas w name), revert_at),
                      hpa-patched_other w name j least,
                      string_eq.beq_iff name j,
                    );
              })
      ]
    ]
  ]

  -- `trigger_hpa` changes no baseline, whether its calls of the API succeed or fail, if a patch that
  -- raises was not applied.
  pub trigger_hpa-Keeps :
      (whole : FailsWhole) (k : K8sClient) (w : World) (now : ℕ) (service_id : Option String)
      (least : ℕ)
      → IsValid k
      → Keeps k w
          (trigger_hpa c k w now service_id least).0
          (trigger_hpa c k w now service_id least).1
  unfolding trigger_hpa
  trigger_hpa-Keeps whole k w now service_id least v =
      elim (Option-cases (rollout_name_for service_id)) [
        | inl e ↦ rw (e, trigger_hpa) (record { valid = v; same = λ j. refl })
        | inr (name, e) ↦ elim (Option-cases (get k.holds name)) [
          | inl free ↦
              rw (e, trigger_hpa, free)
                (raise-Keeps whole k w name least (now + k.revert_after) free v)
          | inr ((original, at), held) ↦
              rw (e, trigger_hpa, held)
                (record {
                  valid =
                      put-IsValid k name original (now + k.revert_after)
                        (v.positive name original at held) v;
                  same = λ j.
                      baseline-put k w name j original (now + k.revert_after)
                        (unfold baseline in ground arith);
                })
        ]
      ]
