-- ===== src/Orchestrator/K8s/Revert.antt =====
-- `revert_expired`: it changes no baseline, and puts all of them back in the end.
use distrosense.Base.{
  ◌≤◌, ==_refl, ℕ, ◌+◌, ◌≡◌, refl, String, true, false, some, [], ◌∷◌, arith, ltb, Bool-cases,
  string_eq, ◌==◌, distinct, elem, All, inl, inr, ◌∙◌,
}
use distrosense.Base.Dict.{Dict, get, del, keys, get-put, get-del, All-get}
use distrosense.Orchestrator.K8s.{
  Cluster, K8sClient, or_one, revert_one, revert_each, revert_expired, revert_retry,
}
use distrosense.Orchestrator.K8s.Baseline.{
  IsValid, or_one-some, put-IsValid, del-IsValid, baseline, Keeps, hpa-patched_other,
  hpa-FailsWhole, FailsWhole,
}

module _ (c : Cluster) where
  open c use {World, min_replicas, patch_hpa, patched}

  revert_one-Keeps :
      (whole : FailsWhole c) (now : ℕ) (k : K8sClient) (w : World) (name : String)
      (original revert_at : ℕ)
      → get k.holds name ≡ some (original, revert_at)
      → IsValid k
      → Keeps c k w
          (revert_one c now k w name original revert_at).0
          (revert_one c now k w name original revert_at).1
  unfolding revert_one
  revert_one-Keeps whole now k w name original revert_at held v =
      elim (Bool-cases (ltb now revert_at)) [
        | inl early ↦ rw early (record { valid = v; same = λ j. refl })
        | inr due ↦ elim (Bool-cases (patch_hpa w name original).1) [
          | inl done ↦
              rw (due, done)
                (record {
                  valid = del-IsValid k name v;
                  same = λ j.
                      unfold baseline in
                      ground (
                        arith,
                        get-del k.holds name j,
                        patched w name original done,
                        or_one-some original (v.positive name original revert_at held),
                        hpa-patched_other c w name j original,
                        string_eq.beq_iff name j,
                      );
                })
          | inr failed ↦
              rw (due, failed)
                (record {
                  valid =
                      put-IsValid k name original (now + revert_retry)
                        (v.positive name original revert_at held) v;
                  same = λ j.
                      unfold baseline in
                      ground (
                        arith,
                        get-put k.holds name j (original, now + revert_retry),
                        hpa-FailsWhole c whole w name j original failed,
                        string_eq.beq_iff name j,
                      );
                })
        ]
      ]

  -- a round of the loop leaves the other holds alone
  get-revert_one :
      (now : ℕ) (k : K8sClient) (w : World) (name : String) (original revert_at : ℕ)
      (other : String)
      → (name == other) ≡ false
      → get (revert_one c now k w name original revert_at).0.holds other ≡ get k.holds other
  unfolding revert_one
  get-revert_one now k w name original revert_at other e =
      ground (
        arith,
        get-put k.holds name other (original, now + revert_retry),
        get-del k.holds name other,
      )

  -- the entries that the loop has yet to read are still what the client holds
  abbrev Current : K8sClient → Dict String (ℕ × ℕ) → Type 0
  Current k = All (λ p. get k.holds p.0 ≡ some p.1)

  Current-revert_one :
      (now : ℕ) (k : K8sClient) (w : World) (name : String) (original revert_at : ℕ)
      (items : Dict String (ℕ × ℕ))
      → elem name (keys items) ≡ false
      → Current k items
      → Current (revert_one c now k w name original revert_at).0 items
  Current-revert_one now k w name original revert_at [] h a = tt
  Current-revert_one now k w name original revert_at ((j, v) ∷ items) h a = (
    get-revert_one now k w name original revert_at j (ground arith) ∙ a.0,
    Current-revert_one now k w name original revert_at items (ground arith) a.1,
  )

  revert_each-Keeps :
      (whole : FailsWhole c) (now : ℕ) (k : K8sClient) (w : World) (items : Dict String (ℕ × ℕ))
      → distinct (keys items) ≡ true
      → Current k items
      → IsValid k
      → Keeps c k w (revert_each c now k w items).0 (revert_each c now k w items).1
  unfolding revert_each
  revert_each-Keeps whole now k w [] d a v = record { valid = v; same = λ j. refl }
  revert_each-Keeps whole now k w ((name, (original, at)) ∷ items) d a v =
      let one = revert_one-Keeps whole now k w name original at a.0 v in
      let k' = (revert_one c now k w name original at).0 in
      let w' = (revert_one c now k w name original at).1 in
      let rest =
        revert_each-Keeps whole now k' w' items (ground arith)
          (Current-revert_one now k w name original at items (ground arith) a.1) one.valid in
      record { valid = rest.valid; same = λ j. rest.same j ∙ one.same j }

  -- `revert_expired` changes no baseline, whether its patches succeed or fail, if a patch that raises
  -- was not applied.
  revert_expired-Keeps :
      (whole : FailsWhole c) (now : ℕ) (k : K8sClient) (w : World)
      → IsValid k
      → Keeps c k w (revert_expired c now k w).0 (revert_expired c now k w).1
  unfolding revert_expired
  revert_expired-Keeps whole now k w v =
      revert_each-Keeps whole now k w k.holds v.once (All-get k.holds v.once) v

  del_absent :
      (name : String) (d : Dict String (ℕ × ℕ)) → elem name (keys d) ≡ false → del d name ≡ d
  unfolding del
  del_absent name [] h = refl
  del_absent name ((j, v) ∷ d) h =
      ground (arith, del_absent name d, string_eq.beq_iff name j, string_eq.beq_iff j name)

  module _ (works : (w : World) (name : String) (n : ℕ) → (patch_hpa w name n).1 ≡ true) where
    revert_one_due :
        (now : ℕ) (k : K8sClient) (w : World) (name : String) (original at : ℕ)
        → at ≤ now
        → revert_one c now k w name original at
          ≡ (record k { holds = del k.holds name }, (patch_hpa w name original).0)
    unfolding revert_one
    revert_one_due now k w name original at due = ground (arith, works w name original)

    holds-revert_each :
        (now : ℕ) (k : K8sClient) (w : World) (items : Dict String (ℕ × ℕ))
        → distinct (keys items) ≡ true
        → k.holds ≡ items
        → All (λ p. p.1.1 ≤ now) items
        → (revert_each c now k w items).0.holds ≡ []
    unfolding revert_each
    holds-revert_each now k w [] d e due = e
    holds-revert_each now k w ((name, (original, at)) ∷ items) d e due =
        rw (revert_one_due now k w name original at due.0, revert_each)
          (holds-revert_each now (record k { holds = del k.holds name })
            (patch_hpa w name original).0 items (ground arith)
            (rw e (unfold del in ground (arith, ==_refl name, del_absent name items))) due.1)

    -- When every hold is due and the API accepts every patch, `revert_expired` forgets all holds, and
    -- every HPA has its baseline again.
    pub revert_expired-restores :
        (now : ℕ) (k : K8sClient) (w : World)
        → IsValid k
        → All (λ p. p.1.1 ≤ now) k.holds
        → ((revert_expired c now k w).0.holds ≡ [])
          × ((name : String)
              → or_one (min_replicas (revert_expired c now k w).1 name) ≡ baseline c k w name)
    revert_expired-restores now k w v due =
        let empty : (revert_expired c now k w).0.holds ≡ [] =
          unfold revert_expired in holds-revert_each now k w k.holds v.once refl due in
        let whole : FailsWhole c = λ w name n h. absurd (ground (arith, works w name n)) in
        (
          empty,
          λ name.
              unfold baseline get in
              ground (arith, (revert_expired-Keeps whole now k w v).same name),
        )
