-- ===== src/Tests/Orchestrator.antt =====
-- The orchestrator on concrete incidents, with a cluster and clients that are lists.
use distrosense.Base.{
  none, ℕ, ◌+◌, ◌≡◌, ◌≢◌, refl, String, true, false, some, List, [], ◌∷◌, ok, raised, value, arith,
  elem, string_eq, option_eq, ==_refl, ◌==◌, if◌then◌else◌, ◌↔◌,
}
use distrosense.Base.Dict.{Dict, get, put, get-put}
use distrosense.Orchestrator.Incident.{Incident, get_opt}
use distrosense.Orchestrator.Filter as filter
use distrosense.Orchestrator.Filter.{IncidentFilter, act, duplicate, severity_of, is_stale}
use distrosense.Orchestrator.Filter.Seen.{check-IsValid, check-redelivered}
use distrosense.Orchestrator.Filter.Seen as seen
use distrosense.Orchestrator.Filter.Cooldown.{Spaced, history, run-Spaced}
use distrosense.Orchestrator.Rules.{rules, evaluate, matches, cpu_saturation}
use distrosense.Orchestrator.Rules.Match.{IsFirstMatch, evaluate-IsFirstMatch}
use distrosense.Orchestrator.K8s.{
  Cluster, K8sClient, trigger_hpa, revert_expired, rollback_canary, rollout_name_for, or_one,
}
use distrosense.Orchestrator.K8s.Baseline as baseline
use distrosense.Orchestrator.K8s.Revert.{revert_expired-restores}
use distrosense.Orchestrator.K8s.Canary.{RolledBack, rollback_canary-true}
use distrosense.Orchestrator.Dispatch.{Clients, State, acted, dispatch}
use distrosense.Orchestrator.Dispatch.Performed.{Done}
use distrosense.Orchestrator.Dispatch.Outcomes.{IsComplete, calls, dispatch-shipped}

-- an incident on the payment service
abbrev spike : Incident
spike = record {
  incident_id = value "inc-1";
  root_cause_service = value "svc-a0bc923b";
  causality_method = value "granger";
  member_service_ids = value ("svc-a0bc923b" ∷ "svc-be899d1f" ∷ []);
  severity = value 3;
  anomaly_types = value ("CPU_SPIKE" ∷ []);
  closed_at = value 1000000;
}

abbrev worse : Incident
worse = record spike { incident_id = value "inc-2"; severity = value 5 }

-- cooldown 600 s, maximal age 900 s, as in the configuration, and room for two ids
abbrev two : IncidentFilter
two = record { cooldown = 600000; max_age = 900000; max_seen = 2; seen = []; last = [] }

abbrev after_spike : IncidentFilter
after_spike = record two {
  seen = some "inc-1" ∷ [];
  last = (some "svc-a0bc923b", (1000500, 3)) ∷ [];
}

program : Unit {0}
unfolding filter.check filter.judge filter.remember filter.evict filter.is_stale filter.is_cooling
    get put evaluate matches rules rollout_name_for trigger_hpa revert_expired rollback_canary
    filter.init
program = tt

check-spike : filter.check two 1000500 spike ≡ (after_spike, act)
unfolding program
check-spike = refl

two-IsValid : seen.IsValid two
two-IsValid = record { once = refl; bounded = omega arith }

spike_acted : (filter.check two 1000500 spike).1 ≢ duplicate
unfolding program
spike_acted h = cc

check-redelivered_example :
    filter.check
      (filter.run (filter.check two 1000500 spike).0 ((1000600, worse) ∷ []))
      1000700
      spike
    ≡ (filter.run (filter.check two 1000500 spike).0 ((1000600, worse) ∷ []), duplicate)
check-redelivered_example =
    check-redelivered two 1000500 spike ((1000600, worse) ∷ []) 1000700 spike_acted (omega arith)

run-Spaced_example :
    Spaced 600000
      (history (filter.init 600000 900000 2) [] ((1000500, spike) ∷ (1000600, worse) ∷ []))
run-Spaced_example = run-Spaced 600000 900000 2 ((1000500, spike) ∷ (1000600, worse) ∷ [])

worse_fresh : is_stale after_spike 1000600 worse ≡ false
unfolding program
worse_fresh = refl

spike_last : get after_spike.last (get_opt worse.root_cause_service) ≡ some (1000500, 3)
unfolding program
spike_last = refl

evaluate-IsFirstMatch_example :
    (evaluate rules spike ≡ ok (some cpu_saturation)) ↔ IsFirstMatch rules spike cpu_saturation
evaluate-IsFirstMatch_example = evaluate-IsFirstMatch rules spike cpu_saturation

-- the HPAs, and the rollouts that are aborted; every call succeeds
abbrev staging : Cluster
staging = record {
  World = Dict String ℕ × List String;
  min_replicas = λ w name. get w.0 name;
  readable = λ w name. true;
  patch_hpa = λ w name n. ((put w.0 name n, w.1), true);
  phase = λ w name. ok (if name == "auth-service" then some "Healthy" else some "Progressing");
  aborted = λ w name. elem name w.1;
  patch_abort = λ w name. ((w.0, name ∷ w.1), true);
  patched = λ w name n h. ground (arith, get-put w.0 name name n, ==_refl name);
  patch_other =
      λ w name other n h. ground (arith, get-put w.0 name other n, string_eq.beq_iff name other);
  abort_sets = λ w name h. ground (arith, ==_refl name);
  abort_other = λ w name other h. ground (arith, string_eq.beq_iff other name);
  abort_hpa = λ w name other. refl;
}

abbrev world : Dict String ℕ × List String
world = (("payment-service", 2) ∷ ("order-service", 4) ∷ [], [])

-- the payment service's HPA, 1 by itself, is held up until 2000000
abbrev holding : K8sClient
holding = record { revert_after = 900000; holds = ("payment-service", (1, 2000000)) ∷ [] }

abbrev idle : K8sClient
idle = record { revert_after = 900000; holds = [] }

idle-IsValid : baseline.IsValid idle
unfolding get
idle-IsValid = record { once = refl; positive = λ name o t e. cc }

holding-IsValid : baseline.IsValid holding
unfolding get
holding-IsValid = record { once = refl; positive = λ name o t e. ground arith }

revert_expired-restores_example :
    ((revert_expired staging 2000000 holding world).0.holds ≡ [])
    × ((name : String)
        → or_one (staging.min_replicas (revert_expired staging 2000000 holding world).1 name)
          ≡ baseline.baseline staging holding world name)
revert_expired-restores_example =
    revert_expired-restores staging (λ w name n. refl) 2000000 holding world holding-IsValid
      (omega arith, tt)

aborts : (rollback_canary staging idle world (some "svc-be899d1f")).2 ≡ ok true
unfolding program
aborts = refl

rollback_canary-true_example :
    RolledBack staging idle world
      (some "svc-be899d1f")
      (rollback_canary staging idle world (some "svc-be899d1f")).1
rollback_canary-true_example = rollback_canary-true staging idle world (some "svc-be899d1f") aborts

declines : (rollback_canary staging idle world (some "svc-bc56eed1")).2 ≡ ok false
unfolding program
declines = refl

-- clients that count their calls; the graph database is down
abbrev clients : Clients
clients = record {
  W = ℕ;
  trigger_hpa = λ w s n. (w + 1, ok true);
  rollback_canary = λ w s. (w + 1, raised);
  get_related_services = λ w s hops. (w + 1, raised);
  generate = λ w i related. (w + 1, ok "runbook");
  post_incident = λ w i runbook. (w + 1, ok true);
}

abbrev quiet : State clients
quiet = record { world = 0; actions = [] }

abbrev spike-IsComplete : IsComplete spike
spike-IsComplete = record {
  id = "inc-1";
  root_cause = some "svc-a0bc923b";
  severity = 3;
  members = "svc-a0bc923b" ∷ "svc-be899d1f" ∷ [];
  types = "CPU_SPIKE" ∷ [];
  id_is = refl;
  root_cause_is = refl;
  severity_is = refl;
  members_is = refl;
  types_is = refl;
}

spike_acts : (filter.check two 1000500 spike).1 ≡ act
unfolding program
spike_acts = refl

dispatch-shipped_example :
    ((dispatch clients rules 1000500 (some spike) two quiet).2 ≡ acted)
    × Done clients spike
        (some "svc-a0bc923b")
        (calls spike-IsComplete)
        quiet
        none
        (dispatch clients rules 1000500 (some spike) two quiet).1
dispatch-shipped_example =
    dispatch-shipped clients 1000500 spike two quiet spike-IsComplete spike_acts
