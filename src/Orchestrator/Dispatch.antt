-- ===== src/Orchestrator/Dispatch.antt =====
-- orchestrator/main.py: `_safe`, `_handle_incident` and `_dispatch`. The four clients are the
-- parameter `Clients` over one state `W`: each call returns the state that it leaves, and a value or
-- an exception. The counter ACTIONS is the log of (label, whether the call succeeded); the counter
-- INCIDENTS is the outcome that `dispatch` returns. The counter
-- RULE_MATCHES is left out, and so is printing, but for the subscript
-- incident['incident_id'][:8] in it, which can raise.
pub mod Outcomes
pub mod Performed
use distrosense.Base.{
  ℕ, String, Bool, true, false, Option, none, some, List, [], ◌∷◌, ◌++◌, Result, ok, raised, ◌>>=◌,
  ◌>>◌, elem, string_eq, if◌then◌else◌,
}
use distrosense.Orchestrator.Incident.{Incident, require, require_key}
use distrosense.Orchestrator.Filter.{IncidentFilter, Verdict, act, duplicate, stale, cooling, check}
use distrosense.Orchestrator.Rules.{Rule, evaluate}

pub record Clients : Type 1 where
  pub W : Type 0
  pub trigger_hpa : W → Option String → ℕ → W × Result Bool
  pub rollback_canary : W → Option String → W × Result Bool
  pub get_related_services : W → Option String → ℕ → W × Result (List String)
  pub generate : W → Incident → List String → W × Result String
  pub post_incident : W → Incident → Option String → W × Result Bool

abbrev pub hpa_scale_up_min_replicas : ℕ
hpa_scale_up_min_replicas = 4

-- M.INCIDENTS
pub data Handled : Type 0 where
  undecodable acted error : Handled
  skipped : Verdict → Handled

module _ (cs : Clients) where
  open cs use {W, trigger_hpa, rollback_canary, get_related_services, generate, post_incident}

  pub record State : Type 0 where
    pub world : W
    pub actions : List (String × Bool)

  abbrev pub succeeded {ℓ} : {A : Type ℓ} → Result A → Bool
  succeeded (ok _) = true
  succeeded raised = false

  abbrev pub returned {ℓ} : {A : Type ℓ} → Result A → Option A
  returned (ok a) = some a
  returned raised = none

  -- `_safe(label, fn, ...)`
  unfoldable pub safe : {A : Type 0} → String → (W → W × Result A) → State → State × Option A
  safe label fn s =
      let (w, r) = fn s.world in
      (record { world = w; actions = s.actions ++ (label, succeeded r) ∷ [] }, returned r)

  abbrev pub or_empty : Option (List String) → List String
  or_empty none = []
  or_empty (some xs) = xs

  unfoldable pub hpa_action : Rule → Option String → State → State
  unfolding safe
  hpa_action rule root_cause s =
      if elem "trigger_hpa" rule.actions
      then (safe "trigger_hpa" (λ w. trigger_hpa w root_cause hpa_scale_up_min_replicas) s).0
      else s

  unfoldable pub canary_action : Rule → Option String → State → State
  unfolding safe
  canary_action rule root_cause s =
      if elem "rollback_canary" rule.actions
      then (safe "rollback_canary" (λ w. rollback_canary w root_cause) s).0
      else s

  unfoldable pub runbook_action : Rule → Incident → Option String → State → State × Option String
  unfolding safe
  runbook_action rule i root_cause s =
      if elem "generate_runbook" rule.actions
      then (let (s', related) =
            safe "neo4j subgraph" (λ w. get_related_services w root_cause 2) s in
          safe "generate_runbook" (λ w. generate w i (or_empty related)) s')
      else (s, none)

  unfoldable pub slack_action : Rule → Incident → State × Option String → State
  unfolding safe
  slack_action rule i (s, runbook) =
      if elem "post_slack" rule.actions
      then (safe "post_slack" (λ w. post_incident w i runbook) s).0
      else s

  -- the four `if`s of `_handle_incident`
  unfoldable pub run_actions : Rule → Incident → Option String → State → State
  unfolding hpa_action canary_action runbook_action slack_action
  run_actions rule i root_cause s = slack_action rule i (
      runbook_action rule i root_cause
        (canary_action rule root_cause (hpa_action rule root_cause s)))

  unfoldable pub handle_incident : List Rule → Incident → State → Result State
  unfolding run_actions
  handle_incident rules i s = do
    found ← evaluate rules i
    elim found [
      | none ↦ do require i.incident_id; ok s
      | some rule ↦ do
        root_cause ← require_key i.root_cause_service
        require i.incident_id
        ok (run_actions rule i root_cause s)
    ]

  abbrev pub settle : State → Result State → State × Handled
  settle s (ok s') = (s', acted)
  settle s raised = (s, error)

  abbrev pub act_on : List Rule → Incident → State → Verdict → State × Handled
  act_on rules i s act = settle s (handle_incident rules i s)
  act_on rules i s verdict = (s, skipped verdict)

  -- A message that is no JSON object, or no JSON, is `none`.
  unfoldable pub dispatch :
      List Rule → ℕ → Option Incident → IncidentFilter → State → IncidentFilter × State × Handled
  unfolding handle_incident
  dispatch rules now none f s = (f, s, undecodable)
  dispatch rules now (some i) f s =
      let (f', verdict) = check f now i in
      let (s', handled) = act_on rules i s verdict in (f', s', handled)
