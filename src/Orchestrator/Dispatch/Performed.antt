-- ===== src/Orchestrator/Dispatch/Performed.antt =====
-- The calls of the clients that `_handle_incident` of orchestrator/main.py makes for a rule, with their
-- arguments.
use distrosense.Base.{
  ◌≡◌, refl, String, Bool, true, false, Option, none, List, [], ◌∷◌, ◌++◌, Result, elem, string_eq,
  if◌then◌else◌, append_assoc, append-nil, sym, ◌∙◌,
}
use distrosense.Orchestrator.Incident.{Incident}
use distrosense.Orchestrator.Rules.{Rule}
use distrosense.Orchestrator.Dispatch.{
  Clients, State, safe, hpa_action, canary_action, runbook_action, slack_action, run_actions,
  or_empty, succeeded, returned,
}

-- The calls that a rule's actions stand for, in the order in which they are made.
pub planned : Rule → List String
planned rule =
    (if elem "trigger_hpa" rule.actions then "trigger_hpa" ∷ [] else [])
    ++ ((if elem "rollback_canary" rule.actions then "rollback_canary" ∷ [] else [])
        ++ ((if elem "generate_runbook" rule.actions
              then "neo4j subgraph" ∷ "generate_runbook" ∷ []
              else [])
            ++ (if elem "post_slack" rule.actions then "post_slack" ∷ [] else [])))

module _ (cs : Clients) (i : Incident) (root : Option String) where
  -- The labels of a plan, performed one after the other: the state of the world and the runbook before
  -- them, what is logged, and the state of the world after them. The call that a label stands for is
  -- made on the state that the one before leaves, and a failure is logged and gives no value.
  pub data Performs
      : List String → cs.W → Option String → List (String × Bool) → cs.W → Type 0 where
    done : (w : cs.W) (runbook : Option String) → Performs [] w runbook [] w
    scales :
        (w after : cs.W) (runbook : Option String) (rest : List String) (log : List (String × Bool))
        → Performs rest (cs.trigger_hpa w root 4).0 runbook log after
        → Performs
            ("trigger_hpa" ∷ rest)
            w
            runbook
            (("trigger_hpa", succeeded cs (cs.trigger_hpa w root 4).1) ∷ log)
            after
    rolls_back :
        (w after : cs.W) (runbook : Option String) (rest : List String) (log : List (String × Bool))
        → Performs rest (cs.rollback_canary w root).0 runbook log after
        → Performs
            ("rollback_canary" ∷ rest)
            w
            runbook
            (("rollback_canary", succeeded cs (cs.rollback_canary w root).1) ∷ log)
            after
    suggests :
        (w after : cs.W) (runbook : Option String) (rest : List String) (log : List (String × Bool))
        (w₁ w₂ : cs.W) (related : Result (List String)) (text : Result String)
        → cs.get_related_services w root 2 ≡ (w₁, related)
        → cs.generate w₁ i (or_empty cs (returned cs related)) ≡ (w₂, text)
        → Performs rest w₂ (returned cs text) log after
        → Performs
            ("neo4j subgraph" ∷ "generate_runbook" ∷ rest)
            w
            runbook
            (("neo4j subgraph", succeeded cs related)
              ∷ ("generate_runbook", succeeded cs text)
              ∷ log)
            after
    posts :
        (w after : cs.W) (runbook : Option String) (rest : List String) (log : List (String × Bool))
        → Performs rest (cs.post_incident w i runbook).0 runbook log after
        → Performs
            ("post_slack" ∷ rest)
            w
            runbook
            (("post_slack", succeeded cs (cs.post_incident w i runbook).1) ∷ log)
            after

  -- from one state to another, with the log as it grows
  pub record Done (labels : List String) (s : State cs) (runbook : Option String) (t : State cs)
      : Type 0 where
    pub log : List (String × Bool)
    pub logged : t.actions ≡ s.actions ++ log
    pub performed : Performs labels s.world runbook log t.world

  Done-hpa :
      (b : Bool) (s t : State cs) (runbook : Option String) (rest : List String)
      → Done rest
          (if b then (safe cs "trigger_hpa" (λ w. cs.trigger_hpa w root 4) s).0 else s)
          runbook
          t
      → Done ((if b then "trigger_hpa" ∷ [] else []) ++ rest) s runbook t
  unfolding safe
  Done-hpa false s t runbook rest d = d
  Done-hpa true s t runbook rest d = record {
    log = _ ∷ d.log;
    logged = d.logged ∙ append_assoc s.actions (_ ∷ []) d.log;
    performed = scales s.world t.world runbook rest d.log d.performed;
  }

  Done-canary :
      (b : Bool) (s t : State cs) (runbook : Option String) (rest : List String)
      → Done rest
          (if b then (safe cs "rollback_canary" (λ w. cs.rollback_canary w root) s).0 else s)
          runbook
          t
      → Done ((if b then "rollback_canary" ∷ [] else []) ++ rest) s runbook t
  unfolding safe
  Done-canary false s t runbook rest d = d
  Done-canary true s t runbook rest d = record {
    log = _ ∷ d.log;
    logged = d.logged ∙ append_assoc s.actions (_ ∷ []) d.log;
    performed = rolls_back s.world t.world runbook rest d.log d.performed;
  }

  abbrev suggested : Bool → State cs → State cs × Option String
  suggested b s =
      if b
      then (let (s', related) =
            safe cs "neo4j subgraph" (λ w. cs.get_related_services w root 2) s in
          safe cs "generate_runbook" (λ w. cs.generate w i (or_empty cs related)) s')
      else (s, none)

  Done-suggested :
      (b : Bool) (s t : State cs) (rest : List String)
      → Done rest (suggested b s).0 (suggested b s).1 t
      → Done ((if b then "neo4j subgraph" ∷ "generate_runbook" ∷ [] else []) ++ rest) s none t
  unfolding safe
  Done-suggested false s t rest d = d
  Done-suggested true s t rest d = record {
    log = _ ∷ _ ∷ d.log;
    logged =
        d.logged
        ∙ append_assoc (s.actions ++ _ ∷ []) (_ ∷ []) d.log
        ∙ append_assoc s.actions (_ ∷ []) (_ ∷ d.log);
    performed = suggests s.world t.world none rest d.log _ _ _ _ refl refl d.performed;
  }

  Done-slack :
      (b : Bool) (s : State cs) (runbook : Option String)
      → Done
          (if b then "post_slack" ∷ [] else [])
          s
          runbook
          (if b then (safe cs "post_slack" (λ w. cs.post_incident w i runbook) s).0 else s)
  unfolding safe
  Done-slack false s runbook = record {
    log = [];
    logged = sym (append-nil s.actions);
    performed = done s.world runbook;
  }
  Done-slack true s runbook = record {
    log = _;
    logged = refl;
    performed = posts s.world _ runbook [] [] (done _ runbook);
  }

  pub run_actions-Done :
      (rule : Rule) (s : State cs) → Done (planned rule) s none (run_actions cs rule i root s)
  unfolding planned run_actions hpa_action canary_action runbook_action slack_action
  run_actions-Done rule s =
      let s₁ = hpa_action cs rule root s in
      let s₂ = canary_action cs rule root s₁ in
      let (s₃, runbook) = runbook_action cs rule i root s₂ in
      Done-hpa (elem "trigger_hpa" rule.actions) s _ none _ (
        Done-canary (elem "rollback_canary" rule.actions) s₁ _ none _ (
          Done-suggested (elem "generate_runbook" rule.actions) s₂ _ _
            (Done-slack (elem "post_slack" rule.actions) s₃ runbook)))
