-- ===== src/Orchestrator/Dispatch/Outcomes.antt =====
-- What one delivery does: with the shipped rules, and when it is a redelivery.
use distrosense.Base.{ℕ, ◌≡◌, ◌≢◌, ◌<◌, refl, String, Option, none, some, List, ok, value, length}
use distrosense.Orchestrator.Incident.{Incident, require_key}
use distrosense.Orchestrator.Filter.{IncidentFilter, act, duplicate, check, run}
use distrosense.Orchestrator.Filter.Seen.{check-redelivered}
use distrosense.Orchestrator.Rules.{Rule, rules}
use distrosense.Orchestrator.Rules.Shipped.{selected, has_cpu_spike, evaluate-rules}
use distrosense.Orchestrator.Dispatch.{
  Clients, State, acted, skipped, run_actions, handle_incident, dispatch,
}
use distrosense.Orchestrator.Dispatch.Performed.{planned, Done, run_actions-Done}

-- What the publisher of incidents always writes.
pub record IsComplete (i : Incident) : Type 0 where
  pub id : String
  pub root_cause : Option String
  pub severity : ℕ
  pub members : List String
  pub types : List String
  pub id_is : i.incident_id ≡ value id
  pub root_cause_is : require_key i.root_cause_service ≡ ok root_cause
  pub severity_is : i.severity ≡ value severity
  pub members_is : i.member_service_ids ≡ value members
  pub types_is : i.anomaly_types ≡ value types

-- The calls that the shipped rules plan for an incident.
pub calls : {i : Incident} → IsComplete i → List String
calls p = planned (selected p.severity (length p.members) (has_cpu_spike p.types))

module _ (cs : Clients) where
  handle_incident-shipped :
      (i : Incident) (s : State cs) (p : IsComplete i)
      → handle_incident cs rules i s
        ≡ ok (
            run_actions cs
              (selected p.severity (length p.members) (has_cpu_spike p.types))
              i
              p.root_cause
              s)
  unfolding handle_incident
  handle_incident-shipped i s p = rw (
    evaluate-rules i p.severity p.members p.types p.severity_is p.members_is p.types_is,
    p.root_cause_is,
    p.id_is,
  )

  -- With the shipped rules, a delivery of a complete incident that the filter lets through is
  -- handled without an error, and performs exactly the calls of the rule that its severity, members
  -- and types select, in order, whichever of the calls fail: each label is one call of its client, on
  -- the incident or its root cause, with what the calls before it gave, and the log says which failed.
  pub dispatch-shipped :
      (now : ℕ) (i : Incident) (f : IncidentFilter) (s : State cs) (p : IsComplete i)
      → (check f now i).1 ≡ act
      → ((dispatch cs rules now (some i) f s).2 ≡ acted)
        × Done cs i p.root_cause (calls p) s none (dispatch cs rules now (some i) f s).1
  unfolding dispatch calls
  dispatch-shipped now i f s p h =
      rw (h, handle_incident-shipped i s p)
        (
          refl,
          run_actions-Done cs i p.root_cause
              (selected p.severity (length p.members) (has_cpu_spike p.types)) s,
        )

  -- A redelivery that fewer than `max_seen` other checks precede has no effect: the filter, the
  -- clients' state and the log of actions stay as they are, and it is counted as a duplicate.
  pub dispatch-redelivered :
      (rs : List Rule) (now : ℕ) (i : Incident) (f : IncidentFilter) (others : List (ℕ × Incident))
      (later : ℕ) (s : State cs)
      → (check f now i).1 ≢ duplicate
      → length others < f.max_seen
      → dispatch cs rs later (some i) (run (check f now i).0 others) s
        ≡ (run (check f now i).0 others, s, skipped duplicate)
  unfolding dispatch
  dispatch-redelivered rs now i f others later s fresh room =
      rw (check-redelivered f now i others later fresh room)
