-- ===== src/Orchestrator/Rules/Shipped.antt =====
-- What the rule set of orchestrator/rules.yaml selects.
use distrosense.Base.{
  ℕ, ◌≡◌, String, Bool, true, some, List, [], ◌∷◌, ok, arith, value, elem, any, string_eq, length,
  leb, if◌then◌else◌, ◌||◌, ◌&&◌,
}
use distrosense.Orchestrator.Incident.{Incident}
use distrosense.Orchestrator.Rules.{
  Rule, matches, evaluate, rules, critical_multi_service_cascade, critical_single_service,
  cpu_saturation, moderate_incident, default_low_severity,
}

unfoldable pub has_cpu_spike : List String → Bool
has_cpu_spike types = any (λ t. elem t ("CPU_SPIKE" ∷ [])) types

-- The rule for an incident of this severity, this number of members and these types.
pub selected : ℕ → ℕ → Bool → Rule
selected severity members cpu_spike =
    if leb 4 severity
    then (if leb 3 members then critical_multi_service_cascade else critical_single_service)
    else (if leb 3 severity && cpu_spike
        then cpu_saturation
        else (if leb 2 severity then moderate_incident else default_low_severity))

module _ (i : Incident) (severity : ℕ) (members types : List String)
    (s : i.severity ≡ value severity) (m : i.member_service_ids ≡ value members)
    (t : i.anomaly_types ≡ value types) where
  -- On an incident whose severity, members and types are present, the shipped rule set always
  -- selects a rule, and it is the one that the three determine as `selected` says.
  pub evaluate-rules :
      evaluate rules i ≡ ok (some (selected severity (length members) (has_cpu_spike types)))
  unfolding evaluate rules matches selected has_cpu_spike
  evaluate-rules = rw (s, m, t) (ground arith)

-- Every rule that the shipped rule set can select posts to Slack; a canary is rolled back only at
-- severity 4 or more and over three members or more, and the HPA is raised only from severity 3 on.
selected-actions :
    (severity members : ℕ) (cpu_spike : Bool)
    → (elem "post_slack" (selected severity members cpu_spike).actions ≡ true)
      × (elem "rollback_canary" (selected severity members cpu_spike).actions
          ≡ (leb 4 severity && leb 3 members))
      × (elem "trigger_hpa" (selected severity members cpu_spike).actions
          ≡ (leb 4 severity || (leb 3 severity && cpu_spike)))
unfolding selected
selected-actions severity members cpu_spike = ground arith
