-- ===== src/Orchestrator/Rules.antt =====
-- orchestrator/rule_engine.py and the rule set of orchestrator/rules.yaml.
pub mod Match
pub mod Shipped
use distrosense.Base.{
  ℕ, String, Bool, true, false, Option, none, some, List, [], ◌∷◌, Result, ok, raised, ◌>>=◌, ltb,
  not, any, elem, string_eq, if◌then◌else◌, length,
}
use distrosense.Orchestrator.Incident.{Incident, get_default}

-- The fields of a condition that are there.
pub record Condition : Type 0 where
  pub min_severity : Option ℕ
  pub anomaly_types : Option (List String)
  pub min_member_services : Option ℕ

pub record Rule : Type 0 where
  pub name : String
  pub condition : Condition
  pub actions : List String

-- incident.get("severity", 0) < condition["min_severity"]
unfoldable pub severity_fits : Condition → Incident → Result Bool
severity_fits c i = elim c.min_severity [
  | none ↦ ok true
  | some least ↦ do severity ← get_default i.severity 0; ok (not (ltb severity least))
]

-- set(incident.get("anomaly_types", [])) & set(condition["anomaly_types"])
unfoldable pub types_fit : Condition → Incident → Result Bool
types_fit c i = elim c.anomaly_types [
  | none ↦ ok true
  | some wanted ↦ do types ← get_default i.anomaly_types []; ok (any (λ t. elem t wanted) types)
]

-- len(incident.get("member_service_ids", [])) < condition["min_member_services"]
unfoldable pub members_fit : Condition → Incident → Result Bool
members_fit c i = elim c.min_member_services [
  | none ↦ ok true
  | some least ↦ do
    members ← get_default i.member_service_ids []
    ok (not (ltb (length members) least))
]

-- `_matches`: the first test that fails ends it.
unfoldable pub matches : Condition → Incident → Result Bool
unfolding severity_fits types_fit members_fit
matches c i = do
  severity ← severity_fits c i
  if not severity
      then ok false
      else do types ← types_fit c i; if not types then ok false else members_fit c i

unfoldable pub evaluate : List Rule → Incident → Result (Option Rule)
evaluate [] i = ok none
evaluate (rule ∷ rules) i =
    let rest = evaluate rules i in
    do found ← matches rule.condition i; if found then ok (some rule) else rest

-- orchestrator/rules.yaml
abbrev pub critical_multi_service_cascade : Rule
critical_multi_service_cascade = record {
  name = "critical_multi_service_cascade";
  condition = record { min_severity = some 4; anomaly_types = none; min_member_services = some 3 };
  actions = "trigger_hpa" ∷ "rollback_canary" ∷ "post_slack" ∷ "generate_runbook" ∷ [];
}

abbrev pub critical_single_service : Rule
critical_single_service = record {
  name = "critical_single_service";
  condition = record { min_severity = some 4; anomaly_types = none; min_member_services = none };
  actions = "trigger_hpa" ∷ "post_slack" ∷ "generate_runbook" ∷ [];
}

abbrev pub cpu_saturation : Rule
cpu_saturation = record {
  name = "cpu_saturation";
  condition = record {
    min_severity = some 3;
    anomaly_types = some ("CPU_SPIKE" ∷ []);
    min_member_services = none;
  };
  actions = "trigger_hpa" ∷ "post_slack" ∷ [];
}

abbrev pub moderate_incident : Rule
moderate_incident = record {
  name = "moderate_incident";
  condition = record { min_severity = some 2; anomaly_types = none; min_member_services = none };
  actions = "post_slack" ∷ [];
}

abbrev pub default_low_severity : Rule
default_low_severity = record {
  name = "default_low_severity";
  condition = record { min_severity = none; anomaly_types = none; min_member_services = none };
  actions = "post_slack" ∷ [];
}

unfoldable pub rules : List Rule
rules =
    critical_multi_service_cascade ∷ critical_single_service ∷ cpu_saturation ∷ moderate_incident
    ∷ default_low_severity ∷ []
