-- ===== src/Orchestrator/Incident.antt =====
-- An incident as the orchestrator reads it: the JSON object that
-- correlation/publisher/incident_publisher.py writes to the topic incident-alerts.
-- Instants and durations are milliseconds.
pub use distrosense.Base.{get_opt, get_or_default, get_default, require, require_key}
use distrosense.Base.{ℕ, String, List, Field}

pub record Incident : Type 0 where
  pub incident_id : Field String
  pub root_cause_service : Field String
  pub causality_method : Field String
  pub member_service_ids : Field (List String)
  pub severity : Field ℕ
  pub anomaly_types : Field (List String)
  pub closed_at : Field ℕ
