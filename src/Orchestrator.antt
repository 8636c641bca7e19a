-- ===== src/Orchestrator.antt =====
-- The response orchestrator (orchestrator/): what it does with the incidents that the correlation
-- engine publishes.
pub mod Incident
pub mod Filter
pub mod Rules
pub mod K8s
pub mod Runbook
pub mod Dispatch
