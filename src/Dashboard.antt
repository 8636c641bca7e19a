-- ===== src/Dashboard.antt =====
-- dashboard_api/: the live view of anomalies and incidents.
pub mod Hub
