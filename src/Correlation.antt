-- ===== src/Correlation.antt =====
-- The correlation engine (correlation/): anomalies become clusters, and clusters incidents.
pub mod Cluster
pub mod Search
pub mod Clusterer
pub mod Granger
pub mod Publish
