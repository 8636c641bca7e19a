-- ===== src/Ingestion.antt =====
-- ingestion/: the gate that telemetry passes on its way to Kafka.
pub mod Pipeline
pub mod LogIndexer
pub mod Bloom
pub mod Producer
