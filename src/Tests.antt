-- ===== src/Tests.antt =====
-- Concrete runs of the program, at which the theorems apply.
pub mod Orchestrator
pub mod Correlation
pub mod Flink
pub mod Ml
pub mod Simulator
pub mod Zscore
pub mod Sink
pub mod Ingestion
pub mod Gateway
pub mod Decoder
pub mod Cascade
pub mod LogIndexer
pub mod Bloom
pub mod Producer
pub mod Hub
pub mod Dataset
pub mod Windows
pub mod Kafka
pub mod Runbook
