-- ===== src/Flink.antt =====
-- flink_jobs/: the stream jobs between raw telemetry and anomalies.
pub mod Dedup
pub mod Sink
pub mod Zscore
pub mod Decoder
pub mod Windows
