-- ===== src/Common.antt =====
-- common/: what several services share.
pub mod Kafka
