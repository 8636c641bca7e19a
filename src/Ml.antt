-- ===== src/Ml.antt =====
-- ml_service/: the models that judge windows of metrics, and the gateway that serves them.
pub mod Debouncer
pub mod Forest
pub mod Gateway
pub mod Dataset
