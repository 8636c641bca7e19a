-- ===== src/Simulator.antt =====
-- simulator/: the telemetry of a hundred made-up services.
pub mod Publisher
pub mod Cascade
