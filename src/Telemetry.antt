-- ===== src/Telemetry.antt =====
-- loom/telemetry: what a run has cost.
pub mod CostTracker
