-- ===== src/Sandbox.antt =====
-- loom/sandbox: where a run executes.
pub mod Tiers
pub mod CommandPolicy
pub mod Egress
