-- ===== src/Verification.antt =====
-- loom/verification: what a patch has to pass.
pub mod Decision
pub mod Evidence
pub mod Pipeline
