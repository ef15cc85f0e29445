-- ===== src/Context.antt =====
-- loom/context: what goes into a prompt.
pub mod Budget
