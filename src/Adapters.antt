-- ===== src/Adapters.antt =====
-- loom/adapters: which model a node of a run is given.
pub mod Router
