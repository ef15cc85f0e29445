-- ===== src/Orchestrator.antt =====
-- loom/orchestrator: the pipeline of agents behind one run.
pub mod Merge
pub mod Graph
pub mod Retry
pub mod Run
