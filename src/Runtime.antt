-- ===== src/Runtime.antt =====
-- loom/runtime: the budget of a run and the worker that executes it.
pub mod Budget
pub mod Worker
pub mod JobQueue
pub mod ProductionQueue
