-- ===== src/Orchestrator/Retry/Tests.antt =====
-- The laws of retrying at concrete agents.
use loom_unified_agentic_cod.Base.{suc, true, false, none, []}
use loom_unified_agentic_cod.Orchestrator.Graph.{planner, Graph, RunStatus}
use loom_unified_agentic_cod.Orchestrator.Retry.{Surroundings, raised, execute_node_with_retry}
use loom_unified_agentic_cod.Orchestrator.Retry.Laws.{Rounds, execute_node-Rounds}

-- An agent that always raises the same exception.
abbrev stubborn : Surroundings
stubborn = record {
  agent = λ n a s. (raised 7, s);
  while_running = λ n a. [];
  while_waiting = λ n a. [];
  max_retries = 2;
}

abbrev fresh : Graph
fresh = record {
  shared = record {
    run_status = RunStatus.queued;
    repo_map = false;
    onboarding_summary = false;
    reproduction_test = false;
    reproduction_evidence = none;
    gateway_allowed = true;
    require_patch_approval = false;
    require_human_approval = false;
    org_requires_approval = false;
    patch_approved = false;
    approval_required = false;
    verification_passed = false;
    verification_decision = none;
    confidence_score = 0;
    auto_merge_threshold = 950;
    conflict_detected = false;
    budget_exceeded = false;
    merge_decision = none;
  };
  nodes = λ n. none;
  current_node = none;
  is_paused = false;
  is_cancelled = false;
  step_mode = false;
  started = [];
  metered = [];
  webhooks = [];
  checkpoints = 0;
}

execute_node-Rounds_example :
    Rounds (suc 2) planner 0 fresh (execute_node_with_retry stubborn planner fresh)
execute_node-Rounds_example = execute_node-Rounds stubborn planner fresh
