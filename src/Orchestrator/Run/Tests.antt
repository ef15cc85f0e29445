-- ===== src/Orchestrator/Run/Tests.antt =====
-- Runs with concrete agents: the laws of `run` at inputs that meet their hypotheses.
use loom_unified_agentic_cod.Base.{
  ℕ, ◌+◌, ◌*◌, ◌≤◌, ◌≡◌, refl, ◌≢◌, ◌⊎◌, inr, Bool, true, false, none, some, [], ◌∷◌,
}
use loom_unified_agentic_cod.Orchestrator.Merge.{Decision}
use loom_unified_agentic_cod.Orchestrator.Graph.{
  Node, patcher, planner, verifier, reviewer, RunStatus, ReproStatus, Shared, Graph, deliver,
  set_status, is_approval_required,
}
use loom_unified_agentic_cod.Orchestrator.Retry.{
  Outcome, done, raised, attempt_once, gives_up, execute_node_with_retry,
}
use loom_unified_agentic_cod.Orchestrator.Run.{
  Environment, finished, suspended, over_budget, wait_while_paused, proceed, round, begin, settle,
  run_nodes, run,
}
use loom_unified_agentic_cod.Orchestrator.Run.Guards.{after_success}
use loom_unified_agentic_cod.Orchestrator.Run.Finish.{finish}
use loom_unified_agentic_cod.Orchestrator.Run.Laws.{
  MayMerge, run-merged, is_settled, AwaitsReview, run-settled,
}
use loom_unified_agentic_cod.Orchestrator.Run.Laws.Effort.{Adds, result_graph, run-effort}
use loom_unified_agentic_cod.Orchestrator.Run.Laws.Waiting.{run-ends_or_waits}
use loom_unified_agentic_cod.Orchestrator.Run.Laws.Gate.{Awake, IsHeld, tried, held_patch_stops}

-- The shared state of a run whose agents have all done well, in thousandths.
abbrev good : Shared
good = record {
  run_status = RunStatus.queued;
  repo_map = true;
  onboarding_summary = true;
  reproduction_test = true;
  reproduction_evidence = some ReproStatus.reproduced;
  gateway_allowed = true;
  require_patch_approval = false;
  require_human_approval = false;
  org_requires_approval = false;
  patch_approved = false;
  approval_required = false;
  verification_passed = true;
  verification_decision = some Decision.auto_merge;
  confidence_score = 960;
  auto_merge_threshold = 950;
  conflict_detected = false;
  budget_exceeded = false;
  merge_decision = none;
}

abbrev graph_with : Shared → Bool → Graph
graph_with s is_cancelled = record {
  shared = s;
  nodes = λ n. none;
  current_node = none;
  is_paused = false;
  is_cancelled = is_cancelled;
  step_mode = false;
  started = [];
  metered = [];
  webhooks = [];
  checkpoints = 0;
}

-- Every agent ends with the outcome that is given, and changes nothing.
abbrev calm : Outcome → Environment
calm o = record {
  surroundings = record {
    agent = λ n a s. (o, s);
    while_running = λ n a. [];
    while_waiting = λ n a. [];
    max_retries = 2;
  };
  budget = none;
  reading = λ n. record { cost_usd = 0; elapsed_seconds = 0; tokens_used = 0; steps = 0 };
  while_paused = λ n. [];
  on_fail = none;
  high_risk = λ s. false;
}

abbrev start : Graph
start = graph_with good false

abbrev merged_end : Graph
merged_end = result_graph (run (calm (done none)) none start)

merged_run : run (calm (done none)) none start ≡ finished merged_end
unfolding run run_nodes proceed round begin settle finish wait_while_paused over_budget
    after_success execute_node_with_retry attempt_once gives_up deliver
merged_run = refl

merged_status : merged_end.shared.run_status ≡ RunStatus.merged
unfolding run run_nodes proceed round begin settle finish wait_while_paused over_budget
    after_success execute_node_with_retry attempt_once gives_up deliver
merged_status = refl

run-merged_example : MayMerge merged_end
run-merged_example = run-merged (calm (done none)) none start merged_end merged_run merged_status

run-settled_example : (is_settled merged_end.shared.run_status ≡ true) ⊎ AwaitsReview merged_end
run-settled_example = run-settled (calm (done none)) none start merged_end merged_run

run-effort_example :
    let g' = result_graph (run (calm (raised 7)) (some planner) start) in
    (k : ℕ) × (k ≤ 6 * (2 + 1)) × Adds k start g'
run-effort_example = run-effort (calm (raised 7)) (some planner) start

run-ends_or_waits_example :
    ((g' : Graph) × (run (calm (raised 7)) (some planner) start ≡ finished g'))
    ⊎ ((g' : Graph) × (run (calm (raised 7)) (some planner) start ≡ suspended g')
        × (g'.is_paused ≡ true)
        × (g'.is_cancelled ≡ false))
run-ends_or_waits_example = run-ends_or_waits (calm (raised 7)) (some planner) start

abbrev held_start : Graph
held_start = graph_with (record good { require_patch_approval = true }) false

abbrev held : Graph
held = (tried (calm (done none)) patcher held_start).1

held-tried : tried (calm (done none)) patcher held_start ≡ (true, held)
unfolding execute_node_with_retry attempt_once gives_up deliver
held-tried = refl

calm-Awake : (o : Outcome) (n : Node) (s : Shared) → Awake (calm o) n (graph_with s false)
unfolding over_budget
calm-Awake o n s = (refl, refl, refl)

held_start-IsHeld : IsHeld (calm (done none)) held
unfolding set_status is_approval_required execute_node_with_retry attempt_once gives_up deliver
held_start-IsHeld = inr (refl, refl)

held_patch_stops_example :
    (g2 : Graph) × (run_nodes (calm (done none)) (patcher ∷ verifier ∷ reviewer ∷ []) held_start
      ≡ finished g2)
    × (g2.started ≡ held.started)
    × ((finish g2).shared.run_status ≢ RunStatus.merged)
held_patch_stops_example =
    held_patch_stops (calm (done none)) (verifier ∷ reviewer ∷ []) held_start held
      (calm-Awake (done none) patcher (record good { require_patch_approval = true })) held-tried
      held_start-IsHeld

abbrev broken : Graph
broken = (tried (calm (raised 7)) planner start).1

broken-tried : tried (calm (raised 7)) planner start ≡ (false, broken)
unfolding execute_node_with_retry attempt_once gives_up deliver
broken-tried = refl
