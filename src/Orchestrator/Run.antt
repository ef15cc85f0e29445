-- ===== src/Orchestrator/Run.antt =====
-- `TaskGraph.run` of loom/orchestrator/task_graph.py: the loop over the nodes, the guards behind each
-- node, and the final status. Callbacks that only report (`start_cb`, `complete_cb`, logs, traces) and
-- the evidence bundle are left out; the failure callback decides whether the loop goes on.
pub mod Guards
pub mod Finish
pub mod Laws
mod Tests
use loom_unified_agentic_cod.Base.{
  ℕ, zero, suc, ◌+◌, ◌-◌, ◌*◌, ◌/◌, ◌%◌, ◌^◌, min, max, ◌≤◌, ◌<◌, ◌≡◌, refl, sym, ap, subst, ◌∙◌,
  ◌≢◌, ◌↔◌, ◌⊎◌, inl, inr, Bool, true, false, not, ◌&&◌, ◌||◌, Option, none, some, List, [], ◌∷◌,
  ◌++◌, map, append-nil, append_assoc, arith, ltb, leb, ◌==◌, if◌then◌else◌, ltb→lt, lt→ltb, leb→le,
  le→leb, ==_iff, tests, Bool-cases, Option-cases, is_some, is_none, contains, Distinct,
  contains-append, length, select, any_of, all_of, sum_of, All, length-append, length-select-le,
  sum_of-append, select-append,
}
use loom_unified_agentic_cod.Runtime.Budget.{RunBudget, Reading, check_limits}
use loom_unified_agentic_cod.Orchestrator.Graph.{
  Node, get_sequence, RunStatus, Shared, Graph, Command, Webhook, set_status, save_checkpoint,
  fire_webhook, deliver, onboard, reproduction, planner, patcher, verifier, reviewer,
}
use loom_unified_agentic_cod.Orchestrator.Retry.{Surroundings, execute_node_with_retry}
use Guards.{Flow, next, halt, after_success}
use Finish.{finish}

-- All that a run takes from outside.
pub record Environment : Type 0 where
  pub surroundings : Surroundings
  pub open surroundings use *
  pub budget : Option RunBudget
  -- the readings when the loop comes to a node
  pub reading : Node → Reading
  -- the batches of commands that arrive while the loop waits, paused, before a node
  pub while_paused : Node → List (List Command)
  -- `error_cb`, `false` also where it raises
  pub on_fail : Option (Node → Bool)
  -- `router.classify_patch_risk` on the patch
  pub high_risk : Shared → Bool

-- `STATUS_NODE_MAP`
abbrev pub status_of : Node → RunStatus
status_of onboard = RunStatus.onboarding
status_of reproduction = RunStatus.reproducing
status_of planner = RunStatus.planning
status_of patcher = RunStatus.patching
status_of verifier = RunStatus.verifying
status_of reviewer = RunStatus.evidence_review

pub over_budget : Option RunBudget → Reading → Bool
over_budget none r = false
over_budget (some b) r = is_some (check_limits b r)

mark_over_budget : Graph → Graph
unfolding set_status
mark_over_budget g =
    let g' = set_status RunStatus.failed g in
    record g' { shared = record (g'.shared) { budget_exceeded = true } }

-- `while self.is_paused and not self.is_cancelled: await asyncio.sleep(0.2)`, one batch of commands for
-- each sleep. `false` where the graph is still paused when no more commands come.
pub wait_while_paused : List (List Command) → Graph → Bool × Graph
wait_while_paused [] g = (not (g.is_paused && not g.is_cancelled), g)
wait_while_paused (cs ∷ rest) g =
    let later = wait_while_paused rest (deliver cs g) in
    if g.is_paused && not g.is_cancelled then later else (true, g)

-- `step_mode` pauses the graph behind the node.
end_of_round : Graph → Graph
unfolding save_checkpoint
end_of_round g =
    let g' = save_checkpoint g in
    if g'.step_mode then record g' { is_paused = true; step_mode = false } else g'

after_failure : Option (Node → Bool) → Node → Graph → Flow
unfolding set_status
after_failure none n g = halt (set_status RunStatus.failed g)
after_failure (some f) n g =
    let g' = set_status RunStatus.failed g in if f n then next g' else halt g'

after_node : Environment → Node → Bool × Graph → Flow
unfolding after_failure
after_node env n (true, g) = after_success (env.high_risk g.shared) n g
after_node env n (false, g) = after_failure env.on_fail n g

close_round : Flow → Flow
unfolding end_of_round
close_round (next g) = next (end_of_round g)
close_round (halt g) = halt g

-- The body of the loop from the second test for cancellation on.
execute_round : Environment → Node → Graph → Flow
unfolding after_node close_round set_status
execute_round env n g =
    if g.is_cancelled
    then halt g
    else close_round
        (after_node env n (execute_node_with_retry env.surroundings n (set_status (status_of n) g)))

pub data RunResult : Type 0 where
  finished suspended : Graph → RunResult

-- One round, up to where the loop goes on, ends, or stays paused.
pub data Round : Type 0 where
  flow : Flow → Round
  stuck : Graph → Round

round_when_awake : Environment → Node → Bool × Graph → Round
unfolding execute_round
round_when_awake env n (true, g) = flow (execute_round env n g)
round_when_awake env n (false, g) = stuck g

pub round : Environment → Node → Graph → Round
unfolding over_budget mark_over_budget round_when_awake
round env n g =
    if over_budget env.budget (env.reading n)
    then flow (halt (mark_over_budget g))
    else if g.is_cancelled
    then flow (halt g)
    else round_when_awake env n (wait_while_paused (env.while_paused n) g)

-- Where the loop goes on with the rest of the nodes.
proceed : (Graph → RunResult) → Round → RunResult
proceed rest (flow (next g)) = rest g
proceed rest (flow (halt g)) = finished g
proceed rest (stuck g) = suspended g

pub run_nodes : Environment → List Node → Graph → RunResult
unfolding proceed
run_nodes env [] g = finished g
run_nodes env (n ∷ ns) g = proceed (run_nodes env ns) (round env n g)

-- The head of `run`.
pub begin : Graph → Graph
unfolding set_status fire_webhook
begin g = fire_webhook Webhook.run_queued (set_status RunStatus.queued g)

settle : RunResult → RunResult
settle (finished g) = finished (finish g)
settle (suspended g) = suspended g

pub run : Environment → Option Node → Graph → RunResult
unfolding settle
run env resume_from g = settle (run_nodes env (get_sequence resume_from) (begin g))
