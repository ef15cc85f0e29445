-- ===== src/Orchestrator/Retry.antt =====
-- `_execute_node_with_retry` and `_compute_backoff` of loom/orchestrator/task_graph.py.
-- An agent is any function of the node, the attempt's number and the shared state; it returns its
-- output or raises, and changes the shared state either way.
pub mod Laws
pub mod Backoff
mod Tests
use loom_unified_agentic_cod.Base.{
  ℕ, zero, suc, ◌+◌, ◌-◌, ◌*◌, ◌/◌, ◌%◌, ◌^◌, min, max, ◌≤◌, ◌<◌, ◌≡◌, refl, sym, ap, subst, ◌∙◌,
  ◌≢◌, ◌↔◌, ◌⊎◌, inl, inr, Bool, true, false, not, ◌&&◌, ◌||◌, Option, none, some, List, [], ◌∷◌,
  ◌++◌, map, append-nil, append_assoc, arith, ltb, leb, ◌==◌, if◌then◌else◌, ltb→lt, lt→ltb, leb→le,
  le→leb, ==_iff, tests, Bool-cases, Option-cases, is_some, is_none, contains, Distinct,
  contains-append, length, select, any_of, all_of, sum_of, All, length-append, length-select-le,
  sum_of-append, select-append,
}
use loom_unified_agentic_cod.Orchestrator.Graph.{
  Node, NodeState, Shared, Attempt, Graph, Command, set_node, save_checkpoint, deliver,
}

-- The metered part of an agent's output: the usage that it reports, if it reports any.
pub record Usage : Type 0 where
  pub prompt_tokens : ℕ
  pub completion_tokens : ℕ
  pub cost : ℕ

-- `out`, or an exception with the signature `_error_signature(e)`.
pub data Outcome : Type 0 where
  done : Option Usage → Outcome
  raised : ℕ → Outcome

-- What surrounds a run: the agents, and the commands that arrive while an attempt and while a
-- backoff is awaited.
pub record Surroundings : Type 0 where
  pub agent : Node → ℕ → Shared → Outcome × Shared
  pub while_running : Node → ℕ → List Command
  pub while_waiting : Node → ℕ → List Command
  pub max_retries : ℕ

-- 150 and 50 tokens at 500 millionths of a dollar where the output has no `_usage`.
abbrev pub usage_or_default : Option Usage → Usage
usage_or_default none = record { prompt_tokens = 150; completion_tokens = 50; cost = 500 }
usage_or_default (some u) = u

-- The head of the loop's body: the node is running, and a checkpoint is saved.
start_attempt : Node → ℕ → Graph → Graph
unfolding set_node save_checkpoint
start_attempt n attempt g = save_checkpoint (
    set_node n NodeState.running
      (record g { current_node = some n; started = (n, attempt + 1) ∷ g.started }))

-- The event that an attempt sends to the usage ledger.
meter : Node → ℕ → Usage → Graph → Graph
meter n attempt u g = record g { metered = event ∷ g.metered }
  where
    event : Attempt
    event = record {
      node = n;
      attempt_number = attempt + 1;
      tokens_in = u.prompt_tokens;
      tokens_out = u.completion_tokens;
      cost_usd = u.cost;
    }

abbrev no_usage : Usage
no_usage = record { prompt_tokens = 0; completion_tokens = 0; cost = 0 }

-- What follows the agent's call, up to the decision whether to retry.
finish_attempt : Node → ℕ → Outcome → Graph → Graph
unfolding meter set_node
finish_attempt n attempt (done u) g =
    meter n attempt (usage_or_default u) (set_node n NodeState.completed g)
finish_attempt n attempt (raised e) g = meter n attempt no_usage (set_node n NodeState.failed g)

-- One attempt: its outcome, and the graph after it.
unfoldable pub attempt_once : Surroundings → Node → ℕ → Graph → Outcome × Graph
unfolding start_attempt finish_attempt
attempt_once w n attempt g =
    let g' = start_attempt n attempt g in
    let (o, s) = w.agent n attempt g'.shared in
    (o, finish_attempt n attempt o (deliver (w.while_running n attempt) (record g' { shared = s })))

-- `err_sig in previous_errors and attempt > 0`, or the retries are used up.
unfoldable pub gives_up : Surroundings → ℕ → ℕ → List ℕ → Bool
gives_up w attempt e previous = (contains e previous && ltb 0 attempt) || leb w.max_retries attempt

-- `for attempt in range(...)`: `left` rounds remain, the next is number `attempt`.
attempts : Surroundings → Node → ℕ → ℕ → List ℕ → Graph → Bool × Graph
attempts w n zero attempt previous g = (false, g)
attempts w n (suc left) attempt previous g =
    let (o, g') = attempt_once w n attempt g in
    elim o [
      | done _ ↦ (true, g')
      | raised e ↦
          let rest =
            attempts w n left (attempt + 1) (e ∷ previous)
              (deliver (w.while_waiting n attempt) g') in
          if gives_up w attempt e previous then (false, g') else rest
    ]

unfoldable pub execute_node_with_retry : Surroundings → Node → Graph → Bool × Graph
unfolding attempts
execute_node_with_retry w n g = attempts w n (w.max_retries + 1) 0 [] g
