-- ===== src/Orchestrator/Run/Laws/Effort.antt =====
-- How much work a run does: attempts and metered events.
use loom_unified_agentic_cod.Base.{
  ℕ, zero, suc, ◌+◌, ◌*◌, ◌≤◌, ◌≡◌, refl, ap, Bool, true, false, Option, none, some, List, [], ◌∷◌,
  arith, if_both, length, length-append,
}
use loom_unified_agentic_cod.Orchestrator.Graph.{
  Node, onboard, reproduction, planner, patcher, verifier, reviewer, Graph, Command, get_sequence,
  deliver, set_status,
}
use loom_unified_agentic_cod.Orchestrator.Retry.{execute_node_with_retry}
use loom_unified_agentic_cod.Orchestrator.Retry.Laws.{
  attempt_log, deliver-SameLog, execute_node-Rounds,
}
use loom_unified_agentic_cod.Orchestrator.Run.{
  Environment, RunResult, finished, suspended, Round, flow, stuck, round, round_when_awake,
  execute_round, wait_while_paused, after_node, after_failure, close_round, status_of, over_budget,
  proceed, run_nodes, begin, settle, run,
}
use loom_unified_agentic_cod.Orchestrator.Run.Finish.{finish}
use loom_unified_agentic_cod.Orchestrator.Run.Guards.{Flow, next, halt, after_success}

-- `k` attempts were started, and as many events metered.
abbrev pub Adds : ℕ → Graph → Graph → Type 0
Adds k g g' =
    (length g'.started ≡ k + length g.started) × (length g'.metered ≡ k + length g.metered)

Adds-trans : (j k : ℕ) (g g' h : Graph) → Adds j g g' → Adds k g' h → Adds (j + k) g h
Adds-trans j k g g' h (a, b) (c, d) = (omega arith, omega arith)

length-attempt_log : (n : Node) (k a : ℕ) → length (attempt_log n k a) ≡ k
length-attempt_log n zero a = refl
length-attempt_log n (suc k) a = omega (
  arith,
  length-append (attempt_log n k (a + 1)) ((n, a + 1) ∷ []),
  length-attempt_log n k (a + 1),
)

deliver-Adds : (cs : List Command) (g : Graph) → Adds 0 g (deliver cs g)
deliver-Adds cs g =
    let (s, m, _) = deliver-SameLog cs g in (omega (arith, ap length s), omega (arith, ap length m))

wait-Adds : (css : List (List Command)) (g : Graph) → Adds 0 g (wait_while_paused css g).1
unfolding wait_while_paused
wait-Adds [] g = (omega arith, omega arith)
wait-Adds (cs ∷ rest) g = ground (arith, deliver-Adds cs g, wait-Adds rest (deliver cs g))

abbrev flow_graph : Flow → Graph
flow_graph (next g) = g
flow_graph (halt g) = g

abbrev round_graph : Round → Graph
round_graph (flow f) = flow_graph f
round_graph (stuck g) = g

abbrev pub result_graph : RunResult → Graph
result_graph (finished g) = g
result_graph (suspended g) = g

after_success-Adds :
    (risk : Bool) (n : Node) (g : Graph) → Adds 0 g (flow_graph (after_success risk n g))
unfolding after_success
after_success-Adds risk onboard g = ground arith
after_success-Adds risk reproduction g = ground arith
after_success-Adds risk planner g = ground arith
after_success-Adds risk patcher g = ground arith
after_success-Adds risk verifier g = ground arith
after_success-Adds risk reviewer g = ground arith

after_failure-Adds :
    (f : Option (Node → Bool)) (n : Node) (g : Graph) → Adds 0 g (flow_graph (after_failure f n g))
unfolding after_failure
after_failure-Adds none n g = (omega arith, omega arith)
after_failure-Adds (some f) n g = ground arith

after_node-Adds :
    (env : Environment) (n : Node) (r : Bool × Graph) → Adds 0 r.1 (flow_graph (after_node env n r))
unfolding after_node
after_node-Adds env n (true, g) = after_success-Adds (env.high_risk g.shared) n g
after_node-Adds env n (false, g) = after_failure-Adds env.on_fail n g

close_round-Adds : (f : Flow) → Adds 0 (flow_graph f) (flow_graph (close_round f))
unfolding close_round
close_round-Adds (next g) = ground arith
close_round-Adds (halt g) = (omega arith, omega arith)

-- A round's attempts are at most those of its node.
abbrev Bounded : Environment → Graph → Graph → Type 0
Bounded env g g' = (k : ℕ) × (k ≤ env.max_retries + 1) × Adds k g g'

execute-Bounded :
    (env : Environment) (n : Node) (g : Graph)
    → Bounded env g (execute_node_with_retry env.surroundings n (set_status (status_of n) g)).1
unfolding set_status
execute-Bounded env n g =
    let (k, lo, _, (s, m), _) =
      execute_node-Rounds env.surroundings n (set_status (status_of n) g) in
    (
      k,
      omega arith,
      (
        omega (
          arith,
          ap length s,
          length-append (attempt_log n k 0) g.started,
          length-attempt_log n k 0,
        ),
        m,
      ),
    )

execute_round-Bounded :
    (env : Environment) (n : Node) (g : Graph) → Bounded env g (flow_graph (execute_round env n g))
unfolding execute_round set_status
execute_round-Bounded env n g =
    if_both (λ f. Bounded env g (flow_graph f)) g.is_cancelled (halt g)
      (close_round (after_node env n r)) (0, omega arith, (omega arith, omega arith))
      (k, le, (omega (arith, ran, after, closed), omega (arith, ran, after, closed)))
  where
    r : Bool × Graph
    r = execute_node_with_retry env.surroundings n (set_status (status_of n) g)

    open execute-Bounded env n g use {«0» as k, «1» as le, «2» as ran}

    after : Adds 0 r.1 (flow_graph (after_node env n r))
    after = after_node-Adds env n r

    closed :
        Adds 0 (flow_graph (after_node env n r)) (flow_graph (close_round (after_node env n r)))
    closed = close_round-Adds (after_node env n r)

awake-Bounded :
    (env : Environment) (n : Node) (r : Bool × Graph)
    → Bounded env r.1 (round_graph (round_when_awake env n r))
unfolding round_when_awake
awake-Bounded env n (true, g) = execute_round-Bounded env n g
awake-Bounded env n (false, g) = (0, omega arith, (omega arith, omega arith))

round-Bounded :
    (env : Environment) (n : Node) (g : Graph) → Bounded env g (round_graph (round env n g))
unfolding round
round-Bounded env n g =
    let waited = wait_while_paused (env.while_paused n) g in
    let (k, le, ran) = awake-Bounded env n waited in
    let bounded = λ (r : Round). Bounded env g (round_graph r) in
    let nothing : Bounded env g g = (0, omega arith, (omega arith, omega arith)) in
    let (a, b) = wait-Adds (env.while_paused n) g in
    if_both bounded (over_budget env.budget (env.reading n)) _ _ nothing (
      if_both bounded g.is_cancelled _ _ nothing
        (k, le, (omega (arith, ran, a), omega (arith, ran, b))))

-- The attempts of a loop over `ns`.
abbrev Effort : Environment → ℕ → Graph → Graph → Type 0
Effort env rounds g g' = (k : ℕ) × (k ≤ rounds * (env.max_retries + 1)) × Adds k g g'

Effort-step :
    (env : Environment) (rounds : ℕ) (g g' h : Graph)
    → Bounded env g g'
    → Effort env rounds g' h
    → Effort env (suc rounds) g h
Effort-step env rounds g g' h (j, le, a) (k, le', b) =
    (j + k, grind arith, (omega arith, omega arith))

proceed-Effort :
    (env : Environment) (rounds : ℕ) (rest : Graph → RunResult) (r : Round) (g : Graph)
    → Bounded env g (round_graph r)
    → ((h : Graph) → Effort env rounds h (result_graph (rest h)))
    → Effort env (suc rounds) g (result_graph (proceed rest r))
unfolding proceed
proceed-Effort env rounds rest (flow (next h)) g b f =
    Effort-step env rounds g h (result_graph (rest h)) b (f h)
proceed-Effort env rounds rest (flow (halt h)) g (k, le, a) f = (k, grind arith, a)
proceed-Effort env rounds rest (stuck h) g (k, le, a) f = (k, grind arith, a)

run_nodes-Effort :
    (env : Environment) (ns : List Node) (g : Graph)
    → Effort env (length ns) g (result_graph (run_nodes env ns g))
unfolding run_nodes
run_nodes-Effort env [] g = (0, omega arith, (omega arith, omega arith))
run_nodes-Effort env (n ∷ ns) g =
    proceed-Effort env (length ns) (run_nodes env ns) (round env n g) g (round-Bounded env n g)
      (run_nodes-Effort env ns)

length-get_sequence : (r : Option Node) → length (get_sequence r) ≤ 6
length-get_sequence none = omega arith
length-get_sequence (some onboard) = omega arith
length-get_sequence (some reproduction) = omega arith
length-get_sequence (some planner) = omega arith
length-get_sequence (some patcher) = omega arith
length-get_sequence (some verifier) = omega arith
length-get_sequence (some reviewer) = omega arith

begin-Adds : (g : Graph) → Adds 0 g (begin g)
unfolding begin
begin-Adds g = (omega arith, omega arith)

finish-Adds : (g : Graph) → Adds 0 g (finish g)
unfolding finish
finish-Adds g = ground arith

settle-Adds : (r : RunResult) → Adds 0 (result_graph r) (result_graph (settle r))
unfolding settle
settle-Adds (finished g) = finish-Adds g
settle-Adds (suspended g) = (omega arith, omega arith)

-- A run does bounded work: over all nodes it starts at most six times `max_retries + 1` attempts, and it
-- sends exactly one event to the usage ledger for each.
pub run-effort :
    (env : Environment) (resume_from : Option Node) (g : Graph)
    → let g' = result_graph (run env resume_from g) in
      (k : ℕ) × (k ≤ 6 * (env.max_retries + 1)) × Adds k g g'
unfolding run
run-effort env r g =
    let (k, le, ran) = run_nodes-Effort env (get_sequence r) (begin g) in
    let more = settle-Adds (run_nodes env (get_sequence r) (begin g)) in
    let first = begin-Adds g in
    let short = length-get_sequence r in
    (k, grind arith, (omega (arith, ran, more, first), omega (arith, ran, more, first)))
