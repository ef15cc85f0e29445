-- ===== src/Orchestrator/Run/Laws/Waiting.antt =====
-- Where a run stays suspended.
use loom_unified_agentic_cod.Base.{
  ◌≡◌, refl, ◌⊎◌, inl, inr, Bool, true, false, not, ◌&&◌, Option, List, [], ◌∷◌, arith, if_both,
}
use loom_unified_agentic_cod.Orchestrator.Graph.{Node, Graph, Command, get_sequence, deliver}
use loom_unified_agentic_cod.Orchestrator.Run.{
  Environment, RunResult, finished, suspended, Round, flow, stuck, round, round_when_awake,
  wait_while_paused, over_budget, proceed, run_nodes, begin, settle, run,
}
use loom_unified_agentic_cod.Orchestrator.Run.Guards.{next, halt}

abbrev Waits : Graph → Type 0
Waits g = (g.is_paused ≡ true) × (g.is_cancelled ≡ false)

abbrev WaitsIfStuck : Round → Type 0
WaitsIfStuck (stuck g) = Waits g
WaitsIfStuck (flow f) = Unit

abbrev WaitsIfFalse : Bool × Graph → Type 0
WaitsIfFalse (b, g) = (b ≡ true) ⊎ Waits g

wait-Waits : (css : List (List Command)) (g : Graph) → WaitsIfFalse (wait_while_paused css g)
unfolding wait_while_paused
wait-Waits [] g = ground arith
wait-Waits (cs ∷ rest) g =
    if_both WaitsIfFalse (g.is_paused && not g.is_cancelled) _ _ (wait-Waits rest (deliver cs g))
      (inl refl)

awake-WaitsIfStuck :
    (env : Environment) (n : Node) (r : Bool × Graph)
    → WaitsIfFalse r
    → WaitsIfStuck (round_when_awake env n r)
unfolding round_when_awake
awake-WaitsIfStuck env n (true, g) h = tt
awake-WaitsIfStuck env n (false, g) (inl e) = cc
awake-WaitsIfStuck env n (false, g) (inr h) = h

round-WaitsIfStuck : (env : Environment) (n : Node) (g : Graph) → WaitsIfStuck (round env n g)
unfolding round
round-WaitsIfStuck env n g = if_both WaitsIfStuck (over_budget env.budget (env.reading n)) _ _ tt (
    if_both WaitsIfStuck g.is_cancelled _ _ tt (
      awake-WaitsIfStuck env n (wait_while_paused (env.while_paused n) g)
        (wait-Waits (env.while_paused n) g)))

abbrev WaitsIfSuspended : RunResult → Type 0
WaitsIfSuspended (suspended g) = Waits g
WaitsIfSuspended (finished g) = Unit

proceed-Waits :
    (rest : Graph → RunResult) (r : Round)
    → WaitsIfStuck r
    → ((g : Graph) → WaitsIfSuspended (rest g))
    → WaitsIfSuspended (proceed rest r)
unfolding proceed
proceed-Waits rest (flow (next g)) h f = f g
proceed-Waits rest (flow (halt g)) h f = tt
proceed-Waits rest (stuck g) h f = h

run_nodes-Waits :
    (env : Environment) (ns : List Node) (g : Graph) → WaitsIfSuspended (run_nodes env ns g)
unfolding run_nodes
run_nodes-Waits env [] g = tt
run_nodes-Waits env (n ∷ ns) g =
    proceed-Waits (run_nodes env ns) (round env n g) (round-WaitsIfStuck env n g)
      (run_nodes-Waits env ns)

settle-Waits : (r : RunResult) → WaitsIfSuspended r → WaitsIfSuspended (settle r)
unfolding settle
settle-Waits (finished g) h = tt
settle-Waits (suspended g) h = h

ends_or_waits :
    (r : RunResult)
    → WaitsIfSuspended r
    → ((g : Graph) × (r ≡ finished g))
      ⊎ ((g : Graph) × (r ≡ suspended g) × (g.is_paused ≡ true) × (g.is_cancelled ≡ false))
ends_or_waits (finished g) h = inl (g, refl)
ends_or_waits (suspended g) h = inr (g, refl, h.0, h.1)

-- A run comes to its end unless it is left paused: where it does not finish, the graph is paused and
-- not cancelled when the last command has come.
pub run-ends_or_waits :
    (env : Environment) (resume_from : Option Node) (g : Graph)
    → ((g' : Graph) × (run env resume_from g ≡ finished g'))
      ⊎ ((g' : Graph) × (run env resume_from g ≡ suspended g')
          × (g'.is_paused ≡ true)
          × (g'.is_cancelled ≡ false))
unfolding run
run-ends_or_waits env r g =
    let rs = run_nodes env (get_sequence r) (begin g) in
    ends_or_waits (settle rs) (settle-Waits rs (run_nodes-Waits env (get_sequence r) (begin g)))
