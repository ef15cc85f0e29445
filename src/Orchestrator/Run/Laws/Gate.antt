-- ===== src/Orchestrator/Run/Laws/Gate.antt =====
-- What stops a run: a patch that is held, a node that fails, a cancellation.
use loom_unified_agentic_cod.Base.{
  ◌≡◌, refl, ap, ◌∙◌, ◌≢◌, ◌⊎◌, inl, inr, Bool, true, false, Option, none, List, [], ◌∷◌, arith,
  Bool-cases,
}
use loom_unified_agentic_cod.Orchestrator.Graph.{
  Node, patcher, RunStatus, Graph, Command, get_sequence, is_approval_required, set_status,
}
use loom_unified_agentic_cod.Orchestrator.Retry.{execute_node_with_retry}
use loom_unified_agentic_cod.Orchestrator.Run.{
  Environment, finished, flow, round, round_when_awake, execute_round, wait_while_paused,
  after_node, after_failure, close_round, status_of, over_budget, mark_over_budget, proceed,
  run_nodes, begin, settle, run,
}
use loom_unified_agentic_cod.Orchestrator.Run.Guards.{
  Flow, halt, after_success, hold_for_security, hold_for_approval,
}
use loom_unified_agentic_cod.Orchestrator.Run.Finish.{finish}

-- The loop comes to the next node awake: within its budget, not cancelled, not paused.
abbrev pub Awake : Environment → Node → Graph → Type 0
Awake env n g =
    (over_budget env.budget (env.reading n) ≡ false)
    × (g.is_cancelled ≡ false)
    × (g.is_paused ≡ false)

wait-awake :
    (css : List (List Command)) (g : Graph)
    → g.is_paused ≡ false
    → wait_while_paused css g ≡ (true, g)
unfolding wait_while_paused
wait-awake [] g h = ground arith
wait-awake (cs ∷ rest) g h = ground arith

round-Awake :
    (env : Environment) (n : Node) (g : Graph)
    → Awake env n g
    → round env n g
      ≡ flow (
          close_round (
            after_node env n
              (execute_node_with_retry env.surroundings n (set_status (status_of n) g))))
unfolding round round_when_awake execute_round
round-Awake env n g (b, c, p) = simp (b, c, wait-awake (env.while_paused n) g p)

-- What an attempt on `n` leaves.
abbrev pub tried : Environment → Node → Graph → Bool × Graph
tried env n g = execute_node_with_retry env.surroundings n (set_status (status_of n) g)

-- The commit gateway blocks the patch, or a human must approve it and has not.
abbrev pub IsHeld : Environment → Graph → Type 0
IsHeld env g =
    (g.shared.gateway_allowed ≡ false)
    ⊎ ((is_approval_required g.shared (env.high_risk g.shared) ≡ true)
        × (g.shared.patch_approved ≡ false))

security_hold-final :
    (g : Graph) → (finish (hold_for_security g)).shared.run_status ≢ RunStatus.merged
unfolding finish hold_for_security
security_hold-final g h = ground arith

approval_hold-final :
    (g : Graph) → (finish (hold_for_approval g)).shared.run_status ≢ RunStatus.merged
unfolding finish hold_for_approval
approval_hold-final g h = ground arith

-- What a held patch leads to.
abbrev Stops : Graph → Flow → Type 0
Stops g1 f =
    (g2 : Graph) × (f ≡ halt g2)
    × (g2.started ≡ g1.started)
    × ((finish g2).shared.run_status ≢ RunStatus.merged)

held-Stops :
    (env : Environment) (g : Graph)
    → IsHeld env g
    → Stops g (after_success (env.high_risk g.shared) patcher g)
unfolding after_success hold_for_security hold_for_approval
held-Stops env g h = elim (Bool-cases g.shared.gateway_allowed) [
  | inl allowed ↦ (hold_for_approval g, ground arith, refl, approval_hold-final g)
  | inr blocked ↦ (hold_for_security g, ground arith, refl, security_hold-final g)
]

-- A loop whose next round ends it.
halting :
    (env : Environment) (n : Node) (rest : List Node) (g g2 : Graph) (r : Bool × Graph)
    → Awake env n g
    → tried env n g ≡ r
    → after_node env n r ≡ halt g2
    → run_nodes env (n ∷ rest) g ≡ finished g2
unfolding run_nodes proceed close_round
halting env n rest g g2 r w t e = ap (proceed (run_nodes env rest)) (
    round-Awake env n g w
    ∙ ap (λ x. flow (close_round (after_node env n x))) t
    ∙ ap (λ f. flow (close_round f)) e)

-- A held patch ends the loop: where the loop comes to the patcher within its budget, neither cancelled nor
-- paused, and the patcher succeeds but its patch is held, the loop ends, no later node starts, and the run cannot end as merged.
pub held_patch_stops :
    (env : Environment) (rest : List Node) (g g1 : Graph)
    → Awake env patcher g
    → tried env patcher g ≡ (true, g1)
    → IsHeld env g1
    → (g2 : Graph) × (run_nodes env (patcher ∷ rest) g ≡ finished g2)
      × (g2.started ≡ g1.started)
      × ((finish g2).shared.run_status ≢ RunStatus.merged)
unfolding after_node
held_patch_stops env rest g g1 w t h =
    let (g2, e, s, m) = held-Stops env g1 h in
    (g2, halting env patcher rest g g2 (true, g1) w t e, s, m)

-- Without a failure callback a failed node ends the run: where the loop goes into a node and the node
-- fails, the loop ends, no later node starts, and the run ends as failed.
pub failed_node_stops :
    (env : Environment) (n : Node) (rest : List Node) (g g1 : Graph)
    → Awake env n g
    → env.on_fail ≡ none
    → tried env n g ≡ (false, g1)
    → (g2 : Graph) × (run_nodes env (n ∷ rest) g ≡ finished g2)
      × (g2.started ≡ g1.started)
      × ((finish g2).shared.run_status ≡ RunStatus.failed)
unfolding after_node after_failure set_status finish
failed_node_stops env n rest g g1 w f t =
    let e : after_node env n (false, g1) ≡ halt (set_status RunStatus.failed g1) = ground arith in
    (
      set_status RunStatus.failed g1,
      halting env n rest g (set_status RunStatus.failed g1) (false, g1) w t e,
      refl,
      refl,
    )

cancelled_nodes :
    (env : Environment) (ns : List Node) (g : Graph)
    → g.is_cancelled ≡ true
    → (run_nodes env ns g ≡ finished g) ⊎ (run_nodes env ns g ≡ finished (mark_over_budget g))
unfolding run_nodes proceed round
cancelled_nodes env [] g c = inl refl
cancelled_nodes env (n ∷ ns) g c = elim (Bool-cases (over_budget env.budget (env.reading n))) [
  | inl b ↦ inr (simp b)
  | inr b ↦ inl (simp (b, c))
]

finish-cancelled :
    (g : Graph)
    → g.is_cancelled ≡ true
    → g.shared.run_status ≡ RunStatus.queued
    → (finish g).shared.run_status ≡ RunStatus.cancelled
unfolding finish
finish-cancelled g c q = ground arith

finish-started : (g : Graph) → (finish g).started ≡ g.started
unfolding finish
finish-started g = ground arith

finish-failed :
    (g : Graph)
    → g.shared.run_status ≡ RunStatus.failed
    → (finish g).shared.run_status ≡ RunStatus.failed
unfolding finish
finish-failed g q = ground arith

-- A run that is cancelled before it begins starts nothing, and ends as cancelled, or as failed where it
-- is over its budget.
pub cancelled_run :
    (env : Environment) (resume_from : Option Node) (g : Graph)
    → g.is_cancelled ≡ true
    → (g' : Graph) × (run env resume_from g ≡ finished g')
      × (g'.started ≡ g.started)
      × ((g'.shared.run_status ≡ RunStatus.cancelled) ⊎ (g'.shared.run_status ≡ RunStatus.failed))
unfolding run settle begin mark_over_budget
cancelled_run env r g c = elim (cancelled_nodes env (get_sequence r) (begin g) c) [
  | inl e ↦ (
    finish (begin g),
    ap settle e,
    finish-started (begin g),
    inl (finish-cancelled (begin g) c refl),
  )
  | inr e ↦ (
    finish (mark_over_budget (begin g)),
    ap settle e,
    finish-started (mark_over_budget (begin g)),
    inr (finish-failed (mark_over_budget (begin g)) refl),
  )
]
