-- ===== src/Orchestrator/Run/Guards.antt =====
-- The guards of `TaskGraph.run` behind a node that succeeded.
use loom_unified_agentic_cod.Base.{
  Bool, true, false, not, ◌&&◌, ◌||◌, Option, some, if◌then◌else◌, is_none,
}
use loom_unified_agentic_cod.Orchestrator.Merge.{Decision}
use loom_unified_agentic_cod.Orchestrator.Graph.{
  Node, onboard, reproduction, planner, patcher, verifier, reviewer, RunStatus, ReproStatus, Shared,
  Graph, Webhook, set_status, save_checkpoint, fire_webhook, is_approval_required,
}

-- The loop goes on to its next statements, or breaks.
pub data Flow : Type 0 where
  next halt : Graph → Flow

-- `not repo_map or not summary`
abbrev onboarding_incomplete : Shared → Bool
onboarding_incomplete s = not s.repo_map || not s.onboarding_summary

abbrev is_reproduced : Option ReproStatus → Bool
is_reproduced (some ReproStatus.reproduced) = true
is_reproduced _ = false

-- The two tests on the reproduction, which end the loop alike.
abbrev reproduction_failed : Shared → Bool
reproduction_failed s =
    (not s.reproduction_test || is_none s.reproduction_evidence)
    || not (is_reproduced s.reproduction_evidence)

-- The commit gateway blocked the patch.
unfoldable pub hold_for_security : Graph → Graph
unfolding set_status fire_webhook
hold_for_security g =
    let g' = set_status RunStatus.security_hold g in
    let decided = some Decision.security_hold in
    fire_webhook Webhook.run_security_hold
      (record g' { shared = record (g'.shared) { verification_decision = decided } })

-- A human has to approve the patch.
unfoldable pub hold_for_approval : Graph → Graph
unfolding set_status fire_webhook save_checkpoint
hold_for_approval g =
    let g' = set_status RunStatus.pending_approval g in
    let s = record (g'.shared) { approval_required = true } in
    save_checkpoint
      (fire_webhook Webhook.run_pending_approval (record g' { is_paused = true; shared = s }))

guard_patch : Bool → Graph → Flow
unfolding hold_for_security hold_for_approval is_approval_required
guard_patch high_risk g =
    if not g.shared.gateway_allowed
    then halt (hold_for_security g)
    else if is_approval_required g.shared high_risk && not g.shared.patch_approved
    then halt (hold_for_approval g)
    else next g

unfoldable pub after_success : Bool → Node → Graph → Flow
unfolding guard_patch set_status
after_success high_risk onboard g =
    if onboarding_incomplete g.shared then halt (set_status RunStatus.failed g) else next g
after_success high_risk reproduction g =
    if reproduction_failed g.shared then halt (set_status RunStatus.failed g) else next g
after_success high_risk patcher g = guard_patch high_risk g
after_success high_risk planner g = next g
after_success high_risk verifier g = next g
after_success high_risk reviewer g = next g
