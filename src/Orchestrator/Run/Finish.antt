-- ===== src/Orchestrator/Run/Finish.antt =====
-- The end of `TaskGraph.run`: the merge decision, the final status and the final webhook.
use loom_unified_agentic_cod.Base.{Bool, true, false, not, ◌||◌, Option, none, some, if◌then◌else◌}
use loom_unified_agentic_cod.Orchestrator.Merge.{
  Decision, MergeDecision, is_rejected, compute_merge_decision,
}
use loom_unified_agentic_cod.Orchestrator.Graph.{
  RunStatus, Shared, Graph, Webhook, set_status, save_checkpoint, fire_webhook,
}

-- `str(verification_decision).startswith("reject_")`
abbrev says_reject : Option Decision → Bool
says_reject none = false
says_reject (some d) = is_rejected d

-- `run_status in (FAILED, ROLLED_BACK, CANCELLED)`
abbrev keeps_status : RunStatus → Bool
keeps_status RunStatus.failed = true
keeps_status RunStatus.rolled_back = true
keeps_status RunStatus.cancelled = true
keeps_status _ = false

derived_status : Bool → Shared → MergeDecision → RunStatus
derived_status is_cancelled s m =
    if keeps_status s.run_status
    then s.run_status
    else if is_cancelled
    then RunStatus.cancelled
    else if s.budget_exceeded
    then RunStatus.failed
    else if m.security_hold
    then RunStatus.security_hold
    else if m.conflict_detected
    then RunStatus.conflict_resolution
    else if not s.verification_passed || says_reject s.verification_decision
    then RunStatus.failed
    else if m.auto_merge
    then RunStatus.merged
    else if m.needs_human_review
    then RunStatus.evidence_review
    else RunStatus.failed

abbrev final_webhook : RunStatus → Webhook
final_webhook RunStatus.security_hold = Webhook.run_security_hold
final_webhook RunStatus.rolled_back = Webhook.run_rolled_back
final_webhook RunStatus.cancelled = Webhook.run_failed_cancelled
final_webhook RunStatus.conflict_resolution = Webhook.run_failed_conflict
final_webhook RunStatus.failed = Webhook.run_failed
final_webhook RunStatus.evidence_review = Webhook.run_failed_review
final_webhook _ = Webhook.run_completed

abbrev is_pending : RunStatus → Bool
is_pending RunStatus.pending_approval = true
is_pending _ = false

-- With the merge decision stored, the status derived and the webhook fired.
conclude : Graph → Graph
unfolding derived_status compute_merge_decision set_status fire_webhook save_checkpoint
conclude g =
    let s = g.shared in
    let m =
      compute_merge_decision s.verification_passed s.confidence_score s.auto_merge_threshold
        s.verification_decision s.conflict_detected in
    let status = derived_status g.is_cancelled s m in
    let s' = record s { merge_decision = some m; run_status = status } in
    save_checkpoint (fire_webhook (final_webhook status) (record g { shared = s' }))

-- A run that awaits approval returns at once.
unfoldable pub finish : Graph → Graph
unfolding conclude save_checkpoint
finish g = if is_pending g.shared.run_status then save_checkpoint g else conclude g
