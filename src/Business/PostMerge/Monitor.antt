-- ===== src/Business/PostMerge/Monitor.antt =====
-- loom/business/post_merge.py: when a failing build rolls a merge back, and what the rollback records. The
-- audit log and the webhooks of the monitor are those of Business.AuditLog and Api.Webhooks, if it has them.
use loom_unified_agentic_cod.Base.{
  ℕ, ◌+◌, ◌≡◌, sym, subst, Bool, true, false, ◌&&◌, Option, none, some, List, [], ◌∷◌, ◌++◌, arith,
  leb, if◌then◌else◌,
}
use loom_unified_agentic_cod.Base.Text.{Text}
use loom_unified_agentic_cod.Api.Webhooks.Subscriptions.{run_rolled_back}
use loom_unified_agentic_cod.Api.Webhooks.{WebhookEngine, Receiver}
use loom_unified_agentic_cod.Api.Webhooks.Dispatch.{dispatch}
use loom_unified_agentic_cod.Business.AuditLog.{
  AuditAction, AuditLogEntry, AuditLogger, record_entry,
}
use loom_unified_agentic_cod.Business.PostMerge.{generate_revert_patch}

abbrev pub default_monitor_timeout_seconds : ℕ
default_monitor_timeout_seconds = 3600

-- `elapsed <= monitor_timeout_seconds`, also where the clock is before the merge.
pub auto_rollback_triggered : ℕ → Bool → ℕ → ℕ → Bool
auto_rollback_triggered merge_time ci_failure_detected timeout now =
    ci_failure_detected && leb now (merge_time + timeout)

pub record Report : Type 0 where
  pub run_id : ℕ
  pub rollback_needed : Bool
  pub revert_patch : List Text
  pub evaluated_at : ℕ

report_with : ℕ → ℕ → Bool → Option (List Text) → Option Report
report_with run_id now needed none = none
report_with run_id now needed (some patch) =
    some
      record { run_id = run_id; rollback_needed = needed; revert_patch = patch; evaluated_at = now }

-- `none` where the patch is malformed, which raises.
pub evaluate : ℕ → ℕ → Bool → ℕ → List Text → ℕ → Option Report
unfolding auto_rollback_triggered report_with
evaluate run_id merge_time ci_failure_detected timeout patch now =
    let needed = auto_rollback_triggered merge_time ci_failure_detected timeout now in
    report_with run_id now needed (if needed then generate_revert_patch patch else some [])

pub record RevertRecord : Type 0 where
  pub id : ℕ
  pub org_id : ℕ
  pub run_id : ℕ
  pub revert_patch : List Text
  pub recorded_at : ℕ

pub record PostMergeMonitor : Type 0 where
  pub webhook_engine : Option WebhookEngine
  pub audit_logger : Option AuditLogger
  pub revert_log : List RevertRecord

audit_rollback : Bool → AuditLogEntry → Option AuditLogger → Option AuditLogger
audit_rollback writable e none = none
audit_rollback writable e (some l) = some (record_entry writable e l).1

send_rollback : (ℕ → Receiver) → (ℕ → ℕ) → ℕ → Option WebhookEngine → Option WebhookEngine
send_rollback receivers fresh org none = none
send_rollback receivers fresh org (some e) =
    some (dispatch receivers fresh run_rolled_back (some org) e).1

-- The flags say whether the audit log and the revert log can be written.
pub record_rollback :
    (ℕ → Receiver)
    → (ℕ → ℕ)
    → Bool
    → Bool
    → ℕ
    → ℕ
    → ℕ
    → ℕ
    → ℕ
    → Report
    → PostMergeMonitor
    → RevertRecord × PostMergeMonitor
unfolding audit_rollback send_rollback
record_rollback receivers fresh audit_writable log_writable id audit_id org actor now report m =
    let r : RevertRecord = record {
      id = id;
      org_id = org;
      run_id = report.run_id;
      revert_patch = report.revert_patch;
      recorded_at = report.evaluated_at;
    } in
    let e : AuditLogEntry = record {
      id = audit_id;
      org_id = org;
      actor_id = actor;
      action = AuditAction.run_rolled_back;
      target = report.run_id;
      timestamp = now;
    } in
    (
      r,
      record {
        webhook_engine = send_rollback receivers fresh org m.webhook_engine;
        audit_logger = audit_rollback audit_writable e m.audit_logger;
        revert_log = if log_writable then m.revert_log ++ r ∷ [] else m.revert_log;
      },
    )

needed_cases :
    (run_id now : ℕ) (b : Bool) (o : Option (List Text)) (r : Report)
    → report_with run_id now b (if b then o else some []) ≡ some r
    → (r.rollback_needed ≡ b) × ((if b then o else some []) ≡ some r.revert_patch)
unfolding report_with
needed_cases run_id now true none r h = ground arith
needed_cases run_id now true (some p) r h = ground (arith, h)
needed_cases run_id now false o r h = ground (arith, h)

-- A report that asks for a rollback is of a failing build inside the window after the merge, and carries the
-- reversal of the patch; any other carries no patch.
pub evaluate_sound :
    (run_id merge_time timeout now : ℕ) (failed : Bool) (patch : List Text) (r : Report)
    → evaluate run_id merge_time failed timeout patch now ≡ some r
    → (r.rollback_needed ≡ (failed && leb now (merge_time + timeout)))
      × ((if r.rollback_needed then generate_revert_patch patch else some []) ≡ some r.revert_patch)
unfolding evaluate auto_rollback_triggered
evaluate_sound run_id merge_time timeout now failed patch r h =
    let b = failed && leb now (merge_time + timeout) in
    let (e, p) = needed_cases run_id now b (generate_revert_patch patch) r h in
    (
      e,
      subst (λ x. (if x then generate_revert_patch patch else some []) ≡ some r.revert_patch)
          (sym e) p,
    )
