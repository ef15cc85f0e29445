-- ===== src/Business/Billing/Tests.antt =====
-- The laws of billing at concrete runs and invoices.
use loom_unified_agentic_cod.Base.{ℕ, ◌+◌, ◌*◌, ◌≡◌, false, none, List, [], ◌∷◌}
use loom_unified_agentic_cod.Base.Dict.{lookup}
use loom_unified_agentic_cod.Business.Models.{
  solo, block, Organization, OrgUsageSnapshot, UsageLedgerEntry,
}
use loom_unified_agentic_cod.Business.Billing.{credits_for_ledger_entries}
use loom_unified_agentic_cod.Business.Billing.Credits.{ledger_credits, credits_of, events_of_run}

abbrev line : ℕ → ℕ → UsageLedgerEntry
line run attempt = record {
  dedup_key = 100 * run + attempt;
  org_id = 1;
  run_id = run;
  step_id = 2;
  attempt_number = attempt;
  tokens_in = 300000;
  tokens_out = 20;
  model_id = 0;
  sandbox_tier = 0;
  wall_clock_ms = 1500;
  cost_usd = 0;
}

abbrev entries : List UsageLedgerEntry
entries = line 4 1 ∷ line 5 1 ∷ line 4 2 ∷ []

abbrev acme : Organization
acme = record {
  id = 1;
  tier = solo;
  hard_stop_policy = block;
  auto_merge_threshold = 95;
  burst_grace_pct = 1000;
  overage_run_cap_multiplier = 0;
  last_payment_failed_at = none;
  require_patch_approval = false;
}

abbrev usage : OrgUsageSnapshot
usage = record {
  runs_consumed = 120;
  tokens_consumed = 30000000;
  sandbox_ms_consumed = 0;
  cost_usd_accrued = 2000000;
}

ledger_credits_example :
    lookup 4 (credits_for_ledger_entries entries) ≡ credits_of (events_of_run 4 entries)
ledger_credits_example = ledger_credits 4 entries
