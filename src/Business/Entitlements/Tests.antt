-- ===== src/Business/Entitlements/Tests.antt =====
-- The laws of plans, quotas and memberships at concrete organisations.
use loom_unified_agentic_cod.Base.{ℕ, ◌≡◌, refl, true, false, none, [], ◌∷◌, arith}
use loom_unified_agentic_cod.Business.Models.{
  team, allow_with_overage_billing, reviewer, Organization, Membership, OrgUsageSnapshot,
  tier_quota_map,
}
use loom_unified_agentic_cod.Business.Entitlements.{EntitlementService, evaluate_for, any_at_least}
use loom_unified_agentic_cod.Business.Entitlements.Laws.{UsesLess}

abbrev acme : Organization
acme = record {
  id = 1;
  tier = team;
  hard_stop_policy = allow_with_overage_billing;
  auto_merge_threshold = 95;
  burst_grace_pct = 1000;
  overage_run_cap_multiplier = 200;
  last_payment_failed_at = none;
  require_patch_approval = false;
}

abbrev usage : ℕ → OrgUsageSnapshot
usage runs = record {
  runs_consumed = runs;
  tokens_consumed = 1000;
  sandbox_ms_consumed = 60000;
  cost_usd_accrued = 0;
}

abbrev nobody_yet : EntitlementService
nobody_yet = record { orgs = (1, acme) ∷ []; memberships = [] }

abbrev carol : Membership
carol = record { user_id = 7; org_id = 1; role = reviewer }

within_grace : (evaluate_for acme (tier_quota_map team) (usage 520)).0 ≡ true
unfolding evaluate_for any_at_least
within_grace = refl

exhausted : (evaluate_for acme (tier_quota_map team) (usage 550)).0 ≡ false
unfolding evaluate_for any_at_least
exhausted = refl

fewer : UsesLess (usage 510) (usage 520)
fewer = (omega arith, omega arith, omega arith)
