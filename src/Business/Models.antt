-- ===== src/Business/Models.antt =====
-- loom/business/models.py: the enums, the plan tables and the records of the business layer.
-- Identifiers (organisations, users, runs, steps) are only compared, so they are numbers. Amounts in
-- dollars are whole millionths, percentages whole hundredths of a percent, multipliers hundredths.
use loom_unified_agentic_cod.Base.{ℕ, Bool, true, false, Option}

pub data OrgTier : Type 0 where
  solo team enterprise self_hosted : OrgTier

pub data HardStopPolicy : Type 0 where
  block allow_with_overage_billing require_admin_approval : HardStopPolicy

pub data MembershipRole : Type 0 where
  owner admin developer reviewer billing_admin auditor : MembershipRole

-- The fields that the modelled code reads.
pub record Organization : Type 0 where
  pub id : ℕ
  pub tier : OrgTier
  pub hard_stop_policy : HardStopPolicy
  pub auto_merge_threshold : ℕ
  pub burst_grace_pct : ℕ
  pub overage_run_cap_multiplier : ℕ
  pub last_payment_failed_at : Option ℕ
  pub require_patch_approval : Bool

pub record Membership : Type 0 where
  pub user_id : ℕ
  pub org_id : ℕ
  pub role : MembershipRole

pub record Quota : Type 0 where
  pub runs_per_month : ℕ
  pub tokens_per_run : ℕ
  pub sandbox_minutes_per_run : ℕ
  pub repos_connected : ℕ
  pub seats : ℕ

pub record OrgUsageSnapshot : Type 0 where
  pub runs_consumed : ℕ
  pub tokens_consumed : ℕ
  pub sandbox_ms_consumed : ℕ
  pub cost_usd_accrued : ℕ

pub data FeatureKey : Type 0 where
  sandbox_tier_b_container sandbox_tier_c_microvm memory_team_sync : FeatureKey
  router_consensus_verification governance_sso_scim governance_soc2_audit_export : FeatureKey
  integrations_ci_bot integrations_ide_plugins : FeatureKey

-- `TIER_FEATURE_MATRIX[tier][feature]`
abbrev pub tier_feature_matrix : OrgTier → FeatureKey → Bool
tier_feature_matrix solo sandbox_tier_b_container = false
tier_feature_matrix solo sandbox_tier_c_microvm = false
tier_feature_matrix solo memory_team_sync = false
tier_feature_matrix solo router_consensus_verification = false
tier_feature_matrix solo governance_sso_scim = false
tier_feature_matrix solo governance_soc2_audit_export = false
tier_feature_matrix solo integrations_ci_bot = false
tier_feature_matrix solo integrations_ide_plugins = true
tier_feature_matrix team sandbox_tier_b_container = true
tier_feature_matrix team sandbox_tier_c_microvm = false
tier_feature_matrix team memory_team_sync = true
tier_feature_matrix team router_consensus_verification = false
tier_feature_matrix team governance_sso_scim = false
tier_feature_matrix team governance_soc2_audit_export = false
tier_feature_matrix team integrations_ci_bot = true
tier_feature_matrix team integrations_ide_plugins = true
tier_feature_matrix enterprise _ = true
tier_feature_matrix self_hosted _ = true

-- `TIER_QUOTA_MAP[tier]`, with the defaults of `Quota`.
abbrev pub tier_quota_map : OrgTier → Quota
tier_quota_map solo = record {
  runs_per_month = 50;
  tokens_per_run = 400000;
  sandbox_minutes_per_run = 45;
  repos_connected = 1;
  seats = 1;
}
tier_quota_map team = record {
  runs_per_month = 500;
  tokens_per_run = 400000;
  sandbox_minutes_per_run = 45;
  repos_connected = 20;
  seats = 15;
}
tier_quota_map enterprise = record {
  runs_per_month = 10000;
  tokens_per_run = 400000;
  sandbox_minutes_per_run = 45;
  repos_connected = 100;
  seats = 500;
}
tier_quota_map self_hosted = record {
  runs_per_month = 10000;
  tokens_per_run = 400000;
  sandbox_minutes_per_run = 45;
  repos_connected = 100;
  seats = 500;
}

pub record UsageEvent : Type 0 where
  pub run_id : ℕ
  pub org_id : ℕ
  pub step_id : ℕ
  pub attempt_number : ℕ
  pub tokens_in : ℕ
  pub tokens_out : ℕ
  pub model_id : ℕ
  pub sandbox_tier : ℕ
  pub wall_clock_ms : ℕ
  pub cost_usd : ℕ
  pub input_context_hash : ℕ

pub record UsageLedgerEntry : Type 0 where
  pub dedup_key : ℕ
  pub org_id : ℕ
  pub run_id : ℕ
  pub step_id : ℕ
  pub attempt_number : ℕ
  pub tokens_in : ℕ
  pub tokens_out : ℕ
  pub model_id : ℕ
  pub sandbox_tier : ℕ
  pub wall_clock_ms : ℕ
  pub cost_usd : ℕ
