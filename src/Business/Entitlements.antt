-- ===== src/Business/Entitlements.antt =====
-- loom/business/entitlements.py: plan features, quotas and memberships of the organisations.
-- A percentage `used / quota * 100` is compared exactly, by cross-multiplication; bounds are in
-- hundredths of a percent.
pub mod Laws
pub mod Members
mod Tests
use loom_unified_agentic_cod.Base.{
  ℕ, zero, suc, ◌+◌, ◌-◌, ◌*◌, ◌/◌, ◌%◌, ◌^◌, min, max, ◌≤◌, ◌<◌, ◌≡◌, refl, sym, ap, subst, ◌∙◌,
  ◌≢◌, ◌↔◌, ◌⊎◌, inl, inr, Bool, true, false, not, ◌&&◌, ◌||◌, Option, none, some, List, [], ◌∷◌,
  ◌++◌, map, append-nil, append_assoc, arith, ltb, leb, ◌==◌, if◌then◌else◌, ltb→lt, lt→ltb, leb→le,
  le→leb, ==_iff, tests, if_both, if_cases, Bool-cases, Option-cases, is_some, is_none, contains,
  Distinct, contains-append, length, select, any_of, all_of, sum_of, All, length-append,
  length-select-le, sum_of-append, select-append,
}
use loom_unified_agentic_cod.Base.Dict.{Dict, lookup, insert, erase, keys}
use loom_unified_agentic_cod.Business.Models.{
  OrgTier, solo, team, enterprise, self_hosted, HardStopPolicy, block, allow_with_overage_billing,
  require_admin_approval, MembershipRole, developer, Organization, Membership, Quota,
  OrgUsageSnapshot, FeatureKey, tier_feature_matrix, tier_quota_map,
}

pub record EntitlementService : Type 0 where
  pub orgs : Dict Organization
  pub memberships : Dict (Dict Membership)

pub register_org : Organization → EntitlementService → EntitlementService
register_org org s = record s { orgs = insert org.id org s.orgs }

abbrev pub get_org : EntitlementService → ℕ → Option Organization
get_org s org_id = lookup org_id s.orgs

-- `_required_tier_for_feature`: the first of the listed tiers that has the feature.
pub required_tier_for_feature : FeatureKey → OrgTier
required_tier_for_feature f =
    if tier_feature_matrix self_hosted f
    then self_hosted
    else if tier_feature_matrix enterprise f
    then enterprise
    else if tier_feature_matrix team f
    then team
    else if tier_feature_matrix solo f
    then solo
    else enterprise

-- `EntitlementCheckResult`, its reason without the wording.
pub data CheckResult : Type 0 where
  allowed org_missing : CheckResult
  requires_tier : OrgTier → OrgTier → CheckResult

check_tier : OrgTier → FeatureKey → CheckResult
unfolding required_tier_for_feature
check_tier tier f =
    if tier_feature_matrix tier f then allowed else requires_tier (required_tier_for_feature f) tier

pub check : EntitlementService → ℕ → FeatureKey → CheckResult
unfolding check_tier
check s org_id f = elim (get_org s org_id) [ none ↦ org_missing | some org ↦ check_tier org.tier f ]

-- `Quota(org_id=..., runs_per_month=0)`, the quota of an unknown organisation.
abbrev no_quota : Quota
no_quota = record {
  runs_per_month = 0;
  tokens_per_run = 400000;
  sandbox_minutes_per_run = 45;
  repos_connected = 1;
  seats = 1;
}

pub get_quota : EntitlementService → ℕ → Quota
get_quota s org_id = elim (get_org s org_id) [
  | none ↦ no_quota
  | some org ↦ tier_quota_map org.tier
]

-- `(used / quota) * 100 if quota > 0 else 100`, compared with a bound.
abbrev pub pct_at_least : ℕ → ℕ → ℕ → Bool
pct_at_least used quota bound =
    if quota == 0 then leb bound 10000 else leb (bound * quota) (used * 10000)

-- `runs_pct >= p or tokens_pct >= p or sandbox_pct >= p`
pub any_at_least : Quota → OrgUsageSnapshot → ℕ → Bool
any_at_least q s bound =
    pct_at_least s.runs_consumed q.runs_per_month bound
    || pct_at_least s.tokens_consumed (q.runs_per_month * q.tokens_per_run) bound
    || pct_at_least s.sandbox_ms_consumed (q.sandbox_minutes_per_run * 60000 * q.runs_per_month)
        bound

-- The second component of `evaluate_quota`, without its wording.
pub data Reason : Type 0 where
  org_not_found quota_exhausted burst_grace_exhausted within_burst_grace : Reason
  admin_approval_required soft_warning within_quota : Reason

-- The ladder over the policies, where some use is at 100 % or more.
hard_stop : HardStopPolicy → Bool → Bool × Reason
hard_stop block burst = (false, quota_exhausted)
hard_stop allow_with_overage_billing burst =
    if burst then (false, burst_grace_exhausted) else (true, within_burst_grace)
hard_stop require_admin_approval burst = (false, admin_approval_required)

pub evaluate_for : Organization → Quota → OrgUsageSnapshot → Bool × Reason
unfolding hard_stop
evaluate_for org q s =
    if any_at_least q s 8000
    then (if any_at_least q s 10000
        then hard_stop org.hard_stop_policy (any_at_least q s (10000 + org.burst_grace_pct))
        else (true, soft_warning))
    else (true, within_quota)

pub evaluate_quota : EntitlementService → ℕ → OrgUsageSnapshot → Bool × Reason
unfolding evaluate_for
evaluate_quota s org_id snapshot = elim (get_org s org_id) [
  | none ↦ (false, org_not_found)
  | some org ↦ evaluate_for org (get_quota s org_id) snapshot
]

abbrev members_of : ℕ → EntitlementService → Dict Membership
members_of org_id s = elim (lookup org_id s.memberships) [ none ↦ [] | some d ↦ d ]

pub add_membership : Membership → EntitlementService → EntitlementService
add_membership m s =
    let d = insert m.user_id m (members_of m.org_id s) in
    record s { memberships = insert m.org_id d s.memberships }

pub remove_membership : ℕ → ℕ → EntitlementService → EntitlementService
remove_membership org_id user_id s = elim (lookup org_id s.memberships) [
  | none ↦ s
  | some d ↦ record s { memberships = insert org_id (erase user_id d) s.memberships }
]

pub get_membership : EntitlementService → ℕ → ℕ → Option Membership
get_membership s org_id user_id = lookup user_id (members_of org_id s)

-- The role of a user who is no member is `DEVELOPER`.
pub get_role : EntitlementService → ℕ → ℕ → MembershipRole
unfolding get_membership
get_role s org_id user_id = elim (get_membership s org_id user_id) [
  | none ↦ developer
  | some m ↦ m.role
]
