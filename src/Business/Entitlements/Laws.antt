-- ===== src/Business/Entitlements/Laws.antt =====
-- Features and quotas.
use loom_unified_agentic_cod.Base.{ℕ, ◌+◌, ◌*◌, ◌≤◌, ◌≡◌, ◌↔◌, ◌⊎◌, true, false, arith}
use loom_unified_agentic_cod.Business.Models.{
  OrgTier, solo, team, enterprise, self_hosted, allow_with_overage_billing, Organization, Quota,
  OrgUsageSnapshot, FeatureKey, tier_feature_matrix,
}
use loom_unified_agentic_cod.Business.Entitlements.{
  any_at_least, pct_at_least, evaluate_for, required_tier_for_feature,
}

abbrev pub tier_rank : OrgTier → ℕ
tier_rank solo = 0
tier_rank team = 1
tier_rank enterprise = 2
tier_rank self_hosted = 2

-- A larger plan has every feature of a smaller one.
pub features_mono :
    (t t' : OrgTier) (f : FeatureKey)
    → tier_rank t ≤ tier_rank t'
    → tier_feature_matrix t f ≡ true
    → tier_feature_matrix t' f ≡ true
features_mono t t' f h e = ground arith

-- The tier that a refusal names is always the self-hosted one: it has every feature and is tried first.
pub required_tier-eq : (f : FeatureKey) → required_tier_for_feature f ≡ self_hosted
unfolding required_tier_for_feature
required_tier-eq f = ground arith

-- No counter of the first snapshot is above that of the second.
abbrev pub UsesLess : OrgUsageSnapshot → OrgUsageSnapshot → Type 0
UsesLess s s' =
    (s.runs_consumed ≤ s'.runs_consumed)
    × (s.tokens_consumed ≤ s'.tokens_consumed)
    × (s.sandbox_ms_consumed ≤ s'.sandbox_ms_consumed)

pct_mono : (u u' q b : ℕ) → u ≤ u' → pct_at_least u q b ≡ true → pct_at_least u' q b ≡ true
pct_mono u u' q b h e = ground arith

mul_mono : (a b q : ℕ) → a ≤ b → a * q ≤ b * q
mul_mono a b q h = grind arith

pct-bound : (u q b b' : ℕ) → b' ≤ b → pct_at_least u q b ≡ true → pct_at_least u q b' ≡ true
pct-bound u q b b' h e = ground (arith, mul_mono b' b q h)

any_mono :
    (q : Quota) (s s' : OrgUsageSnapshot) (b : ℕ)
    → UsesLess s s'
    → any_at_least q s b ≡ true
    → any_at_least q s' b ≡ true
unfolding any_at_least
any_mono q s s' b (r, t, m) e = ground (
  arith,
  pct_mono s.runs_consumed s'.runs_consumed q.runs_per_month b r,
  pct_mono s.tokens_consumed s'.tokens_consumed (q.runs_per_month * q.tokens_per_run) b t,
  pct_mono s.sandbox_ms_consumed s'.sandbox_ms_consumed
      (q.sandbox_minutes_per_run * 60000 * q.runs_per_month) b m,
)

any-bound :
    (q : Quota) (s : OrgUsageSnapshot) (b b' : ℕ)
    → b' ≤ b
    → any_at_least q s b ≡ true
    → any_at_least q s b' ≡ true
unfolding any_at_least
any-bound q s b b' h e = ground (
  arith,
  pct-bound s.runs_consumed q.runs_per_month b b' h,
  pct-bound s.tokens_consumed (q.runs_per_month * q.tokens_per_run) b b' h,
  pct-bound s.sandbox_ms_consumed (q.sandbox_minutes_per_run * 60000 * q.runs_per_month) b b' h,
)

-- Less use never turns an allowed organisation into a refused one: where a snapshot is allowed, every
-- snapshot with no larger counter is.
pub evaluate_mono :
    (org : Organization) (q : Quota) (s s' : OrgUsageSnapshot)
    → UsesLess s s'
    → (evaluate_for org q s').0 ≡ true
    → (evaluate_for org q s).0 ≡ true
unfolding evaluate_for
evaluate_mono org q s s' h e = ground (
  arith,
  any_mono q s s' 8000 h,
  any_mono q s s' 10000 h,
  any_mono q s s' (10000 + org.burst_grace_pct) h,
)

-- An organisation may go on exactly when all its use is below 100 % of the quota, or its policy bills
-- overage and all its use is below the burst limit.
pub evaluate-allowed_iff :
    (org : Organization) (q : Quota) (s : OrgUsageSnapshot)
    → ((evaluate_for org q s).0 ≡ true) ↔ (
        (any_at_least q s 10000 ≡ false)
        ⊎ ((org.hard_stop_policy ≡ allow_with_overage_billing)
            × (any_at_least q s (10000 + org.burst_grace_pct) ≡ false)))
unfolding evaluate_for
evaluate-allowed_iff org q s = (
  λ h. ground (arith, any-bound q s 10000 8000 (omega arith)),
  λ h. ground (
    arith,
    any-bound q s 10000 8000 (omega arith),
    any-bound q s (10000 + org.burst_grace_pct) 10000 (omega arith),
  ),
)
