-- ===== src/Sandbox/Tiers/Laws.antt =====
-- Which isolation a run gets, and that its plan includes it.
use loom_unified_agentic_cod.Base.{◌≡◌, refl, ◌↔◌, ◌⊎◌, true, false, arith}
use loom_unified_agentic_cod.Business.Models.{
  OrgTier, solo, team, enterprise, self_hosted, tier_feature_matrix, sandbox_tier_b_container,
  sandbox_tier_c_microvm,
}
use loom_unified_agentic_cod.Sandbox.Tiers.{
  SandboxTier, a_git_worktree, b_firecracker_microvm, c_firecracker_microvm, SandboxContext,
  quick_fix, is_team_or_enterprise, is_enterprise, select_tier,
}

-- The plan has the feature that stands for the tier; the worktree needs none.
abbrev pub Entitled : OrgTier → SandboxTier → Type 0
Entitled t a_git_worktree = Unit {0}
Entitled t b_firecracker_microvm = tier_feature_matrix t sandbox_tier_b_container ≡ true
Entitled t c_firecracker_microvm = tier_feature_matrix t sandbox_tier_c_microvm ≡ true

b-Entitled : (t : OrgTier) → is_team_or_enterprise t ≡ true → Entitled t b_firecracker_microvm
b-Entitled solo e = ground arith
b-Entitled team e = refl
b-Entitled enterprise e = refl
b-Entitled self_hosted e = ground arith

c-Entitled : (t : OrgTier) → is_enterprise t ≡ true → Entitled t c_firecracker_microvm
c-Entitled solo e = ground arith
c-Entitled team e = ground arith
c-Entitled enterprise e = refl
c-Entitled self_hosted e = ground arith

-- The tier that is selected is one that the organisation's plan includes.
pub select-Entitled : (ctx : SandboxContext) → Entitled ctx.org_tier (select_tier ctx)
unfolding select_tier
select-Entitled ctx = ground (arith, b-Entitled ctx.org_tier, c-Entitled ctx.org_tier)

-- A run is left in a worktree of the host exactly when the plan is neither `TEAM` nor `ENTERPRISE`, or the
-- run is a quick fix without untrusted native dependencies.
pub select-worktree_iff :
    (ctx : SandboxContext)
    → (select_tier ctx ≡ a_git_worktree) ↔ (
        (is_team_or_enterprise ctx.org_tier ≡ false)
        ⊎ ((ctx.classification ≡ quick_fix) × (ctx.has_untrusted_native_deps ≡ false)))
unfolding select_tier
select-worktree_iff ctx = (λ h. ground arith, λ h. ground arith)
