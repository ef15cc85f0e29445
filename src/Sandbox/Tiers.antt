-- ===== src/Sandbox/Tiers.antt =====
-- loom/sandbox/tiers.py: the choice of the sandbox for a run.
pub mod Laws
mod Tests
use loom_unified_agentic_cod.Base.{
  ℕ, zero, suc, ◌+◌, ◌-◌, ◌*◌, ◌/◌, ◌%◌, ◌^◌, min, max, ◌≤◌, ◌<◌, ◌≡◌, refl, sym, ap, subst, ◌∙◌,
  ◌≢◌, ◌↔◌, ◌⊎◌, inl, inr, Bool, true, false, not, ◌&&◌, ◌||◌, Option, none, some, List, [], ◌∷◌,
  ◌++◌, map, append-nil, append_assoc, arith, ltb, leb, ◌==◌, if◌then◌else◌, ltb→lt, lt→ltb, leb→le,
  le→leb, ==_iff, tests, if_both, if_cases, Bool-cases, Option-cases, is_some, is_none, contains,
  Distinct, contains-append, Distinct-snoc, length, select, any_of, all_of, sum_of, All,
  length-append, length-select-le, sum_of-append, select-append,
}
use loom_unified_agentic_cod.Business.Models.{OrgTier, solo, team, enterprise, self_hosted}

pub data SandboxTier : Type 0 where
  a_git_worktree b_firecracker_microvm c_firecracker_microvm : SandboxTier

pub data RunClassification : Type 0 where
  quick_fix standard high_risk : RunClassification

-- The fields of `SandboxContext` that the selection reads, and the limits that it writes.
pub record SandboxContext : Type 0 where
  pub org_tier : OrgTier
  pub has_untrusted_native_deps : Bool
  pub classification : RunClassification
  pub requires_dependency_install : Bool
  pub repo_sensitivity_flag : Bool
  pub patch_risk_high : Bool
  pub sandbox_tier : SandboxTier
  pub cpu_cores : ℕ
  pub memory_mb : ℕ
  pub timeout_minutes : ℕ

abbrev pub is_quick_fix : RunClassification → Bool
is_quick_fix quick_fix = true
is_quick_fix _ = false

-- `org_tier in (OrgTier.TEAM, OrgTier.ENTERPRISE)`
abbrev pub is_team_or_enterprise : OrgTier → Bool
is_team_or_enterprise team = true
is_team_or_enterprise enterprise = true
is_team_or_enterprise _ = false

abbrev pub is_enterprise : OrgTier → Bool
is_enterprise enterprise = true
is_enterprise _ = false

pub select_tier : SandboxContext → SandboxTier
select_tier ctx =
    if not ctx.has_untrusted_native_deps && is_quick_fix ctx.classification
    then a_git_worktree
    else if is_team_or_enterprise ctx.org_tier && ctx.requires_dependency_install
    then b_firecracker_microvm
    else if is_enterprise ctx.org_tier && (ctx.repo_sensitivity_flag || ctx.patch_risk_high)
    then c_firecracker_microvm
    else if is_team_or_enterprise ctx.org_tier
    then b_firecracker_microvm
    else a_git_worktree

-- `TIER_RESOURCE_MAP[tier]`: cores, megabytes and minutes.
abbrev pub tier_resource_map : SandboxTier → ℕ × ℕ × ℕ
tier_resource_map a_git_worktree = (1, 2048, 45)
tier_resource_map b_firecracker_microvm = (2, 4096, 45)
tier_resource_map c_firecracker_microvm = (4, 8192, 45)

pub select_with_resources : SandboxContext → SandboxContext
select_with_resources ctx =
    let tier = select_tier ctx in
    let limits = tier_resource_map tier in
    record ctx {
      sandbox_tier = tier;
      cpu_cores = limits.0;
      memory_mb = limits.1;
      timeout_minutes = limits.2;
    }
