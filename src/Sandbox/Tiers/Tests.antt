-- ===== src/Sandbox/Tiers/Tests.antt =====
-- A risky run of an enterprise.
use loom_unified_agentic_cod.Base.{◌≡◌, refl, true, false}
use loom_unified_agentic_cod.Business.Models.{enterprise}
use loom_unified_agentic_cod.Sandbox.Tiers.{
  SandboxContext, standard, a_git_worktree, c_firecracker_microvm, select_tier,
}

abbrev risky : SandboxContext
risky = record {
  org_tier = enterprise;
  has_untrusted_native_deps = false;
  classification = standard;
  requires_dependency_install = false;
  repo_sensitivity_flag = false;
  patch_risk_high = true;
  sandbox_tier = a_git_worktree;
  cpu_cores = 1;
  memory_mb = 2048;
  timeout_minutes = 45;
}

risky_tier : select_tier risky ≡ c_firecracker_microvm
unfolding select_tier
risky_tier = refl
