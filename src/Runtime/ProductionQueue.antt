-- ===== src/Runtime/ProductionQueue.antt =====
-- loom/runtime/production_queue.py: a request for a run in production, which becomes a job of the queue. The
-- store of run records, and the clone of a remote repository, are arguments.
pub mod Laws
mod Tests
use loom_unified_agentic_cod.Base.{
  ℕ, zero, suc, ◌+◌, ◌-◌, ◌*◌, ◌/◌, ◌%◌, ◌^◌, min, max, ◌≤◌, ◌<◌, ◌≡◌, refl, sym, ap, subst, ◌∙◌,
  ◌≢◌, ◌↔◌, ◌⊎◌, inl, inr, Bool, true, false, not, ◌&&◌, ◌||◌, Option, none, some, List, [], ◌∷◌,
  ◌++◌, map, append-nil, append_assoc, arith, ltb, leb, ◌==◌, if◌then◌else◌, ltb→lt, lt→ltb, leb→le,
  le→leb, ==_iff, tests, if_both, if_cases, Bool-cases, Option-cases, is_some, is_none, contains,
  Distinct, contains-append, Distinct-snoc, length, select, any_of, all_of, sum_of, All,
  length-append, length-select-le, sum_of-append, select-append,
}
use loom_unified_agentic_cod.Business.Models.{
  FeatureKey, sandbox_tier_b_container, sandbox_tier_c_microvm, OrgTier, Organization,
}
use loom_unified_agentic_cod.Business.Entitlements.{
  EntitlementService, CheckResult, allowed, get_org, check, Reason, evaluate_quota,
}
use loom_unified_agentic_cod.Business.UsageLedger.{UsageLedger, build_snapshot}
use loom_unified_agentic_cod.Runtime.JobQueue.{JobQueue, QueuedJob, Written, enqueue}

-- The tier of the request in upper case, `A` where it is empty.
pub data RequestedTier : Type 0 where
  tier_a tier_b tier_c other_tier : RequestedTier

-- A resolved path is the list of its parts.
abbrev pub RepoPath : Type 0
RepoPath = List ℕ

-- The repository of the request: a remote one, with the path of its clone or none where cloning raises, or
-- a local path, with whether it is a directory.
pub data Repo : Type 0 where
  remote : Option RepoPath → Repo
  local : RepoPath → Bool → Repo

pub record RunRequest : Type 0 where
  pub sandbox_tier : RequestedTier
  pub repo : Repo
  pub run_id : ℕ
  pub job_id : ℕ

-- The status codes of the answers, and what `clone_remote_repo`, `record_run` and `enqueue` raise.
pub data Answer : Type 0 where
  run_queued invalid_tier clone_failed no_directory roots_required outside_roots : Answer
  record_failed enqueue_failed : Answer
  feature_denied : CheckResult → Answer
  quota_refused : Reason → Answer

-- `tier_gated_feature`
abbrev pub gated_feature : RequestedTier → Option FeatureKey
gated_feature tier_b = some sandbox_tier_b_container
gated_feature tier_c = some sandbox_tier_c_microvm
gated_feature _ = none

-- `root == path or root in path.parents`
abbrev pub is_within : RepoPath → RepoPath → Bool
is_within [] path = true
is_within (c ∷ root) [] = false
is_within (c ∷ root) (d ∷ path) = c == d && is_within root path

-- The checks of a local path; `roots` is `ALLOWED_REPO_ROOTS`, none where it is not set.
check_local : Option (List RepoPath) → RepoPath → Bool → Option Answer
check_local roots path is_dir = if not is_dir then some no_directory else elim roots [
  | none ↦ some roots_required
  | some rs ↦ if any_of (λ root. is_within root path) rs then none else some outside_roots
]

-- The path of the run, or the answer that refuses it.
resolve_repo : Option (List RepoPath) → Repo → Answer ⊎ RepoPath
unfolding check_local
resolve_repo roots (remote none) = inl clone_failed
resolve_repo roots (remote (some path)) = inr path
resolve_repo roots (local path is_dir) = elim (check_local roots path is_dir) [
  | some a ↦ inl a
  | none ↦ inr path
]

feature_refusal : EntitlementService → ℕ → Option FeatureKey → Option Answer
feature_refusal es org none = none
feature_refusal es org (some f) = elim (check es org f) [
  | CheckResult.allowed ↦ none
  | CheckResult.org_missing ↦ some (feature_denied CheckResult.org_missing)
  | CheckResult.requires_tier t t' ↦ some (feature_denied (CheckResult.requires_tier t t'))
]

quota_refusal : EntitlementService → ℕ → UsageLedger → Option Answer
quota_refusal es org ledger =
    let (ok, reason) = evaluate_quota es org (build_snapshot org ledger) in
    if ok then none else some (quota_refused reason)

tier_refusal : RequestedTier → Option Answer
tier_refusal other_tier = some invalid_tier
tier_refusal _ = none

-- The record that is written, without the text of the issue.
pub record RunRecord : Type 0 where
  pub run_id : ℕ
  pub org_id : ℕ
  pub repo_id : RepoPath
  pub sandbox_tier : RequestedTier

abbrev pub job_of : RunRequest → QueuedJob
job_of req = record { job_id = req.job_id; run_id = req.run_id; attempts = 0 }

abbrev pub record_of : RunRequest → ℕ → RepoPath → RunRecord
record_of req org path = record {
  run_id = req.run_id;
  org_id = org;
  repo_id = path;
  sandbox_tier = req.sandbox_tier;
}

-- The store of run records, the queue, and what the guards read.
pub record Production (S R : Type 0) : Type 0 where
  pub entitlements : EntitlementService
  pub ledger : UsageLedger
  pub roots : Option (List RepoPath)
  pub records : S
  pub queue : JobQueue R

-- `writes` is what Redis writes of the job.
module _ {S R : Type 0} (record_run : RunRecord → S → Option S) (writes : Written) where
  submit_recorded : RunRequest → Option S → Production S R → Answer × Production S R
  submit_recorded req none p = (record_failed, p)
  submit_recorded req (some s) p =
      let (ok, queue) = enqueue writes (job_of req) p.queue in
      (if ok then run_queued else enqueue_failed, record p { records = s; queue = queue })

  submit : RunRequest → ℕ → Answer ⊎ RepoPath → Production S R → Answer × Production S R
  unfolding submit_recorded
  submit req org (inl a) p = (a, p)
  submit req org (inr path) p =
      submit_recorded req (record_run (record_of req org path) p.records) p

  unless_refused :
      Option Answer → Production S R → Answer × Production S R → Answer × Production S R
  unless_refused none p rest = rest
  unless_refused (some a) p rest = (a, p)

  -- `_production_create_run`
  pub create_run : RunRequest → ℕ → Production S R → Answer × Production S R
  unfolding tier_refusal feature_refusal quota_refusal resolve_repo submit unless_refused
  create_run req org p = unless_refused (tier_refusal req.sandbox_tier) p (
      unless_refused (feature_refusal p.entitlements org (gated_feature req.sandbox_tier)) p (
        unless_refused (quota_refusal p.entitlements org p.ledger) p
          (submit req org (resolve_repo p.roots req.repo) p)))
