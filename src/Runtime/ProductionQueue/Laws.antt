-- ===== src/Runtime/ProductionQueue/Laws.antt =====
-- A run is queued only behind every guard.
use loom_unified_agentic_cod.Base.{
  ℕ, ◌≡◌, ◌≢◌, ◌⊎◌, inl, inr, Bool, true, false, not, Option, none, some, List, [], ◌∷◌, ◌++◌,
  any_of,
}
use loom_unified_agentic_cod.Business.Models.{FeatureKey}
use loom_unified_agentic_cod.Business.Entitlements.{
  EntitlementService, CheckResult, check, evaluate_quota,
}
use loom_unified_agentic_cod.Business.UsageLedger.{UsageLedger, build_snapshot}
use loom_unified_agentic_cod.Runtime.JobQueue.{JobHash, JobStatus, Written, all_written}
use loom_unified_agentic_cod.Base.Dict.{lookup}
use loom_unified_agentic_cod.Runtime.ProductionQueue.{
  RepoPath, Repo, remote, local, RunRequest, Answer, run_queued, enqueue_failed, gated_feature,
  is_within, RunRecord, Production, job_of, record_of,
}

abbrev pub is_queued : Answer → Bool
is_queued run_queued = true
is_queued _ = false

abbrev is_refusal : Option Answer → Bool
is_refusal none = true
is_refusal (some a) = not (is_queued a)

abbrev pub is_allowed : CheckResult → Bool
is_allowed CheckResult.allowed = true
is_allowed _ = false

-- The plan of the organisation has the feature of the tier, if it has one.
abbrev pub feature_allowed : EntitlementService → ℕ → Option FeatureKey → Bool
feature_allowed es org none = true
feature_allowed es org (some f) = is_allowed (check es org f)

abbrev pub inside_roots : Option (List RepoPath) → RepoPath → Bool
inside_roots none path = false
inside_roots (some rs) path = any_of (λ root. is_within root path) rs

-- The path is that of the clone, or a directory inside the allowed roots.
abbrev pub RepoAllowed : Option (List RepoPath) → Repo → RepoPath → Type 0
RepoAllowed roots (remote clone) path = clone ≡ some path
RepoAllowed roots (local p is_dir) path =
    (p ≡ path) × (is_dir ≡ true) × (inside_roots roots path ≡ true)

abbrev RepoOutcome : Option (List RepoPath) → Repo → Answer ⊎ RepoPath → Type 0
RepoOutcome roots repo (inl a) = is_queued a ≡ false
RepoOutcome roots repo (inr path) = RepoAllowed roots repo path

abbrev pub is_queued_hash : Option JobHash → Bool
is_queued_hash none = false
is_queued_hash (some h) = elim h.status [
  | JobStatus.queued ↦ true
  | JobStatus.running ↦ false
  | JobStatus.succeeded ↦ false
  | JobStatus.retrying ↦ false
  | JobStatus.dead_letter ↦ false
]

module _ {S R : Type 0} (record_run : RunRecord → S → Option S) (writes : Written) where
  -- Every guard was passed and the record is written.
  abbrev pub Accepted : RunRequest → ℕ → Production S R → Production S R → Type 0
  Accepted req org p p' =
      (feature_allowed p.entitlements org (gated_feature req.sandbox_tier) ≡ true)
      × ((evaluate_quota p.entitlements org (build_snapshot org p.ledger)).0 ≡ true)
      × ((path : RepoPath) × RepoAllowed p.roots req.repo path
          × (record_run (record_of req org path) p.records ≡ some p'.records))

  -- The run is queued: its job is the new last message of the stream, and its hash says so.
  abbrev pub Queued : RunRequest → ℕ → Production S R → Answer × Production S R → Type 0
  Queued req org p (a, p') =
      (a ≡ run_queued)
      × Accepted req org p p'
      × (p'.queue.stream ≡ p.queue.stream ++ job_of req ∷ [])
      × (is_queued_hash (lookup req.job_id p'.queue.hashes) ≡ true)

  -- Redis fails once the record is written: the stream has the job as its last message, or is as it was.
  abbrev pub Failed : RunRequest → ℕ → Production S R → Answer × Production S R → Type 0
  Failed req org p (a, p') =
      (a ≡ enqueue_failed)
      × (writes ≢ all_written)
      × Accepted req org p p'
      × ((p'.queue.stream ≡ p.queue.stream) ⊎ (p'.queue.stream ≡ p.queue.stream ++ job_of req ∷ []))

  abbrev pub Behind : RunRequest → ℕ → Production S R → Answer × Production S R → Type 0
  Behind req org p r = Failed req org p r ⊎ Queued req org p r

  -- The request is refused, and nothing is written.
  abbrev pub Refused : Production S R → Answer × Production S R → Type 0
  Refused p (a, p') = (is_queued a ≡ false) × (p' ≡ p)
