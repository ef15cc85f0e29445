-- ===== src/Orchestrator/Merge.antt =====
-- `compute_merge_decision` of loom/orchestrator/task_graph.py, and the decisions that
-- loom/verification/runner.py hands to it. Scores and thresholds are only compared; they are whole
-- numbers of one scale.
pub mod Laws
mod Tests
use loom_unified_agentic_cod.Base.{
  ℕ, zero, suc, ◌+◌, ◌-◌, ◌*◌, ◌/◌, ◌%◌, ◌≤◌, ◌<◌, ◌≡◌, refl, sym, ap, subst, ◌∙◌, ◌≢◌, ◌↔◌, ◌⊎◌,
  inl, inr, Bool, true, false, not, ◌&&◌, ◌||◌, Option, none, some, List, [], ◌∷◌, ◌++◌, map,
  append-nil, append_assoc, arith, ltb, leb, ◌==◌, if◌then◌else◌, ltb→lt, lt→ltb, leb→le, le→leb,
  ==_iff, tests, Bool-cases, Option-cases, is_some, is_none, contains, Distinct, contains-append,
  length, select, any_of, all_of, sum_of, All, length-append, length-select-le, sum_of-append,
  select-append,
}

-- The value of `verification_decision`: those of `VerificationDecision`, the default that the function
-- itself puts in, and any other string, with or without the prefix "reject_".
pub data Decision : Type 0 where
  auto_merge human_review security_hold : Decision
  reject_repro_missing reject_regression reject_build_failure reject_unverified : Decision
  reject_other unlisted : Decision

pub data Actor : Type 0 where
  agent human nobody : Actor

pub record MergeDecision : Type 0 where
  pub confidence_score : ℕ
  pub auto_merge_threshold : ℕ
  pub verification_decision : Decision
  pub security_hold : Bool
  pub conflict_detected : Bool
  pub auto_merge : Bool
  pub needs_human_review : Bool
  pub actor : Actor

abbrev pub is_security_hold : Decision → Bool
is_security_hold Decision.security_hold = true
is_security_hold _ = false

abbrev pub is_auto_merge : Decision → Bool
is_auto_merge Decision.auto_merge = true
is_auto_merge _ = false

-- `.startswith("reject_")`
abbrev pub is_rejected : Decision → Bool
is_rejected reject_repro_missing = true
is_rejected reject_regression = true
is_rejected reject_build_failure = true
is_rejected reject_unverified = true
is_rejected reject_other = true
is_rejected _ = false

abbrev pub effective_decision : Option Decision → Bool → Decision
effective_decision none passed = if passed then Decision.auto_merge else reject_unverified
effective_decision (some d) passed = d

-- `auto_merge`, `needs_human_review` and `actor`.
abbrev Verdict : Type 0
Verdict = Bool × Bool × Actor

abbrev verdict : Bool → Decision → Bool → Bool → Verdict
verdict passed d conflict confident =
    if not passed
    then (false, false, nobody)
    else if is_security_hold d
    then (false, true, human)
    else if is_rejected d
    then (false, false, nobody)
    else if conflict
    then (false, true, human)
    else if is_auto_merge d && confident
    then (true, false, agent)
    else (false, true, human)

unfoldable pub compute_merge_decision : Bool → ℕ → ℕ → Option Decision → Bool → MergeDecision
compute_merge_decision passed confidence threshold decision conflict =
    let d = effective_decision decision passed in
    let v = verdict passed d conflict (leb threshold confidence) in
    record {
      confidence_score = confidence;
      auto_merge_threshold = threshold;
      verification_decision = d;
      security_hold = is_security_hold d;
      conflict_detected = conflict;
      auto_merge = v.0;
      needs_human_review = v.1;
      actor = v.2;
    }
