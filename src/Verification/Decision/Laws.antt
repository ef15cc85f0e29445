-- ===== src/Verification/Decision/Laws.antt =====
-- What merges by itself.
use loom_unified_agentic_cod.Base.{ℕ, ◌≤◌, ◌<◌, ◌≡◌, ◌↔◌, Bool, true, false, arith, tests}
use loom_unified_agentic_cod.Verification.Decision.{
  SastSeverity, auto_merge, threshold_of, diff_score, compute_confidence, is_grave,
  evaluate_decision,
}

-- A confidence is at most one, and without a confirmed reproduction it is below the least threshold.
pub confidence_bounds :
    (repro : Bool) (lines historical certainty : ℕ)
    → (compute_confidence repro lines historical certainty ≤ 10000)
      × (compute_confidence false lines historical certainty < threshold_of 0)
unfolding compute_confidence diff_score
confidence_bounds repro lines historical certainty = (ground arith, ground arith)

-- A patch merges by itself exactly when no finding is high or critical, build, tests and reproduction have
-- passed, and the confidence reaches the threshold, which is at least 0.85.
pub evaluate-auto_merge_iff :
    (threshold : ℕ) (build tests repro : Bool) (severity : SastSeverity) (confidence : ℕ)
    → (evaluate_decision threshold build tests repro severity confidence ≡ auto_merge) ↔ (
        (is_grave severity ≡ false)
        × (build ≡ true)
        × (repro ≡ true)
        × (tests ≡ true)
        × (threshold ≤ confidence)
        × (8500 ≤ confidence))
unfolding evaluate_decision
evaluate-auto_merge_iff threshold build tests repro severity confidence =
    (λ h. ground arith, λ h. ground arith)

large :
    (repro : Bool) (lines historical certainty : ℕ)
    → 8500 ≤ compute_confidence repro lines historical certainty
    → lines ≤ 100
unfolding compute_confidence diff_score
large repro lines historical certainty h = ground arith

-- Under the confidence that the runner computes, a patch that merges by itself has at most 100 lines.
pub auto_merge-small :
    (threshold : ℕ) (build tests repro : Bool) (severity : SastSeverity)
    (lines historical certainty : ℕ)
    → evaluate_decision threshold build tests repro severity
        (compute_confidence repro lines historical certainty)
      ≡ auto_merge
    → lines ≤ 100
auto_merge-small threshold build tests repro severity lines historical certainty h =
    large repro lines historical certainty
      (((evaluate-auto_merge_iff threshold build tests repro severity _).0 h).5)
