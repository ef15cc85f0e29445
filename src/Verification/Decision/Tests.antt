-- ===== src/Verification/Decision/Tests.antt =====
-- A small patch that merges.
use loom_unified_agentic_cod.Base.{◌≡◌, refl, true}
use loom_unified_agentic_cod.Verification.Decision.{
  clean, auto_merge, diff_score, compute_confidence, evaluate_decision,
}

merges : evaluate_decision 0 true true true clean (compute_confidence true 60 100 100) ≡ auto_merge
unfolding evaluate_decision compute_confidence diff_score
merges = refl
