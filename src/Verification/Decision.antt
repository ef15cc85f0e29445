-- ===== src/Verification/Decision.antt =====
-- `compute_confidence` and `evaluate_decision` of loom/verification/runner.py. A score between 0 and 1 is a
-- whole number of hundredths, and one below 0 is 0, as the code makes it; the confidence and the threshold
-- are ten-thousandths. The floating point sum is exact here.
pub mod Laws
mod Tests
use loom_unified_agentic_cod.Base.{
  ℕ, zero, suc, ◌+◌, ◌-◌, ◌*◌, ◌/◌, ◌%◌, ◌^◌, min, max, ◌≤◌, ◌<◌, ◌≡◌, refl, sym, ap, subst, ◌∙◌,
  ◌≢◌, ◌↔◌, ◌⊎◌, inl, inr, Bool, true, false, not, ◌&&◌, ◌||◌, Option, none, some, List, [], ◌∷◌,
  ◌++◌, map, append-nil, append_assoc, arith, ltb, leb, ◌==◌, if◌then◌else◌, ltb→lt, lt→ltb, leb→le,
  le→leb, ==_iff, tests, if_both, if_cases, Bool-cases, Option-cases, is_some, is_none, contains,
  Distinct, contains-append, Distinct-snoc, length, select, any_of, all_of, sum_of, All,
  length-append, length-select-le, sum_of-append, select-append,
}

pub data SastSeverity : Type 0 where
  clean low medium high critical : SastSeverity

pub data VerificationDecision : Type 0 where
  auto_merge human_review reject_repro_missing reject_regression : VerificationDecision
  reject_build_failure security_hold : VerificationDecision

abbrev pub auto_merge_threshold_min : ℕ
auto_merge_threshold_min = 8500

-- `self.auto_merge_threshold`
abbrev pub threshold_of : ℕ → ℕ
threshold_of t = max t auto_merge_threshold_min

pub diff_score : ℕ → ℕ
diff_score n =
    if n == 0
    then 50
    else if leb n 20
    then 100
    else if leb n 50
    then 80
    else if leb n 100
    then 60
    else if leb n 150
    then 40
    else 20

unfoldable pub compute_confidence : Bool → ℕ → ℕ → ℕ → ℕ
unfolding diff_score
compute_confidence repro_flip_confirmed diff_line_count historical certainty =
    40 * (if repro_flip_confirmed then 100 else 0)
    + 30 * diff_score diff_line_count
    + 20 * min 100 historical
    + 10 * min 100 certainty

abbrev pub is_grave : SastSeverity → Bool
is_grave high = true
is_grave critical = true
is_grave _ = false

unfoldable pub evaluate_decision : ℕ → Bool → Bool → Bool → SastSeverity → ℕ → VerificationDecision
evaluate_decision threshold build_passed tests_passed repro_flip_confirmed severity confidence =
    if is_grave severity
    then security_hold
    else if not build_passed
    then reject_build_failure
    else if not repro_flip_confirmed
    then reject_repro_missing
    else if not tests_passed
    then reject_regression
    else if leb (threshold_of threshold) confidence
    then auto_merge
    else human_review
