-- ===== src/Verification/Pipeline.antt =====
-- loom/verification/runner.py: builds, tests and the reproduction in a sandbox, the scan of the diff and the
-- verdict over them, in the synchronous and the asynchronous form, which do the same. The sandbox is an
-- argument: a command, by its number, changes its state and has an exit code. Texts are ASCII codes; the
-- outputs of commands are left out.
pub mod Severity
pub mod Laws
mod Tests
use loom_unified_agentic_cod.Base.{
  ℕ, zero, suc, ◌+◌, ◌-◌, ◌*◌, ◌/◌, ◌%◌, ◌^◌, min, max, ◌≤◌, ◌<◌, ◌≡◌, refl, sym, ap, subst, ◌∙◌,
  ◌≢◌, ◌↔◌, ◌⊎◌, inl, inr, Bool, true, false, not, ◌&&◌, ◌||◌, Option, none, some, List, [], ◌∷◌,
  ◌++◌, map, append-nil, append_assoc, arith, ltb, leb, ◌==◌, if◌then◌else◌, ltb→lt, lt→ltb, leb→le,
  le→leb, ==_iff, tests, if_both, if_cases, Bool-cases, Option-cases, is_some, is_none, contains,
  Distinct, contains-append, Distinct-snoc, length, select, any_of, all_of, sum_of, All,
  length-append, length-select-le, sum_of-append, select-append,
}
use loom_unified_agentic_cod.Base.Text.{Text, codes, starts_with, split_at, strip, is_empty}
use loom_unified_agentic_cod.Verification.Decision.{
  SastSeverity, clean, low, medium, high, critical, VerificationDecision, auto_merge, human_review,
  reject_repro_missing, reject_regression, reject_build_failure, security_hold, compute_confidence,
  evaluate_decision,
}

pub record TestResult : Type 0 where
  pub test_command : ℕ
  pub passed : Bool

pub record SastFinding : Type 0 where
  pub rule_id : ℕ
  pub severity : SastSeverity

pub record ReproductionEvidence : Type 0 where
  pub failed_on_base : Bool
  pub passed_after_patch : Bool
  pub flip_confirmed : Bool

pub data FailureReason : Type 0 where
  build_command_failed flip_not_confirmed grave_findings build_failure regression : FailureReason
  test_failed : ℕ → FailureReason

pub record VerificationResult : Type 0 where
  pub build_passed : Bool
  pub tests_passed : Bool
  pub linter_passed : Bool
  pub sast_severity : SastSeverity
  pub repro_flip_confirmed : Bool
  pub overall_success : Bool
  pub test_results : List TestResult
  pub sast_findings : List SastFinding
  pub failure_reason : Option FailureReason
  pub confidence_score : ℕ
  pub decision : VerificationDecision
  pub diff_line_count : ℕ
  pub model_self_reported_certainty : ℕ

-- A result with the defaults of `VerificationResult`.
abbrev outcome :
    Bool
    → Bool
    → Bool
    → List TestResult
    → Option FailureReason
    → VerificationDecision
    → VerificationResult
outcome build tests linter results reason decision = record {
  build_passed = build;
  tests_passed = tests;
  linter_passed = linter;
  sast_severity = clean;
  repro_flip_confirmed = false;
  overall_success = build && tests && linter;
  test_results = results;
  sast_findings = [];
  failure_reason = reason;
  confidence_score = 0;
  decision = decision;
  diff_line_count = 0;
  model_self_reported_certainty = 0;
}

abbrev build_rejected : VerificationResult
build_rejected = outcome false false true [] (some build_command_failed) reject_build_failure

abbrev pub lower : ℕ → ℕ
lower c = if leb b'A' c && leb c b'Z' then c + 32 else c

-- `pattern in text.lower()`
abbrev pub mentions : Text → Text → Bool
mentions pattern [] = is_empty pattern
mentions pattern (c ∷ t) = starts_with pattern (map lower (c ∷ t)) || mentions pattern t

-- `secrets_patterns`
abbrev pub patterns : List (ℕ × Text × SastSeverity)
patterns =
    (1, codes "api_key", critical)
    ∷ (2, codes "password", critical)
    ∷ (3, codes "secret", critical)
    ∷ (4, codes "token", high)
    ∷ (5, codes "eval(", high)
    ∷ (6, codes "exec(", high)
    ∷ (7, codes "subprocess", medium)
    ∷ (8, codes "os.system", medium)
    ∷ (9, codes "shell=true", critical)
    ∷ (10, codes "unsafe", low)
    ∷ []

scan_patterns : List (ℕ × Text × SastSeverity) → Text → List SastFinding
scan_patterns [] diff = []
scan_patterns ((rule, pattern, severity) ∷ ps) diff =
    let rest = scan_patterns ps diff in
    if mentions pattern diff then record { rule_id = rule; severity = severity } ∷ rest else rest

pub run_sast_check : Text → List SastFinding
unfolding scan_patterns
run_sast_check diff = scan_patterns patterns diff

-- One finding, where it is not critical.
abbrev pub worsen : SastSeverity → SastSeverity → SastSeverity
worsen clean high = high
worsen low high = high
worsen medium high = high
worsen clean medium = medium
worsen low medium = medium
worsen clean low = low
worsen s critical = critical
worsen s _ = s

abbrev pub is_critical : SastSeverity → Bool
is_critical critical = true
is_critical _ = false

-- The loop over the findings, which a critical one ends.
pub worst_severity : SastSeverity → List SastFinding → SastSeverity
worst_severity s [] = s
worst_severity s (f ∷ fs) =
    let rest = worst_severity (worsen s f.severity) fs in
    if is_critical f.severity then critical else rest

abbrev lines_of_diff : Text → ℕ
lines_of_diff diff = if is_empty diff then 0 else length (split_at b'\n' (strip diff))

-- The decisions that keep the success.
abbrev pub keeps_success : VerificationDecision → Bool
keeps_success auto_merge = true
keeps_success human_review = true
keeps_success _ = false

abbrev reason_of : VerificationDecision → FailureReason
reason_of reject_repro_missing = flip_not_confirmed
reason_of security_hold = grave_findings
reason_of reject_build_failure = build_failure
reason_of _ = regression

abbrev or_reason : Option FailureReason → FailureReason → Option FailureReason
or_reason none r = some r
or_reason (some r') r = some r'

-- What the commands of a request are, and what the model says of itself.
pub record PipelineRequest : Type 0 where
  pub test_commands : List ℕ
  pub pre_patch_test_commands : List ℕ
  pub post_patch_test_commands : List ℕ
  pub diff_text : Text
  pub build_command : Option ℕ
  pub lint_command : Option ℕ
  pub historical_pattern_match : ℕ
  pub certainty : ℕ

-- The end of the pipeline, over the two results.
pub judge : ℕ → PipelineRequest → VerificationResult → ReproductionEvidence → VerificationResult
unfolding run_sast_check worst_severity
judge threshold req v repro =
    let findings = run_sast_check req.diff_text in
    let severity = worst_severity clean findings in
    let n = lines_of_diff req.diff_text in
    let confidence =
      compute_confidence repro.flip_confirmed n req.historical_pattern_match req.certainty in
    let decision =
      evaluate_decision threshold v.build_passed v.tests_passed repro.flip_confirmed severity
        confidence in
    record v {
      repro_flip_confirmed = repro.flip_confirmed;
      sast_severity = severity;
      sast_findings = findings;
      confidence_score = confidence;
      decision = decision;
      diff_line_count = n;
      model_self_reported_certainty = req.certainty;
      overall_success = v.overall_success && keeps_success decision;
      failure_reason =
          if keeps_success decision
          then v.failure_reason
          else or_reason v.failure_reason (reason_of decision);
    }

module _ {W : Type 0} (run_command : ℕ → W → ℕ × W) where
  -- The optional command passes.
  run_optional : Option ℕ → W → Bool × W
  run_optional none w = (true, w)
  run_optional (some c) w = let (code, w') = run_command c w in (code == 0, w')

  -- The loop over the tests, the first failure kept.
  run_tests : List ℕ → W → List TestResult × Option FailureReason × W
  run_tests [] w = ([], none, w)
  run_tests (c ∷ cs) w =
      let (code, w1) = run_command c w in
      let (results, reason, w2) = run_tests cs w1 in
      (
        record { test_command = c; passed = code == 0 } ∷ results,
        if code == 0 then reason else some (test_failed c),
        w2,
      )

  abbrev pub all_passed : List TestResult → Bool
  all_passed rs = all_of (λ (r : TestResult). r.passed) rs

  run_linted : Option ℕ → List ℕ → W → VerificationResult × W
  unfolding run_optional run_tests
  run_linted lint cmds w =
      let (linter, w1) = run_optional lint w in
      let (results, reason, w2) = run_tests cmds w1 in
      let ok = all_passed results in
      (
        outcome true ok linter results reason
            (if ok && linter then human_review else reject_regression),
        w2,
      )

  pub run_verification : List ℕ → Option ℕ → Option ℕ → W → VerificationResult × W
  unfolding run_optional run_linted
  run_verification cmds build lint w =
      let (built, w1) = run_optional build w in
      if built then run_linted lint cmds w1 else (build_rejected, w1)

  -- Whether all commands pass; the first that fails ends the loop.
  pub all_pass : List ℕ → W → Bool × W
  all_pass [] w = (true, w)
  all_pass (c ∷ cs) w =
      let (code, w1) = run_command c w in
      let rest = all_pass cs w1 in if code == 0 then rest else (false, w1)

  pub evaluate_reproduction : List ℕ → List ℕ → W → ReproductionEvidence × W
  unfolding all_pass
  evaluate_reproduction pre post w =
      let (passed, w1) = all_pass pre w in
      let (after, w2) = all_pass post w1 in
      (
        record {
          failed_on_base = not passed;
          passed_after_patch = after;
          flip_confirmed = not passed && after;
        },
        w2,
      )

  pub full_verification_pipeline :
      ℕ → PipelineRequest → W → VerificationResult × ReproductionEvidence × W
  unfolding run_verification evaluate_reproduction judge
  full_verification_pipeline threshold req w =
      let (v, w1) = run_verification req.test_commands req.build_command req.lint_command w in
      let (repro, w2) =
        evaluate_reproduction req.pre_patch_test_commands req.post_patch_test_commands w1 in
      (judge threshold req v repro, repro, w2)

  -- The asynchronous forms, which the verifier calls: the same statements, with the sandbox awaited.
  abbrev pub arun_verification : List ℕ → Option ℕ → Option ℕ → W → VerificationResult × W
  arun_verification = run_verification

  abbrev pub evaluate_reproduction_async : List ℕ → List ℕ → W → ReproductionEvidence × W
  evaluate_reproduction_async = evaluate_reproduction

  abbrev pub full_verification_pipeline_async :
      ℕ → PipelineRequest → W → VerificationResult × ReproductionEvidence × W
  full_verification_pipeline_async = full_verification_pipeline
