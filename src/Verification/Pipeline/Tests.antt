-- ===== src/Verification/Pipeline/Tests.antt =====
-- The pipeline in a sandbox where command 9 fails and every other passes.
use loom_unified_agentic_cod.Base.{
  ℕ, suc, ◌≤◌, ◌≡◌, refl, ◌≢◌, true, false, none, some, List, [], ◌∷◌, ◌==◌, if◌then◌else◌,
}
use loom_unified_agentic_cod.Base.Text.{codes}
use loom_unified_agentic_cod.Verification.Decision.{
  clean, high, auto_merge, compute_confidence, evaluate_decision,
}
use loom_unified_agentic_cod.Verification.Pipeline.{
  patterns, run_sast_check, worst_severity, PipelineRequest, full_verification_pipeline,
}
use loom_unified_agentic_cod.Verification.Pipeline.Severity.{no_grave}
use loom_unified_agentic_cod.Verification.Pipeline.Laws.{
  Passes, Fails, pipeline-auto_merge, same_commands_hold,
}

abbrev exit_code : ℕ → ℕ
exit_code c = if c == 9 then 1 else 0

-- The sandbox counts the commands.
abbrev run_command : ℕ → ℕ → ℕ × ℕ
run_command c w = (exit_code c, suc w)

abbrev request : List ℕ → PipelineRequest
request pre = record {
  test_commands = 1 ∷ 2 ∷ [];
  pre_patch_test_commands = pre;
  post_patch_test_commands = 1 ∷ [];
  diff_text = codes "+x = 1\n";
  build_command = some 3;
  lint_command = none;
  historical_pattern_match = 100;
  certainty = 100;
}

merges : (full_verification_pipeline run_command 9500 (request (9 ∷ [])) 0).0.decision ≡ auto_merge
unfolding full_verification_pipeline compute_confidence evaluate_decision
merges = refl

scanned : worst_severity clean (run_sast_check (codes "+eval(x) # unsafe")) ≡ high
unfolding worst_severity run_sast_check
scanned = refl

pipeline-auto_merge_example :
    let (v, repro, w') = full_verification_pipeline run_command 9500 (request (9 ∷ [])) 0 in
    ((w1 : ℕ) × (w2 : ℕ) × (w3 : ℕ) × Passes run_command (3 ∷ []) 0 w1
      × Passes run_command (1 ∷ 2 ∷ []) w1 w2
      × Fails run_command (9 ∷ []) w2 w3
      × Passes run_command (1 ∷ []) w3 w')
    × (no_grave patterns (codes "+x = 1\n") ≡ true)
    × (9500 ≤ v.confidence_score)
    × (8500 ≤ v.confidence_score)
pipeline-auto_merge_example = pipeline-auto_merge run_command 9500 (request (9 ∷ [])) 0 merges

same_commands_hold_example :
    let (v, repro, w') = full_verification_pipeline run_command 9500 (request (1 ∷ [])) 0 in
    (repro.flip_confirmed ≡ false) × (v.decision ≢ auto_merge)
same_commands_hold_example =
    same_commands_hold run_command exit_code 9500 (request (1 ∷ [])) 0 (λ c w. refl) refl
