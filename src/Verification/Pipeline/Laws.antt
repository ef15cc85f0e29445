-- ===== src/Verification/Pipeline/Laws.antt =====
-- What a verdict for an automatic merge rests on.
use loom_unified_agentic_cod.Base.{
  ℕ, ◌≤◌, ◌≡◌, refl, ap, subst, ◌≢◌, ◌⊎◌, inl, inr, Bool, true, false, not, ◌&&◌, Option, none,
  some, List, [], ◌∷◌, arith, ◌==◌, ==_iff, if_cases, Bool-cases, contains, all_of,
}
use loom_unified_agentic_cod.Verification.Decision.{auto_merge}
use loom_unified_agentic_cod.Verification.Decision.Laws.{evaluate-auto_merge_iff}
use loom_unified_agentic_cod.Verification.Pipeline.{
  VerificationResult, patterns, PipelineRequest, judge, run_optional, run_tests, all_passed,
  run_linted, build_rejected, run_verification, all_pass, evaluate_reproduction,
  full_verification_pipeline,
}
use loom_unified_agentic_cod.Verification.Pipeline.Severity.{no_grave, found-grave}

module _ {W : Type 0} (run_command : ℕ → W → ℕ × W) where
  -- The commands run one after the other and all have the exit code 0.
  abbrev pub Passes : List ℕ → W → W → Type 0
  Passes [] w w' = w ≡ w'
  Passes (c ∷ cs) w w' = ((run_command c w).0 ≡ 0) × Passes cs (run_command c w).1 w'

  -- The commands run until the first that has another exit code, and there is one.
  abbrev pub Fails : List ℕ → W → W → Type 0
  Fails [] w w' = ⊥
  Fails (c ∷ cs) w w' =
      (((run_command c w).0 ≢ 0) × ((run_command c w).1 ≡ w'))
      ⊎ (((run_command c w).0 ≡ 0) × Fails cs (run_command c w).1 w')

  -- The commands run, whatever their exit codes.
  abbrev pub after : List ℕ → W → W
  after [] w = w
  after (c ∷ cs) w = after cs (run_command c w).1

  abbrev pub optional : Option ℕ → List ℕ
  optional none = []
  optional (some c) = c ∷ []

  pub OptionalPasses : Option ℕ → W → Type 0
  OptionalPasses o w =
      (run_optional run_command o w).0 ≡ true
      → Passes (optional o) w (run_optional run_command o w).1

  optional-Passes : (o : Option ℕ) (w : W) → OptionalPasses o w
  unfolding OptionalPasses run_optional
  optional-Passes none w h = refl
  optional-Passes (some c) w h = ((==_iff (run_command c w).0 0).0 h, refl)

  optional-after : (o : Option ℕ) (w : W) → (run_optional run_command o w).1 ≡ after (optional o) w
  unfolding run_optional
  optional-after none w = refl
  optional-after (some c) w = refl

  tests-Passes :
      (cs : List ℕ) (w : W)
      → all_passed run_command (run_tests run_command cs w).0 ≡ true
      → Passes cs w (run_tests run_command cs w).2
  unfolding run_tests
  tests-Passes [] w h = refl
  tests-Passes (c ∷ cs) w h =
      (ground (arith, h), tests-Passes cs (run_command c w).1 (ground (arith, h)))

  all-Passes :
      (cs : List ℕ) (w : W)
      → (all_pass run_command cs w).0 ≡ true
      → Passes cs w (all_pass run_command cs w).1
  unfolding all_pass
  all-Passes [] w h = refl
  all-Passes (c ∷ cs) w h =
      if_cases (λ (r : Bool × W). r.0 ≡ true → Passes (c ∷ cs) w r.1) ((run_command c w).0 == 0) _ _
        (λ e k. ((==_iff (run_command c w).0 0).0 e, all-Passes cs (run_command c w).1 k))
        (λ e k. ground arith) h

  all-Fails :
      (cs : List ℕ) (w : W)
      → (all_pass run_command cs w).0 ≡ false
      → Fails cs w (all_pass run_command cs w).1
  unfolding all_pass
  all-Fails [] w h = ground arith
  all-Fails (c ∷ cs) w h =
      if_cases (λ (r : Bool × W). r.0 ≡ false → Fails (c ∷ cs) w r.1) ((run_command c w).0 == 0) _ _
        (λ e k. inr ((==_iff (run_command c w).0 0).0 e, all-Fails cs (run_command c w).1 k))
        (λ e k. inl (ground (arith, e), refl)) h

  -- A verification that passes its build and its tests: what has run, and in which states.
  abbrev Verified : List ℕ → Option ℕ → Option ℕ → W → VerificationResult × W → Type 0
  Verified cmds build lint w (v, w') =
      v.build_passed ≡ true
      → v.tests_passed ≡ true
      → (w1 : W) × Passes (optional build) w w1 × Passes cmds (after (optional lint) w1) w'

  linted-Passes :
      (cmds : List ℕ) (lint : Option ℕ) (w : W)
      → (run_linted run_command lint cmds w).0.tests_passed ≡ true
      → Passes cmds (after (optional lint) w) (run_linted run_command lint cmds w).1
  unfolding run_linted
  linted-Passes cmds lint w h =
      let w1 = (run_optional run_command lint w).1 in
      subst (λ x. Passes cmds x (run_tests run_command cmds w1).2) (optional-after lint w)
        (tests-Passes cmds w1 h)

  verification-Verified :
      (cmds : List ℕ) (build lint : Option ℕ) (w : W)
      → Verified cmds build lint w (run_verification run_command cmds build lint w)
  unfolding run_verification OptionalPasses
  verification-Verified cmds build lint w =
      let (built, w1) = run_optional run_command build w in
      if_cases (Verified cmds build lint w) built (run_linted run_command lint cmds w1)
        (build_rejected, w1)
        (λ e b t. (w1, optional-Passes build w e, linted-Passes cmds lint w1 t))
        (λ e b t. ground arith)

  -- An automatic merge rests on a confirmed reproduction.
  auto_merge-flip :
      (threshold : ℕ) (req : PipelineRequest) (w : W)
      → (full_verification_pipeline run_command threshold req w).0.decision ≡ auto_merge
      → (full_verification_pipeline run_command threshold req w).1.flip_confirmed ≡ true
  unfolding full_verification_pipeline judge
  auto_merge-flip threshold req w d =
      let r = run_verification run_command req.test_commands req.build_command req.lint_command w in
      let (v, repro, _) = full_verification_pipeline run_command threshold req w in
      ((evaluate-auto_merge_iff threshold r.0.build_passed r.0.tests_passed repro.flip_confirmed
          v.sast_severity v.confidence_score).0
        d).2

  -- Where the verdict is an automatic merge, the commands have run in this order, each in the state that the
  -- one before left: the build, with the exit code 0; the linter; every test, each with 0; the commands that
  -- are meant for the base, up to one that fails; and all those for the patch, each with 0. No pattern of a
  -- high or critical severity is in the diff, and the confidence reaches the threshold, and 0.85.
  pub pipeline-auto_merge :
      (threshold : ℕ) (req : PipelineRequest) (w : W)
      → (full_verification_pipeline run_command threshold req w).0.decision ≡ auto_merge
      → let (v, repro, w') = full_verification_pipeline run_command threshold req w in
        ((w1 : W) × (w2 : W) × (w3 : W) × Passes (optional req.build_command) w w1
          × Passes req.test_commands (after (optional req.lint_command) w1) w2
          × Fails req.pre_patch_test_commands w2 w3
          × Passes req.post_patch_test_commands w3 w')
        × (no_grave patterns req.diff_text ≡ true)
        × (threshold ≤ v.confidence_score)
        × (8500 ≤ v.confidence_score)
  unfolding full_verification_pipeline judge evaluate_reproduction
  pipeline-auto_merge threshold req w d =
      let r = run_verification run_command req.test_commands req.build_command req.lint_command w in
      let (v, repro, _) = full_verification_pipeline run_command threshold req w in
      let (g, b, f, t, c, c') =
        (evaluate-auto_merge_iff threshold r.0.build_passed r.0.tests_passed repro.flip_confirmed
            v.sast_severity v.confidence_score).0
          d in
      let (w1, built, tested) =
        verification-Verified req.test_commands req.build_command req.lint_command w b t in
      let pre = req.pre_patch_test_commands in
      let w3 = (all_pass run_command pre r.1).1 in
      (
        (
          w1,
          r.1,
          w3,
          built,
          tested,
          all-Fails pre r.1 (ground (arith, f)),
          all-Passes req.post_patch_test_commands w3 (ground (arith, f)),
        ),
        found-grave req.diff_text g,
        c,
        c',
      )

  pass-codes :
      (code : ℕ → ℕ) (cmds : List ℕ) (w : W)
      → ((c : ℕ) (w' : W) → (run_command c w').0 ≡ code c)
      → (all_pass run_command cmds w).0 ≡ all_of (λ c. code c == 0) cmds
  unfolding all_pass
  pass-codes code [] w k = refl
  pass-codes code (c ∷ cs) w k = ground (arith, k c w, pass-codes code cs (run_command c w).1 k)

  contained-pass :
      (p : ℕ → Bool) (c : ℕ) (cs : List ℕ) → contains c cs ≡ true → all_of p cs ≡ true → p c ≡ true
  contained-pass p c [] h a = ground arith
  contained-pass p c (d ∷ cs) h a = elim (Bool-cases (c == d)) [
    | inl e ↦ ground (arith, ap p ((==_iff c d).0 e), a)
    | inr e ↦ contained-pass p c cs (ground (arith, h, e)) (ground (arith, a))
  ]

  all-contained :
      (p : ℕ → Bool) (pre post : List ℕ)
      → all_of (λ c. contains c post) pre ≡ true
      → all_of p post ≡ true
      → all_of p pre ≡ true
  all-contained p [] post h a = refl
  all-contained p (c ∷ pre) post h a = ground (
    arith,
    contained-pass p c post (ground (arith, h)) a,
    all-contained p pre post (ground (arith, h)) a,
  )

  -- The commands for the base run in the same sandbox as those for the patch, so where a command's exit code
  -- does not depend on what ran before, and each command of the first list is in the second, no reproduction
  -- is confirmed and no request merges by itself.
  pub same_commands_hold :
      (code : ℕ → ℕ) (threshold : ℕ) (req : PipelineRequest) (w : W)
      → ((c : ℕ) (w' : W) → (run_command c w').0 ≡ code c)
      → all_of (λ c. contains c req.post_patch_test_commands) req.pre_patch_test_commands ≡ true
      → let (v, repro, w') = full_verification_pipeline run_command threshold req w in
        (repro.flip_confirmed ≡ false) × (v.decision ≢ auto_merge)
  unfolding full_verification_pipeline evaluate_reproduction
  same_commands_hold code threshold req w k h =
      let w1 =
        (run_verification run_command req.test_commands req.build_command req.lint_command w).1 in
      let pre = req.pre_patch_test_commands in
      let post = req.post_patch_test_commands in
      let a = pass-codes code pre w1 k in
      let b = pass-codes code post (all_pass run_command pre w1).1 k in
      let p = λ (c : ℕ). code c == 0 in
      let no : (not (all_pass run_command pre w1).0
            && (all_pass run_command post (all_pass run_command pre w1).1).0)
          ≡ false =
        elim (Bool-cases (all_of p post)) [
          | inl e ↦ ground (arith, a, all-contained p pre post h e)
          | inr e ↦ ground (arith, b, e)
        ] in
      (no, λ d. ground (arith, auto_merge-flip threshold req w d, no))
