-- ===== src/Verification/Pipeline/Severity.antt =====
-- The severity that the scan of a diff comes to.
use loom_unified_agentic_cod.Base.{
  ℕ, max, ◌≤◌, ◌<◌, ◌≡◌, refl, Bool, true, false, not, ◌||◌, List, [], ◌∷◌, arith, leb, if_cases,
  all_of,
}
use loom_unified_agentic_cod.Base.Text.{Text}
use loom_unified_agentic_cod.Verification.Decision.{
  SastSeverity, clean, low, medium, high, critical, is_grave,
}
use loom_unified_agentic_cod.Verification.Pipeline.{
  SastFinding, mentions, patterns, scan_patterns, run_sast_check, worsen, is_critical,
  worst_severity,
}

abbrev pub rank : SastSeverity → ℕ
rank clean = 0
rank low = 1
rank medium = 2
rank high = 3
rank critical = 4

abbrev pub max_rank : List SastFinding → ℕ
max_rank [] = 0
max_rank (f ∷ fs) = max (rank f.severity) (max_rank fs)

rank-bound : (s : SastSeverity) → rank s ≤ 4
rank-bound s = ground arith

max_rank-bound : (fs : List SastFinding) → max_rank fs ≤ 4
max_rank-bound [] = omega arith
max_rank-bound (f ∷ fs) = omega (arith, rank-bound f.severity, max_rank-bound fs)

worsen-rank : (s f : SastSeverity) → rank (worsen s f) ≡ max (rank s) (rank f)
worsen-rank s f = ground arith

critical-rank : (s : SastSeverity) → is_critical s ≡ true → rank s ≡ 4
critical-rank s h = ground arith

-- The loop over the findings comes to the gravest severity among them and the one it began with, though it
-- ends at the first critical one.
pub severity-max :
    (s : SastSeverity) (fs : List SastFinding)
    → rank (worst_severity s fs) ≡ max (rank s) (max_rank fs)
unfolding worst_severity
severity-max s [] = ground arith
severity-max s (f ∷ fs) =
    let i = severity-max (worsen s f.severity) fs in
    if_cases (λ x. rank x ≡ max (rank s) (max (rank f.severity) (max_rank fs)))
      (is_critical f.severity) _ _
      (λ e. omega (arith, critical-rank f.severity e, rank-bound s, max_rank-bound fs))
      (λ e. omega (arith, i, worsen-rank s f.severity))

-- A severity is grave from the rank of `high` on.
grave-rank : (s : SastSeverity) → is_grave s ≡ leb 3 (rank s)
grave-rank s = ground arith

-- Every grave pattern is missing from the diff.
abbrev pub no_grave : List (ℕ × Text × SastSeverity) → Text → Bool
no_grave ps diff =
    all_of (λ (p : ℕ × Text × SastSeverity). not (is_grave p.2) || not (mentions p.1 diff)) ps

scan-grave :
    (ps : List (ℕ × Text × SastSeverity)) (diff : Text)
    → max_rank (scan_patterns ps diff) < 3
    → no_grave ps diff ≡ true
unfolding scan_patterns
scan-grave [] diff h = refl
scan-grave ((r, p, s) ∷ ps) diff k =
    if_cases (λ fs. max_rank fs < 3 → no_grave ((r, p, s) ∷ ps) diff ≡ true) (mentions p diff) _ _
      (λ e h. ground (arith, scan-grave ps diff (omega (arith, h)), grave-rank s, h, e))
      (λ e h. ground (arith, scan-grave ps diff h, e)) k

pub found-grave :
    (diff : Text)
    → is_grave (worst_severity clean (run_sast_check diff)) ≡ false
    → no_grave patterns diff ≡ true
unfolding run_sast_check
found-grave diff h =
    let fs = scan_patterns patterns diff in
    scan-grave patterns diff
      (ground (arith, h, grave-rank (worst_severity clean fs), severity-max clean fs))
