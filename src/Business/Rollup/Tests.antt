-- ===== src/Business/Rollup/Tests.antt =====
-- Two organisations, one of them just below the soft threshold.
use loom_unified_agentic_cod.Base.{◌≡◌, refl, some, List, [], ◌∷◌}
use loom_unified_agentic_cod.Business.Rollup.{
  soft_warn, quota_exceeded, emit_crossings, Usage, run_once, roll_pct, previous,
}
use loom_unified_agentic_cod.Business.Rollup.Laws.{run_once-replay}

abbrev month : List Usage
month = record { org_id = 1; pct = some 1200000 } ∷ record { org_id = 2; pct = some 799960 } ∷ []

first_run : (run_once month []).0 ≡ (1, soft_warn) ∷ (1, quota_exceeded) ∷ []
unfolding run_once roll_pct previous emit_crossings
first_run = refl

run_once-replay_example : (run_once month (run_once month []).1).0 ≡ []
run_once-replay_example = run_once-replay month [] (refl, (refl, tt))
