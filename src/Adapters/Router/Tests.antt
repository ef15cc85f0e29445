-- ===== src/Adapters/Router/Tests.antt =====
-- The laws of the router at a concrete one.
use loom_unified_agentic_cod.Base.{
  ℕ, ◌-◌, ◌/◌, ◌≤◌, ◌<◌, ◌≡◌, refl, ◌⊎◌, Bool, true, false, [], ◌∷◌, ◌==◌, if◌then◌else◌, contains,
  All,
}
use loom_unified_agentic_cod.Base.Dict.{lookup}
use loom_unified_agentic_cod.Adapters.Router.{
  TaskType, patching, success, failure, ModelRouter, is_provider_unhealthy, exhausted, score_model,
  candidates, select_model,
}
use loom_unified_agentic_cod.Adapters.Router.Laws.{select_model-best}

-- Model 5 has failed once in two calls, model 6 has no quota left.
abbrev router : ModelRouter
router = record {
  default_model = 9;
  mock_mode = false;
  auto_route = true;
  eligible_models = 5 ∷ 6 ∷ 7 ∷ 8 ∷ [];
  events =
      record {
        model = 5;
        task_type = patching;
        event_type = failure;
        latency_ms = 10;
        timestamp = 90;
      }
      ∷ record {
        model = 5;
        task_type = patching;
        event_type = success;
        latency_ms = 10;
        timestamp = 95;
      }
      ∷ [];
  model_quota_headroom = (6, 0) ∷ [];
  node_model_map = [];
}

-- A score of 0.0 is 1000, and that of model 8 is negative.
abbrev weight : ℕ → ModelRouter → ℕ → TaskType → ℕ
weight now r m task = if m == 8 then 900 else 1100 - m

chosen : select_model 1000 weight 100 patching [] router ≡ 7
unfolding select_model score_model
chosen = refl

select_model-best_example :
    let m = select_model 1000 weight 100 patching [] router in
    let cs = candidates 1000 weight [] router in
    ((m ≡ 9) × All (λ c. score_model 1000 weight 100 router c patching ≤ 1000) cs)
    ⊎ ((contains m cs ≡ true)
        × (is_provider_unhealthy 100 m router ≡ false)
        × (exhausted (lookup m router.model_quota_headroom) ≡ false)
        × (1000 < score_model 1000 weight 100 router m patching)
        × All
            (λ c.
              score_model 1000 weight 100 router c patching
              ≤ score_model 1000 weight 100 router m patching)
            cs)
select_model-best_example = select_model-best 1000 weight 100 router patching []

abbrev near : ℕ → ℕ → Bool
near a b = a / 10 == b / 10
