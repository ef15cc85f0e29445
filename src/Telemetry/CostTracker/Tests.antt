-- ===== src/Telemetry/CostTracker/Tests.antt =====
-- Three calls over two nodes.
use loom_unified_agentic_cod.Base.{ℕ, List, [], ◌∷◌}
use loom_unified_agentic_cod.Telemetry.CostTracker.{CostTracker, NodeUsage}

abbrev fresh : CostTracker
fresh = record { run_id = 4; org_id = 1; node_costs = []; node_attempts = [] }

abbrev usage : ℕ → ℕ → NodeUsage
usage node prompt = record {
  node = node;
  prompt = prompt;
  completion = 50;
  cost = 500;
  model = 1;
  tier = 0;
}

abbrev calls : List NodeUsage
calls = usage 2 150 ∷ usage 3 200 ∷ usage 2 100 ∷ []
