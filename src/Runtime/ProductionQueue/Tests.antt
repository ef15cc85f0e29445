-- ===== src/Runtime/ProductionQueue/Tests.antt =====
-- Requests for a run, one queued and one outside the allowed roots.
use loom_unified_agentic_cod.Base.{ℕ, true, false, Option, none, some, List, [], ◌∷◌, ◌++◌}
use loom_unified_agentic_cod.Business.Models.{team, block, Organization}
use loom_unified_agentic_cod.Runtime.ProductionQueue.{
  tier_b, local, RunRequest, RunRecord, Production,
}

abbrev request : RunRequest
request = record {
  sandbox_tier = tier_b;
  repo = local (1 ∷ 2 ∷ 3 ∷ []) true;
  run_id = 50;
  job_id = 51;
}

abbrev organization : Organization
organization = record {
  id = 7;
  tier = team;
  hard_stop_policy = block;
  auto_merge_threshold = 90;
  burst_grace_pct = 0;
  overage_run_cap_multiplier = 200;
  last_payment_failed_at = none;
  require_patch_approval = false;
}

abbrev write : RunRecord → List ℕ → Option (List ℕ)
write r s = some (s ++ r.run_id ∷ [])

abbrev production : Production (List ℕ) (Unit {0})
production = record {
  entitlements = record { orgs = (7, organization) ∷ []; memberships = [] };
  ledger = record { file = []; written_keys = []; entries = [] };
  roots = some ((1 ∷ 2 ∷ []) ∷ []);
  records = [];
  queue = record {
    consumer = 1;
    lease_ttl = 120;
    redis = tt;
    stream = [];
    acked = [];
    hashes = [];
    dead_letters = [];
  };
}
