-- ===== src/Telemetry/CostTracker.antt =====
-- loom/telemetry/cost_tracker.py: the tokens and the cost of a run by node. Model 0 is "unknown" and tier 0 is
-- "A"; a hash is a number, 0 for the empty one.
pub mod Laws
mod Tests
use loom_unified_agentic_cod.Base.{
  ℕ, zero, suc, ◌+◌, ◌-◌, ◌*◌, ◌/◌, ◌%◌, ◌^◌, min, max, ◌≤◌, ◌<◌, ◌≡◌, refl, sym, ap, subst, ◌∙◌,
  ◌≢◌, ◌↔◌, ◌⊎◌, inl, inr, Bool, true, false, not, ◌&&◌, ◌||◌, Option, none, some, List, [], ◌∷◌,
  ◌++◌, map, append-nil, append_assoc, arith, ltb, leb, ◌==◌, if◌then◌else◌, ltb→lt, lt→ltb, leb→le,
  le→leb, ==_iff, tests, if_both, if_cases, Bool-cases, Option-cases, is_some, is_none, contains,
  Distinct, contains-append, Distinct-snoc, length, select, any_of, all_of, sum_of, All,
  length-append, length-select-le, sum_of-append, select-append,
}
use loom_unified_agentic_cod.Base.Dict.{Dict, lookup, insert, values}
use loom_unified_agentic_cod.Business.Models.{UsageEvent}

pub record NodeCost : Type 0 where
  pub node_name : ℕ
  pub model_id : ℕ
  pub sandbox_tier : ℕ
  pub prompt_tokens : ℕ
  pub completion_tokens : ℕ
  pub total_tokens : ℕ
  pub cost_usd : ℕ

pub record CostTracker : Type 0 where
  pub run_id : ℕ
  pub org_id : ℕ
  pub node_costs : Dict NodeCost
  pub node_attempts : Dict ℕ

-- The arguments of `add_usage`.
pub record NodeUsage : Type 0 where
  pub node : ℕ
  pub prompt : ℕ
  pub completion : ℕ
  pub cost : ℕ
  pub model : ℕ
  pub tier : ℕ

-- `NodeCost(node_name=...)`, its model and tier to be set at once.
abbrev pub no_cost : ℕ → NodeCost
no_cost node = record {
  node_name = node;
  model_id = 0;
  sandbox_tier = 0;
  prompt_tokens = 0;
  completion_tokens = 0;
  total_tokens = 0;
  cost_usd = 0;
}

abbrev pub cost_of : ℕ → Option NodeCost → NodeCost
cost_of node none = no_cost node
cost_of node (some c) = c

abbrev pub plus_usage : NodeUsage → NodeCost → NodeCost
plus_usage u c = record c {
  model_id = u.model;
  sandbox_tier = u.tier;
  prompt_tokens = c.prompt_tokens + u.prompt;
  completion_tokens = c.completion_tokens + u.completion;
  total_tokens = c.total_tokens + (u.prompt + u.completion);
  cost_usd = c.cost_usd + u.cost;
}

abbrev pub attempts_so_far : ℕ → CostTracker → ℕ
attempts_so_far node t = elim (lookup node t.node_attempts) [ none ↦ 0 | some n ↦ n ]

pub add_usage : NodeUsage → CostTracker → CostTracker
add_usage u t = record t {
  node_costs =
      insert u.node (plus_usage u (cost_of u.node (lookup u.node t.node_costs))) t.node_costs;
  node_attempts = insert u.node (suc (attempts_so_far u.node t)) t.node_attempts;
}

-- `add_usage_with_context`, which drops the model and the tier on the way to `add_usage`: the event that
-- goes to the ledger beside the tracker.
pub add_usage_with_context : NodeUsage → ℕ → ℕ → CostTracker → UsageEvent × CostTracker
unfolding add_usage
add_usage_with_context u wall_clock_ms input_hash t =
    let t' = add_usage (record u { model = 0; tier = 0 }) t in
    (
      record {
        run_id = t.run_id;
        org_id = t.org_id;
        step_id = u.node;
        attempt_number = attempts_so_far u.node t';
        tokens_in = u.prompt;
        tokens_out = u.completion;
        model_id = u.model;
        sandbox_tier = u.tier;
        wall_clock_ms = wall_clock_ms;
        cost_usd = u.cost;
        input_context_hash = input_hash;
      },
      t',
    )

pub record CostSummary : Type 0 where
  pub total_prompt_tokens : ℕ
  pub total_completion_tokens : ℕ
  pub total_tokens : ℕ
  pub total_cost_usd : ℕ
  pub by_node : Dict NodeCost

pub get_summary : CostTracker → CostSummary
get_summary t =
    let prompt = sum_of (λ (c : NodeCost). c.prompt_tokens) (values t.node_costs) in
    let completion = sum_of (λ (c : NodeCost). c.completion_tokens) (values t.node_costs) in
    record {
      total_prompt_tokens = prompt;
      total_completion_tokens = completion;
      total_tokens = prompt + completion;
      total_cost_usd = sum_of (λ (c : NodeCost). c.cost_usd) (values t.node_costs);
      by_node = t.node_costs;
    }
