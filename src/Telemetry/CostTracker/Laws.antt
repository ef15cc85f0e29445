-- ===== src/Telemetry/CostTracker/Laws.antt =====
-- Nothing that is added to the tracker is lost or counted twice.
use loom_unified_agentic_cod.Base.{ℕ, ◌+◌, ◌≡◌, refl, List, [], ◌∷◌, arith, sum_of}
use loom_unified_agentic_cod.Base.Dict.{Dict, lookup, insert, values}
use loom_unified_agentic_cod.Telemetry.CostTracker.{
  NodeCost, CostTracker, NodeUsage, no_cost, cost_of, plus_usage, add_usage, get_summary,
}

-- A sum over the nodes after one of them is replaced.
sum-insert :
    (f : NodeCost → ℕ) (k : ℕ) (v : NodeCost) (d : Dict NodeCost)
    → f (no_cost k) ≡ 0
    → sum_of f (values (insert k v d)) + f (cost_of k (lookup k d)) ≡ sum_of f (values d) + f v
sum-insert f k v [] z = omega (arith, z)
sum-insert f k v ((j, w) ∷ d) z = ground (arith, sum-insert f k v d z)

pub add_all : List NodeUsage → CostTracker → CostTracker
add_all [] t = t
add_all (u ∷ us) t = add_all us (add_usage u t)

sum-add_all :
    (f : NodeCost → ℕ) (g : NodeUsage → ℕ) (us : List NodeUsage) (t : CostTracker)
    → ((k : ℕ) → f (no_cost k) ≡ 0)
    → ((u : NodeUsage) (c : NodeCost) → f (plus_usage u c) ≡ f c + g u)
    → sum_of f (values (add_all us t).node_costs) ≡ sum_of f (values t.node_costs) + sum_of g us
unfolding add_all add_usage
sum-add_all f g [] t z p = omega arith
sum-add_all f g (u ∷ us) t z p =
    let c = cost_of u.node (lookup u.node t.node_costs) in
    omega (
      arith,
      sum-add_all f g us (add_usage u t) z p,
      sum-insert f u.node (plus_usage u c) t.node_costs (z u.node),
      p u c,
    )

sum_of-plus :
    (us : List NodeUsage)
    → sum_of (λ u. u.prompt + u.completion) us
      ≡ sum_of (λ u. u.prompt) us + sum_of (λ u. u.completion) us
sum_of-plus [] = omega arith
sum_of-plus (u ∷ us) = omega (arith, sum_of-plus us)

-- Over any calls of `add_usage`, the totals of the summary grow by exactly the tokens and the costs added,
-- and the total of the tokens is that of the prompts and the completions.
pub summary-add_all :
    (us : List NodeUsage) (t : CostTracker)
    → let s = get_summary t in
      let s' = get_summary (add_all us t) in
      (s'.total_prompt_tokens ≡ s.total_prompt_tokens + sum_of (λ u. u.prompt) us)
      × (s'.total_completion_tokens ≡ s.total_completion_tokens + sum_of (λ u. u.completion) us)
      × (s'.total_cost_usd ≡ s.total_cost_usd + sum_of (λ u. u.cost) us)
      × (s'.total_tokens ≡ s.total_tokens + sum_of (λ u. u.prompt + u.completion) us)
unfolding get_summary
summary-add_all us t =
    let p = sum-add_all (λ c. c.prompt_tokens) (λ u. u.prompt) us t (λ k. refl) (λ u c. refl) in
    let q =
      sum-add_all (λ c. c.completion_tokens) (λ u. u.completion) us t (λ k. refl) (λ u c. refl) in
    (
      p,
      q,
      sum-add_all (λ c. c.cost_usd) (λ u. u.cost) us t (λ k. refl) (λ u c. refl),
      omega (arith, p, q, sum_of-plus us),
    )
