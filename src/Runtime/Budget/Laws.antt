-- ===== src/Runtime/Budget/Laws.antt =====
-- When loom/runtime/budget.py lets a run go on.
use loom_unified_agentic_cod.Base.{ℕ, ◌≤◌, ◌≡◌, ◌↔◌, Option, none, some, arith}
use loom_unified_agentic_cod.Runtime.Budget.{RunBudget, Reading, check_limits}

-- No limit is set, or the use is at most the limit.
abbrev pub Within : Option ℕ → ℕ → Type 0
Within none used = Unit {0}
Within (some limit) used = used ≤ limit

-- The check passes exactly when each of the four readings is within its limit.
pub check_limits-passes_iff :
    (b : RunBudget) (r : Reading)
    → (check_limits b r ≡ none) ↔ (
        Within b.max_cost_usd r.cost_usd
        × Within b.max_duration_seconds r.elapsed_seconds
        × Within b.max_tokens r.tokens_used
        × Within b.max_agent_steps r.steps)
unfolding check_limits
check_limits-passes_iff b r = (λ h. ground arith, λ h. ground arith)
