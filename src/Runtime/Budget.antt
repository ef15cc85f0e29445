-- ===== src/Runtime/Budget.antt =====
-- loom/runtime/budget.py: the hard limits of one run. Costs are millionths of a dollar, durations
-- milliseconds; the code only compares them.
pub mod Laws
use loom_unified_agentic_cod.Base.{
  ℕ, zero, suc, ◌+◌, ◌-◌, ◌*◌, ◌/◌, ◌%◌, ◌^◌, min, max, ◌≤◌, ◌<◌, ◌≡◌, refl, sym, ap, subst, ◌∙◌,
  ◌≢◌, ◌↔◌, ◌⊎◌, inl, inr, Bool, true, false, not, ◌&&◌, ◌||◌, Option, none, some, List, [], ◌∷◌,
  ◌++◌, map, append-nil, append_assoc, arith, ltb, leb, ◌==◌, if◌then◌else◌, ltb→lt, lt→ltb, leb→le,
  le→leb, ==_iff, tests, Bool-cases, Option-cases, is_some, is_none, contains, Distinct,
  contains-append, length, select, any_of, all_of, sum_of, All, length-append, length-select-le,
  sum_of-append, select-append,
}

pub record RunBudget : Type 0 where
  pub max_cost_usd : Option ℕ
  pub max_duration_seconds : Option ℕ
  pub max_attempts : Option ℕ
  pub max_agent_steps : Option ℕ
  pub max_tokens : Option ℕ

-- The four messages of `BudgetExceeded`.
pub data Limit : Type 0 where
  cost duration tokens agent_steps : Limit

-- `limit is not None and used > limit`
abbrev pub exceeds : Option ℕ → ℕ → Bool
exceeds none used = false
exceeds (some limit) used = ltb limit used

-- What the caller has read off the clock and the trackers.
pub record Reading : Type 0 where
  pub cost_usd : ℕ
  pub elapsed_seconds : ℕ
  pub tokens_used : ℕ
  pub steps : ℕ

-- `check_limits`: the limit that it raises for, or `none` where it returns.
pub check_limits : RunBudget → Reading → Option Limit
check_limits b r =
    if exceeds b.max_cost_usd r.cost_usd
    then some cost
    else if exceeds b.max_duration_seconds r.elapsed_seconds
    then some duration
    else if exceeds b.max_tokens r.tokens_used
    then some tokens
    else if exceeds b.max_agent_steps r.steps
    then some agent_steps
    else none
