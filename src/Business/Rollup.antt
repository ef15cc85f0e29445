-- ===== src/Business/Rollup.antt =====
-- `UsageRollupJob` of loom/business/rollup.py: the thresholds that an organisation's use crosses between two
-- runs. A percentage of the quota is a number of ten-thousandths of a percent, and the state file keeps it
-- rounded to hundredths.
pub mod Laws
mod Tests
use loom_unified_agentic_cod.Base.{
  ℕ, zero, suc, ◌+◌, ◌-◌, ◌*◌, ◌/◌, ◌%◌, ◌^◌, min, max, ◌≤◌, ◌<◌, ◌≡◌, refl, sym, ap, subst, ◌∙◌,
  ◌≢◌, ◌↔◌, ◌⊎◌, inl, inr, Bool, true, false, not, ◌&&◌, ◌||◌, Option, none, some, List, [], ◌∷◌,
  ◌++◌, map, append-nil, append_assoc, arith, ltb, leb, ◌==◌, if◌then◌else◌, ltb→lt, lt→ltb, leb→le,
  le→leb, ==_iff, tests, if_both, if_cases, Bool-cases, Option-cases, is_some, is_none, contains,
  Distinct, contains-append, Distinct-snoc, length, select, any_of, all_of, sum_of, All,
  length-append, length-select-le, sum_of-append, select-append,
}
use loom_unified_agentic_cod.Base.Dict.{Dict, lookup, insert}

abbrev pub soft_warn_pct : ℕ
soft_warn_pct = 800000

abbrev pub hard_stop_pct : ℕ
hard_stop_pct = 1000000

-- Each action stands for its audit entry and its webhook.
pub data RollupAction : Type 0 where
  soft_warn quota_exceeded : RollupAction

abbrev action_if : Bool → RollupAction → List RollupAction
action_if b a = if b then a ∷ [] else []

-- `_emit_crossings`
pub emit_crossings : ℕ → ℕ → List RollupAction
emit_crossings prev_pct quota_pct =
    action_if (ltb prev_pct soft_warn_pct && leb soft_warn_pct quota_pct) soft_warn
    ++ action_if
        (ltb prev_pct hard_stop_pct && leb hard_stop_pct quota_pct && ltb quota_pct 9990000)
        quota_exceeded

-- `round(quota_pct, 2)`
abbrev pub rounded : ℕ → ℕ
rounded pct = (pct + 50) / 100 * 100

abbrev pub or_zero : Option ℕ → ℕ
or_zero none = 0
or_zero (some n) = n

-- `state.get(org_id, {}).get("quota_pct", 0.0)`
pub previous : ℕ → Dict ℕ → ℕ
previous org state = or_zero (lookup org state)

-- What the rollup reads of an organisation; `pct` is none where it is unknown or its snapshot is empty.
pub record Usage : Type 0 where
  pub org_id : ℕ
  pub pct : Option ℕ

roll_pct : ℕ → Option ℕ → Dict ℕ → List RollupAction × Dict ℕ
unfolding emit_crossings previous
roll_pct org none state = ([], state)
roll_pct org (some p) state = (emit_crossings (previous org state) p, insert org (rounded p) state)

-- The loop of `run_once`: the actions of each organisation, and the state that is saved.
pub run_once : List Usage → Dict ℕ → List (ℕ × RollupAction) × Dict ℕ
unfolding roll_pct
run_once [] state = ([], state)
run_once (u ∷ us) state =
    let (actions, state') = roll_pct u.org_id u.pct state in
    let (rest, final) = run_once us state' in (map (λ a. (u.org_id, a)) actions ++ rest, final)
