-- ===== src/Business/Billing.antt =====
-- loom/business/billing.py: run credits, the monthly invoice, plan changes and the payment grace period.
-- Amounts are millionths of a dollar, multipliers hundredths, dates day numbers.
pub mod Credits
pub mod Totals
pub mod Plans
mod Tests
use loom_unified_agentic_cod.Base.{
  ℕ, zero, suc, ◌+◌, ◌-◌, ◌*◌, ◌/◌, ◌%◌, ◌^◌, min, max, ◌≤◌, ◌<◌, ◌≡◌, refl, sym, ap, subst, ◌∙◌,
  ◌≢◌, ◌↔◌, ◌⊎◌, inl, inr, Bool, true, false, not, ◌&&◌, ◌||◌, Option, none, some, List, [], ◌∷◌,
  ◌++◌, map, append-nil, append_assoc, arith, ltb, leb, ◌==◌, if◌then◌else◌, ltb→lt, lt→ltb, leb→le,
  le→leb, ==_iff, tests, if_both, if_cases, Bool-cases, Option-cases, is_some, is_none, contains,
  Distinct, contains-append, Distinct-snoc, length, select, any_of, all_of, sum_of, All,
  length-append, length-select-le, sum_of-append, select-append,
}
use loom_unified_agentic_cod.Base.Dict.{Dict, lookup, insert, values}
use loom_unified_agentic_cod.Business.Models.{
  OrgTier, solo, Organization, OrgUsageSnapshot, UsageEvent, UsageLedgerEntry, tier_quota_map,
}

abbrev pub run_credit_max_retries_per_step : ℕ
run_credit_max_retries_per_step = 2

abbrev pub run_credit_max_tokens : ℕ
run_credit_max_tokens = 400000

abbrev pub run_credit_max_sandbox_seconds : ℕ
run_credit_max_sandbox_seconds = 2700

abbrev pub default_overage_run_cap_multiplier : ℕ
default_overage_run_cap_multiplier = 200

abbrev pub payment_grace_days : ℕ
payment_grace_days = 7

abbrev pub team_overage_run_price_usd : ℕ
team_overage_run_price_usd = 800000

abbrev pub run_tokens : List UsageEvent → ℕ
run_tokens = sum_of (λ e. e.tokens_in + e.tokens_out)

abbrev pub run_sandbox_seconds : List UsageEvent → ℕ
run_sandbox_seconds es = sum_of (λ e. e.wall_clock_ms) es / 1000

abbrev or_zero : Option ℕ → ℕ
or_zero none = 0
or_zero (some n) = n

-- The loop of `_run_max_retries_exceeded`: the highest attempt of each step.
step_attempts : List UsageEvent → Dict ℕ → Dict ℕ
step_attempts [] d = d
step_attempts (e ∷ es) d =
    step_attempts es (insert e.step_id (max (or_zero (lookup e.step_id d)) e.attempt_number) d)

pub run_max_retries_exceeded : List UsageEvent → Bool
unfolding step_attempts
run_max_retries_exceeded es =
    any_of (λ a. ltb (1 + run_credit_max_retries_per_step) a) (values (step_attempts es []))

-- One more credit for a dimension beyond its envelope.
abbrev beyond : ℕ → ℕ → ℕ
beyond used limit = if ltb limit used then used / limit else 0

pub credits_for_run : List UsageEvent → ℕ
credits_for_run es =
    1
    + (if run_max_retries_exceeded es then 1 else 0)
    + beyond (run_tokens es) run_credit_max_tokens
    + beyond (run_sandbox_seconds es) run_credit_max_sandbox_seconds

-- The event that an entry is turned back into; its context hash is empty.
abbrev pub event_of : UsageLedgerEntry → UsageEvent
event_of e = record {
  run_id = e.run_id;
  org_id = e.org_id;
  step_id = e.step_id;
  attempt_number = e.attempt_number;
  tokens_in = e.tokens_in;
  tokens_out = e.tokens_out;
  model_id = e.model_id;
  sandbox_tier = e.sandbox_tier;
  wall_clock_ms = e.wall_clock_ms;
  cost_usd = e.cost_usd;
  input_context_hash = 0;
}

abbrev or_nil : Option (List UsageEvent) → List UsageEvent
or_nil none = []
or_nil (some es) = es

-- `runs.setdefault(entry.run_id, []).append(...)`
pub group_by_run : List UsageLedgerEntry → Dict (List UsageEvent) → Dict (List UsageEvent)
group_by_run [] d = d
group_by_run (e ∷ es) d =
    group_by_run es (insert e.run_id (or_nil (lookup e.run_id d) ++ event_of e ∷ []) d)

map_credits : Dict (List UsageEvent) → Dict ℕ
unfolding credits_for_run
map_credits [] = []
map_credits ((r, es) ∷ d) = (r, credits_for_run es) ∷ map_credits d

pub credits_for_ledger_entries : List UsageLedgerEntry → Dict ℕ
unfolding group_by_run map_credits
credits_for_ledger_entries es = map_credits (group_by_run es [])

abbrev pub org_quota_runs : Organization → ℕ
org_quota_runs org = (tier_quota_map org.tier).runs_per_month

abbrev pub org_quota_tokens : Organization → ℕ
org_quota_tokens org = (tier_quota_map org.tier).tokens_per_run * org_quota_runs org

-- A multiplier of zero counts as missing.
abbrev pub overage_run_cap : Organization → ℕ
overage_run_cap org =
    org_quota_runs org
    * (if org.overage_run_cap_multiplier == 0
        then default_overage_run_cap_multiplier
        else org.overage_run_cap_multiplier)
    / 100

pub data Label : Type 0 where
  included_run_credits overage_run_credits token_margin_15pct : Label

pub record InvoiceLine : Type 0 where
  pub label : Label
  pub amount_usd : ℕ
  pub quantity : ℕ

pub record Invoice : Type 0 where
  pub included_run_credits : ℕ
  pub consumed_run_credits : ℕ
  pub overage_run_credits : ℕ
  pub overage_cap_run_credits : ℕ
  pub hard_stop_exceeded : Bool
  pub lines : List InvoiceLine
  pub total_usd : ℕ

-- `round(cost * 0.15, 6)`, to the nearest millionth.
abbrev pub token_margin : ℕ → ℕ
token_margin cost = (cost * 15 + 50) / 100

abbrev pub line_if : Bool → InvoiceLine → List InvoiceLine
line_if b l = if b then l ∷ [] else []

-- `build_invoice`, from the credits that the ledger's entries consume.
pub invoice_for : Organization → OrgUsageSnapshot → ℕ → ℕ → Invoice
invoice_for org snapshot consumed price =
    let included = org_quota_runs org in
    let overage = consumed - included in
    let allowed = overage_run_cap org - included in
    let billable = min overage allowed in
    let margin = token_margin snapshot.cost_usd_accrued in
    let charged = ltb (org_quota_tokens org) snapshot.tokens_consumed && ltb 0 margin in
    let lines : List InvoiceLine =
      record { label = Label.included_run_credits; amount_usd = 0; quantity = included }
      ∷ (line_if (ltb 0 billable) (record {
        label = Label.overage_run_credits;
        amount_usd = billable * price;
        quantity = billable;
      })
          ++ line_if charged
              (record { label = token_margin_15pct; amount_usd = margin; quantity = 1 })) in
    record {
      included_run_credits = included;
      consumed_run_credits = consumed;
      overage_run_credits = overage;
      overage_cap_run_credits = allowed;
      hard_stop_exceeded = ltb allowed overage;
      lines = lines;
      total_usd = sum_of (λ l. l.amount_usd) lines;
    }

pub build_invoice : Organization → OrgUsageSnapshot → List UsageLedgerEntry → ℕ → Invoice
unfolding invoice_for credits_for_ledger_entries
build_invoice org snapshot entries price =
    invoice_for org snapshot (sum_of (λ c. c) (values (credits_for_ledger_entries entries))) price

-- `none` where `days_in_cycle` is not positive. Elapsed days below zero count as zero.
pub prorated_credit_for_plan_change : ℕ → ℕ → ℕ → ℕ → Option ℕ
prorated_credit_for_plan_change old new days_elapsed days_in_cycle =
    let elapsed = min days_elapsed days_in_cycle in
    let remaining = days_in_cycle - elapsed in
    if days_in_cycle == 0 then none else some ((old * elapsed + new * remaining) / days_in_cycle)

pub data ChangeType : Type 0 where
  upgrade downgrade another : ChangeType

pub plan_change_effective_date : ChangeType → ℕ → ℕ → ℕ
plan_change_effective_date upgrade today boundary = today
plan_change_effective_date downgrade today boundary =
    if leb boundary today then boundary + 30 else boundary
plan_change_effective_date another today boundary = today

abbrev after_grace : OrgTier → ℕ → ℕ → OrgTier
after_grace tier failed today = if ltb (today - failed) payment_grace_days then tier else solo

-- A payment that failed later than today has a negative age, which is below the grace period too.
pub tier_after_payment_grace : Organization → ℕ → OrgTier
tier_after_payment_grace org today = elim org.last_payment_failed_at [
  | none ↦ org.tier
  | some failed ↦ after_grace org.tier failed today
]
