-- ===== src/Business/Billing/Totals.antt =====
-- The monthly invoice.
use loom_unified_agentic_cod.Base.{
  ℕ, zero, suc, ◌+◌, ◌-◌, ◌*◌, min, max, ◌≤◌, ◌<◌, ◌≡◌, refl, ◌↔◌, Bool, true, false, ◌&&◌, List,
  ◌++◌, arith, ltb, if◌then◌else◌, if_both, sum_of,
}
use native.Mathlib.Nat.{add-le-add, mul-le-mul_right}
use loom_unified_agentic_cod.Business.Models.{Organization, OrgUsageSnapshot}
use loom_unified_agentic_cod.Business.Billing.{
  org_quota_runs, org_quota_tokens, overage_run_cap, token_margin, InvoiceLine, Label, line_if,
  invoice_for,
}

-- A line that is left out because its quantity is zero adds what it would have added.
overage_line :
    (n price : ℕ) (l : Label) (rest : List InvoiceLine)
    → sum_of
        (λ (x : InvoiceLine). x.amount_usd)
        (line_if (ltb 0 n) (record { label = l; amount_usd = n * price; quantity = n }) ++ rest)
      ≡ n * price + sum_of (λ (x : InvoiceLine). x.amount_usd) rest
overage_line zero price l rest = omega arith
overage_line (suc n) price l rest = ground arith

margin_line :
    (b : Bool) (m : ℕ) (l : Label)
    → sum_of
        (λ (x : InvoiceLine). x.amount_usd)
        (line_if (b && ltb 0 m) (record { label = l; amount_usd = m; quantity = 1 }))
      ≡ (if b then m else 0)
margin_line false m l = refl
margin_line true m l = ground arith

beyond_both : (q k c : ℕ) → (ltb (k - q) (c - q) ≡ true) ↔ (max q k < c)
beyond_both q k c = (λ h. ground arith, λ h. ground arith)

-- The invoice bills exactly the overage up to the cap, at the price, and the token margin where the
-- tokens pass the quota; the included credits are free. It says that the hard stop is exceeded exactly
-- when more credits are consumed than the quota and than the cap.
pub invoice_total :
    (org : Organization) (s : OrgUsageSnapshot) (consumed price : ℕ)
    → let i = invoice_for org s consumed price in
      (i.total_usd
        ≡ min (consumed - org_quota_runs org) (overage_run_cap org - org_quota_runs org) * price
          + (if ltb (org_quota_tokens org) s.tokens_consumed
              then token_margin s.cost_usd_accrued
              else 0))
      × ((i.hard_stop_exceeded ≡ true)
          ↔ (max (org_quota_runs org) (overage_run_cap org) < consumed))
unfolding invoice_for
invoice_total org s consumed price = (
  omega (
    arith,
    overage_line (min (consumed - org_quota_runs org) (overage_run_cap org - org_quota_runs org))
        price Label.overage_run_credits
        (line_if
          (ltb (org_quota_tokens org) s.tokens_consumed && ltb 0 (token_margin s.cost_usd_accrued))
          (record {
            label = Label.token_margin_15pct;
            amount_usd = token_margin s.cost_usd_accrued;
            quantity = 1;
          })),
    margin_line (ltb (org_quota_tokens org) s.tokens_consumed) (token_margin s.cost_usd_accrued)
        Label.token_margin_15pct,
  ),
  beyond_both (org_quota_runs org) (overage_run_cap org) consumed,
)

capped : (o a price m : ℕ) (b : Bool) → min o a * price + (if b then m else 0) ≤ a * price + m
capped o a price m b =
    add-le-add (mul-le-mul_right price (omega arith))
      (if_both (λ x. x ≤ m) b m 0 (omega arith) (omega arith))

-- However much an organisation uses, its overage is billed for no more credits than the cap leaves above
-- the quota.
pub invoice_capped :
    (org : Organization) (s : OrgUsageSnapshot) (consumed price : ℕ)
    → (invoice_for org s consumed price).total_usd
      ≤ (overage_run_cap org - org_quota_runs org) * price + token_margin s.cost_usd_accrued
invoice_capped org s consumed price =
    let t = invoice_total org s consumed price in
    omega (
      arith,
      t.0,
      capped (consumed - org_quota_runs org) (overage_run_cap org - org_quota_runs org) price
          (token_margin s.cost_usd_accrued) (ltb (org_quota_tokens org) s.tokens_consumed),
    )
