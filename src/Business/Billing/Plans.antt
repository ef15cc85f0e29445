-- ===== src/Business/Billing/Plans.antt =====
-- Changes of tier in the middle of a cycle, and the grace period.
use loom_unified_agentic_cod.Base.{
  ℕ, ◌+◌, ◌-◌, ◌*◌, ◌/◌, min, max, ◌≤◌, ◌<◌, ◌≡◌, refl, subst, ◌↔◌, Option, none, some, arith, ltb,
  ◌==◌, if◌then◌else◌, if_cases,
}
use native.Mathlib.Nat.{le-div_iff_mul-le, div-le_of_le-mul, mul-add, mul_comm, mul-le-mul_right}
use loom_unified_agentic_cod.Business.Models.{solo, Organization}
use loom_unified_agentic_cod.Business.Billing.{
  prorated_credit_for_plan_change, ChangeType, downgrade, plan_change_effective_date,
  tier_after_payment_grace,
}

between_low : (m old new e r : ℕ) → m ≤ old → m ≤ new → m * (e + r) ≤ old * e + new * r
between_low m old new e r p q =
    omega (arith, mul-add m e r, mul-le-mul_right e p, mul-le-mul_right r q)

between_high : (m old new e r : ℕ) → old ≤ m → new ≤ m → old * e + new * r ≤ m * (e + r)
between_high m old new e r p q =
    omega (arith, mul-add m e r, mul-le-mul_right e p, mul-le-mul_right r q)

div_low :
    (old new e r days : ℕ) → 0 < days → e + r ≡ days → min old new ≤ (old * e + new * r) / days
div_low old new e r days h s = (le-div_iff_mul-le h).1 (
    subst (λ d. min old new * d ≤ old * e + new * r) s
      (between_low (min old new) old new e r (omega arith) (omega arith)))

div_high :
    (old new e r days : ℕ) → 0 < days → e + r ≡ days → (old * e + new * r) / days ≤ max old new
div_high old new e r days h s = div-le_of_le-mul days (
    subst (λ d. old * e + new * r ≤ d * max old new) s
      (omega (
        arith,
        mul_comm (e + r) (max old new),
        between_high (max old new) old new e r (omega arith) (omega arith),
      )))

-- In a cycle of some days the prorated credit exists and lies between the credits of the two plans.
pub prorated_between :
    (old new elapsed days : ℕ)
    → 0 < days
    → (c : ℕ) × (prorated_credit_for_plan_change old new elapsed days ≡ some c)
      × (min old new ≤ c)
      × (c ≤ max old new)
unfolding prorated_credit_for_plan_change
prorated_between old new elapsed days h =
    let e = min elapsed days in
    let r = days - min elapsed days in
    if_cases (λ (o : Option ℕ). (c : ℕ) × (o ≡ some c) × (min old new ≤ c) × (c ≤ max old new))
      (days == 0) none (some ((old * e + new * r) / days)) (λ q. ground arith)
      (λ q. (
        _,
        refl,
        div_low old new e r days h (omega arith),
        div_high old new e r days h (omega arith),
      ))

-- A plan change takes effect in the past exactly when it is a downgrade asked for more than thirty days
-- after the cycle's boundary.
pub effective_in_past_iff :
    (c : ChangeType) (today boundary : ℕ)
    → (plan_change_effective_date c today boundary < today)
      ↔ ((c ≡ downgrade) × (boundary + 30 < today))
unfolding plan_change_effective_date
effective_in_past_iff c today boundary = (λ h. ground arith, λ h. ground arith)

-- After a failed payment the tier is kept for less than seven days, and is `SOLO` from the seventh day on.
pub grace_period :
    (org : Organization) (failed today : ℕ)
    → org.last_payment_failed_at ≡ some failed
    → tier_after_payment_grace org today ≡ (if ltb today (failed + 7) then org.tier else solo)
unfolding tier_after_payment_grace
grace_period org failed today h = ground arith
