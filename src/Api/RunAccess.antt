-- ===== src/Api/RunAccess.antt =====
-- `require_run_access` of loom/api/run_authorization.py: the run's record comes from the record store, which
-- is a parameter, and the role from the entitlement service.
pub mod Laws
mod Tests
use loom_unified_agentic_cod.Base.{
  ℕ, zero, suc, ◌+◌, ◌-◌, ◌*◌, ◌/◌, ◌%◌, ◌^◌, min, max, ◌≤◌, ◌<◌, ◌≡◌, refl, sym, ap, subst, ◌∙◌,
  ◌≢◌, ◌↔◌, ◌⊎◌, inl, inr, Bool, true, false, not, ◌&&◌, ◌||◌, Option, none, some, List, [], ◌∷◌,
  ◌++◌, map, append-nil, append_assoc, arith, ltb, leb, ◌==◌, if◌then◌else◌, ltb→lt, lt→ltb, leb→le,
  le→leb, ==_iff, tests, if_both, if_cases, Bool-cases, Option-cases, is_some, is_none, contains,
  Distinct, contains-append, Distinct-snoc, length, select, any_of, all_of, sum_of, All,
  length-append, length-select-le, sum_of-append, select-append,
}
use loom_unified_agentic_cod.Auth.Context.{
  AuthState, AuthenticatedPrincipal, require_authenticated_principal,
}
use loom_unified_agentic_cod.Business.Entitlements.{EntitlementService, get_role}
use loom_unified_agentic_cod.Business.Rbac.{
  Action, Denied, Outcome, granted, forbidden, org, authorize,
}

-- What the code reads of a run's record; the organisation is `none` where it is missing or empty.
pub record RunRecord : Type 0 where
  pub run_id : ℕ
  pub org_id : Option ℕ

-- The HTTP answer, or the run. Unauthenticated is what `require_authenticated_principal` raises.
pub data Access : Type 0 where
  unauthenticated not_found : Access
  denied : Denied → Access
  run : RunRecord → Access

-- The answer, and the audit entries that the call writes, each an organisation and a user.
abbrev pub Audited : Type 0
Audited = Access × List (ℕ × ℕ)

abbrev pub entry_for : AuthenticatedPrincipal → List (ℕ × ℕ)
entry_for p = (p.org_id, p.user_id) ∷ []

check_role : AuthenticatedPrincipal → RunRecord → Outcome → Audited
check_role p r granted = (run r, [])
check_role p r (forbidden d) = (denied d, entry_for p)

abbrev pub same_org : AuthenticatedPrincipal → RunRecord → Bool
same_org p r = elim r.org_id [ none ↦ false | some o ↦ o == p.org_id ]

-- The call for the run found; `effective` is the principal that `RBACEnforcer` looks up for itself.
access_run :
    Bool
    → AuthenticatedPrincipal
    → AuthenticatedPrincipal
    → EntitlementService
    → Action
    → Option RunRecord
    → Audited
unfolding check_role
access_run secure effective p s action none = (not_found, [])
access_run secure effective p s action (some r) =
    if same_org p r
    then check_role p r
        (authorize secure effective (get_role s p.org_id p.user_id) action (org p.org_id))
    else (not_found, entry_for p)

module _ (get_run : ℕ → Option RunRecord) where
  -- With a `context`, whose principal is given.
  pub require_run_access_in :
      Bool
      → AuthenticatedPrincipal
      → AuthenticatedPrincipal
      → EntitlementService
      → Action
      → ℕ
      → Audited
  unfolding access_run
  require_run_access_in secure effective p s action run_id =
      access_run secure effective p s action (get_run run_id)

  -- Without one, under the principal of the request.
  pub require_run_access :
      Bool → AuthenticatedPrincipal → AuthState → EntitlementService → Action → ℕ → Audited
  unfolding require_run_access_in
  require_run_access secure effective a s action run_id = elim (require_authenticated_principal a) [
    | none ↦ (unauthenticated, [])
    | some p ↦ require_run_access_in secure effective p s action run_id
  ]
