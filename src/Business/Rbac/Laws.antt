-- ===== src/Business/Rbac/Laws.antt =====
-- Who may do what, by loom/business/rbac.py.
use loom_unified_agentic_cod.Base.{ℕ, ◌≡◌, refl, ◌↔◌, ◌⊎◌, Bool, true, false, Option, some, arith}
use loom_unified_agentic_cod.Business.Models.{
  MembershipRole, owner, admin, developer, reviewer, billing_admin, auditor,
}
use loom_unified_agentic_cod.Auth.Context.{
  AuthenticatedPrincipal, Env, unset, development, prod, production, other, is_secure_runtime,
}
use loom_unified_agentic_cod.Business.Rbac.{
  Action, can, trigger_run, modify_billing, rollback_run, Resource, none_given, org, another,
  granted, authorize, require_permission, Permission, action_map, secure_runtime,
}

-- The resource is no organisation, or the principal's own, or the runtime is not secure.
abbrev pub InScope : Bool → AuthenticatedPrincipal → Resource → Type 0
InScope true p (org o) = o ≡ p.org_id
InScope _ _ _ = Unit {0}

-- `authorize` grants a request exactly when the role has the permission and the resource is in the
-- principal's scope.
pub authorize-granted_iff :
    (secure : Bool) (p : AuthenticatedPrincipal) (role : MembershipRole) (a : Action) (r : Resource)
    → (authorize secure p role a r ≡ granted) ↔ ((can role a ≡ true) × InScope secure p r)
unfolding authorize
authorize-granted_iff true p role a (org o) = (λ h. ground arith, λ h. ground arith)
authorize-granted_iff false p role a (org o) = (λ h. ground arith, λ h. ground arith)
authorize-granted_iff true p role a none_given = (λ h. ground arith, λ h. ground arith)
authorize-granted_iff false p role a none_given = (λ h. ground arith, λ h. ground arith)
authorize-granted_iff true p role a another = (λ h. ground arith, λ h. ground arith)
authorize-granted_iff false p role a another = (λ h. ground arith, λ h. ground arith)

-- Duties are separated: a role that may start runs and may change billing is the owner's, and so is
-- one that may roll runs back and change billing.
pub billing_separated :
    (role : MembershipRole)
    → can role modify_billing ≡ true
    → (can role trigger_run ≡ true) ⊎ (can role rollback_run ≡ true)
    → role ≡ owner
billing_separated owner b t = refl
billing_separated admin b t = cc
billing_separated developer b t = cc
billing_separated reviewer b t = cc
billing_separated billing_admin b t = ground arith
billing_separated auditor b t = cc

-- The two modules decide alike whether the runtime is secure.
pub secure_runtime-agree :
    (env : Env) (dev : Bool) → secure_runtime env dev ≡ is_secure_runtime env dev
secure_runtime-agree unset dev = refl
secure_runtime-agree development dev = refl
secure_runtime-agree prod dev = refl
secure_runtime-agree production dev = refl
secure_runtime-agree other dev = refl

-- In a secure runtime `require_permission` grants only a request for the principal's own user and
-- organisation, by a known role that holds the action the permission stands for.
pub require_permission-granted :
    (p : AuthenticatedPrincipal) (user_id org_id : ℕ) (role : Option MembershipRole)
    (permission : Permission)
    → require_permission true p user_id org_id role permission ≡ granted
    → (user_id ≡ p.user_id)
      × (org_id ≡ p.org_id)
      × ((r : MembershipRole) × (a : Action) × (role ≡ some r)
          × (action_map permission ≡ some a)
          × (can r a ≡ true))
unfolding require_permission
require_permission-granted p u o role permission h = ground arith
