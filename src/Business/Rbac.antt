-- ===== src/Business/Rbac.antt =====
-- loom/business/rbac.py: roles, their permissions, and the two ways to authorise a request.
pub mod Laws
mod Tests
use loom_unified_agentic_cod.Base.{
  ℕ, ◌≡◌, Bool, true, false, not, ◌&&◌, ◌||◌, Option, none, some, ◌==◌, if◌then◌else◌, arith,
}
use loom_unified_agentic_cod.Business.Models.{
  MembershipRole, owner, admin, developer, reviewer, billing_admin, auditor,
}
use loom_unified_agentic_cod.Auth.Context.{
  AuthenticatedPrincipal, Env, unset, development, prod, production, other,
}

pub data Action : Type 0 where
  trigger_run view_run rollback_run report_ci approve_auto_merge_override : Action
  modify_entitlements modify_quota_policy configure_sandbox export_evidence : Action
  export_audit_log manage_sso_scim invite_members remove_members : Action
  view_billing modify_billing : Action

-- `action in RBAC_MATRIX[role]`, which is `RBACEnforcer.can`.
abbrev pub can : MembershipRole → Action → Bool
can owner _ = true
can admin view_billing = false
can admin modify_billing = false
can admin _ = true
can developer trigger_run = true
can developer view_run = true
can developer _ = false
can reviewer view_run = true
can reviewer approve_auto_merge_override = true
can reviewer _ = false
can billing_admin view_billing = true
can billing_admin modify_billing = true
can billing_admin modify_quota_policy = true
can billing_admin _ = false
can auditor view_run = true
can auditor export_evidence = true
can auditor export_audit_log = true
can auditor _ = false

-- `_secure_runtime`: the default of `LOOM_ENV` is "production". The second argument says whether
-- `DEV_MODE` is one of the accepted spellings.
abbrev pub secure_runtime : Env → Bool → Bool
secure_runtime development dev_mode = not dev_mode
secure_runtime _ dev_mode = true

-- The resource string of `authorize`: "", "org:<id>" or anything else.
pub data Resource : Type 0 where
  none_given : Resource
  org : ℕ → Resource
  another : Resource

pub data Denied : Type 0 where
  lacks_permission org_scope identity invalid_role permission_denied : Denied

pub data Outcome : Type 0 where
  granted : Outcome
  forbidden : Denied → Outcome

-- The second test of `authorize`, on the organisation that the resource names.
org_scope_check : Bool → AuthenticatedPrincipal → Resource → Outcome
org_scope_check secure p (org o) =
    if secure && not (o == p.org_id) then forbidden org_scope else granted
org_scope_check secure p _ = granted

-- `RBACEnforcer(role).authorize(action, resource)`, under the effective principal.
pub authorize : Bool → AuthenticatedPrincipal → MembershipRole → Action → Resource → Outcome
unfolding org_scope_check
authorize secure p role action resource =
    if can role action then org_scope_check secure p resource else forbidden lacks_permission

-- The legacy permission strings.
pub data Permission : Type 0 where
  runs_read runs_write runs_trigger runs_rollback runs_ci_report : Permission
  entitlements_modify quota_modify sandbox_configure evidence_export : Permission
  audit_export billing_read billing_write unlisted : Permission

abbrev pub action_map : Permission → Option Action
action_map runs_read = some view_run
action_map runs_write = some trigger_run
action_map runs_trigger = some trigger_run
action_map runs_rollback = some rollback_run
action_map runs_ci_report = some report_ci
action_map entitlements_modify = some modify_entitlements
action_map quota_modify = some modify_quota_policy
action_map sandbox_configure = some configure_sandbox
action_map evidence_export = some export_evidence
action_map audit_export = some export_audit_log
action_map billing_read = some view_billing
action_map billing_write = some modify_billing
action_map unlisted = none

check_action : MembershipRole → Option Action → Outcome
check_action role none = forbidden permission_denied
check_action role (some action) = if can role action then granted else forbidden permission_denied

check_role : Option MembershipRole → Permission → Outcome
unfolding check_action
check_role none permission = forbidden invalid_role
check_role (some role) permission = check_action role (action_map permission)

-- `require_permission`; the role is `none` where the string names no `MembershipRole`.
pub require_permission :
    Bool → AuthenticatedPrincipal → ℕ → ℕ → Option MembershipRole → Permission → Outcome
unfolding check_role
require_permission secure p user_id org_id role permission =
    if secure && (not (user_id == p.user_id) || not (org_id == p.org_id))
    then forbidden identity
    else check_role role permission
