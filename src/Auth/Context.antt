-- ===== src/Auth/Context.antt =====
-- loom/auth/context.py: the authenticated identity of a request. The two context variables are the
-- state; the settings that the functions read from the environment are arguments.
pub mod Laws
mod Tests
use loom_unified_agentic_cod.Base.{
  ℕ, Bool, true, false, not, ◌&&◌, ◌||◌, Option, none, some, if◌then◌else◌, is_some,
}

pub data AuthMethod : Type 0 where
  api_key api_token : AuthMethod

pub record AuthenticatedPrincipal : Type 0 where
  pub user_id : ℕ
  pub org_id : ℕ
  pub token_id : Option ℕ
  pub auth_method : AuthMethod

-- `_principal` and `_request_auth_context`.
pub record AuthState : Type 0 where
  pub principal : Option AuthenticatedPrincipal
  pub request_auth_context : Bool

unfoldable pub set_principal : AuthenticatedPrincipal → AuthState → AuthState
set_principal p s = record s { principal = some p }

unfoldable pub clear_principal : AuthState → AuthState
clear_principal s = record s { principal = none }

pub begin_request_auth_context : AuthState → AuthState
begin_request_auth_context s = record s { request_auth_context = true }

pub end_request_auth_context : AuthState → AuthState
unfolding clear_principal
end_request_auth_context s = clear_principal (record s { request_auth_context = false })

-- `LOOM_ENV` and `DEV_MODE`, lower-cased, by the values that the code tests for.
pub data Env : Type 0 where
  unset development prod production other : Env

-- `_is_secure_runtime`; the flag says whether `DEV_MODE` is one of "true", "1", "yes", "on".
abbrev pub is_secure_runtime : Env → Bool → Bool
is_secure_runtime prod dev_flag = true
is_secure_runtime production dev_flag = true
is_secure_runtime development dev_flag = not dev_flag
is_secure_runtime _ dev_flag = true

-- `get_service_principal`: the identity that the two settings name.
abbrev pub get_service_principal : ℕ → ℕ → AuthenticatedPrincipal
get_service_principal user org = record {
  user_id = user;
  org_id = org;
  token_id = none;
  auth_method = api_key;
}

abbrev or_else : Option ℕ → ℕ → ℕ
or_else none d = d
or_else (some x) d = x

current_or_service : AuthState → AuthenticatedPrincipal → AuthenticatedPrincipal
current_or_service s service = elim s.principal [
  | none ↦ service
  | some p ↦ if s.request_auth_context then p else service
]

-- `get_effective_principal(user_id_header, org_id_header)`; an empty header counts as absent.
pub get_effective_principal :
    Bool → AuthenticatedPrincipal → AuthState → Option ℕ → Option ℕ → AuthenticatedPrincipal
unfolding current_or_service
get_effective_principal secure service s user_header org_header =
    let p = current_or_service s service in
    if secure
    then p
    else record p { user_id = or_else user_header p.user_id; org_id = or_else org_header p.org_id }

pub require_authenticated_principal : AuthState → Option AuthenticatedPrincipal
require_authenticated_principal s = s.principal
