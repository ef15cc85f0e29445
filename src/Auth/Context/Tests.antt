-- ===== src/Auth/Context/Tests.antt =====
-- The laws of the request identity at concrete requests.
use loom_unified_agentic_cod.Base.{true, none}
use loom_unified_agentic_cod.Auth.Context.{AuthenticatedPrincipal, AuthState, get_service_principal}

abbrev idle : AuthState
idle = record { principal = none; request_auth_context = true }

abbrev alice : AuthenticatedPrincipal
alice = get_service_principal 4 5
