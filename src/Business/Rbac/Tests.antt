-- ===== src/Business/Rbac/Tests.antt =====
-- The laws of roles at concrete requests.
use loom_unified_agentic_cod.Base.{◌≡◌, refl, true, some}
use loom_unified_agentic_cod.Business.Models.{developer}
use loom_unified_agentic_cod.Auth.Context.{AuthenticatedPrincipal, get_service_principal}
use loom_unified_agentic_cod.Business.Rbac.{granted, require_permission, runs_read}

abbrev alice : AuthenticatedPrincipal
alice = get_service_principal 4 5

alice_reads : require_permission true alice 4 5 (some developer) runs_read ≡ granted
unfolding require_permission
alice_reads = refl
