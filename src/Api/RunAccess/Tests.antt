-- ===== src/Api/RunAccess/Tests.antt =====
-- Two runs and two organisations.
use loom_unified_agentic_cod.Base.{
  ℕ, ◌≡◌, ◌≢◌, ◌↔◌, true, Option, none, some, [], arith, ◌==◌, if◌then◌else◌,
}
use loom_unified_agentic_cod.Auth.Context.{AuthenticatedPrincipal, get_service_principal}
use loom_unified_agentic_cod.Business.Entitlements.{EntitlementService, get_role}
use loom_unified_agentic_cod.Business.Rbac.{view_run, can, org}
use loom_unified_agentic_cod.Business.Rbac.Laws.{InScope}
use loom_unified_agentic_cod.Api.RunAccess.{RunRecord, run, require_run_access_in}
use loom_unified_agentic_cod.Api.RunAccess.Laws.{access-run_iff}

abbrev mine : RunRecord
mine = record { run_id = 1; org_id = some 5 }

abbrev foreign : RunRecord
foreign = record { run_id = 2; org_id = some 6 }

abbrev get_run : ℕ → Option RunRecord
get_run n = if n == 1 then some mine else if n == 2 then some foreign else none

abbrev dave : AuthenticatedPrincipal
dave = get_service_principal 4 5

abbrev no_members : EntitlementService
no_members = record { orgs = []; memberships = [] }

access-run_iff_example :
    ((require_run_access_in get_run true dave dave no_members view_run 1).0 ≡ run mine) ↔ (
      (get_run 1 ≡ some mine)
      × (mine.org_id ≡ some dave.org_id)
      × (can (get_role no_members 5 4) view_run ≡ true)
      × InScope true dave (org 5))
access-run_iff_example = access-run_iff get_run true dave dave no_members view_run 1 mine

not_mine : foreign.org_id ≢ some dave.org_id
not_mine h = ground arith
