-- ===== src/Provisioning/Scim/Tests.antt =====
-- The laws of provisioning at concrete users.
use loom_unified_agentic_cod.Base.{ℕ, ◌+◌, ◌≡◌, refl, true, false, none, some, [], ◌∷◌}
use loom_unified_agentic_cod.Auth.Context.{AuthState}
use loom_unified_agentic_cod.Auth.ApiTokens.{new_record}
use loom_unified_agentic_cod.Business.Models.{Membership, owner}
use loom_unified_agentic_cod.Business.Entitlements.{get_membership}
use loom_unified_agentic_cod.Provisioning.Scim.{
  ScimUser, ScimGroup, DeprovisionTask, by_delete, pending, ScimProvisioner, Moment, UserPayload,
  create_user, find_by_user_name, update_user, delete_user,
}
use loom_unified_agentic_cod.Provisioning.Scim.Laws.{Gone, deprovisioned}
use loom_unified_agentic_cod.Provisioning.Scim.Names.{NamesDistinct, users-NamesDistinct}
use loom_unified_agentic_cod.Provisioning.Scim.Groups.{sync_group_members}
use loom_unified_agentic_cod.Provisioning.Scim.Groups.Laws.{sync-get_membership}

abbrev name : ℕ → ℕ
name n = n + 1000

abbrev hash : ℕ → ℕ
hash n = n + 500

abbrev alice : ScimUser
alice = record {
  id = 1;
  org_id = 9;
  external_id = some 5;
  user_name = 20;
  display_name = 20;
  emails = [];
  active = true;
  updated_at = 0;
}

abbrev bob : ScimUser
bob = record {
  id = 2;
  org_id = 9;
  external_id = none;
  user_name = 21;
  display_name = 21;
  emails = [];
  active = true;
  updated_at = 0;
}

abbrev member : ℕ → Membership
member user = record { user_id = user; org_id = 9; role = owner }

abbrev late : DeprovisionTask
late = record {
  id = 71;
  user_id = 6;
  scim_user_id = 3;
  org_id = 9;
  reason = by_delete;
  enqueued_at = 100;
  sla_deadline = 400;
  finalized_at = none;
  status = pending;
}

abbrev soon : DeprovisionTask
soon = record {
  id = 72;
  user_id = 7;
  scim_user_id = 4;
  org_id = 9;
  reason = by_delete;
  enqueued_at = 200;
  sla_deadline = 500;
  finalized_at = none;
  status = pending;
}

abbrev team : ScimGroup
team = record { id = 31; org_id = 9; display_name = 0; members = 5 ∷ []; updated_at = 0 }

abbrev start : ScimProvisioner
start = record {
  users = (1, alice) ∷ (2, bob) ∷ [];
  groups = (31, team) ∷ [];
  deprovisions = (71, late) ∷ (72, soon) ∷ [];
  entitlements = record { orgs = []; memberships = (9, (5, member 5) ∷ (6, member 6) ∷ []) ∷ [] };
  files = record { users_file = []; groups_file = []; depro_file = [] };
  tokens = record { records = (1, new_record hash 1 11 5 9 100 50) ∷ []; file = [] };
  audit = record { entries = []; file = [] };
}

abbrev moment : ℕ → Moment
moment t = record {
  now = t;
  admin = true;
  writable = true;
  tokens_writable = true;
  audit_writable = true;
  fresh_id = 40;
  audit_id = 41;
  task_id = 73;
}

abbrev asking : AuthState
asking = record { principal = none; request_auth_context = true }

abbrev leaving : UserPayload
leaving = record {
  user_name = some 20;
  external_id = none;
  display_name = none;
  emails = none;
  active = some false;
}

deprovisioned_example :
    Gone hash 5 9 11 120 asking (update_user name (moment 110) 1 leaving start)
    × Gone hash 5 9 11 120 asking (delete_user name (moment 110) 1 start)
deprovisioned_example =
    deprovisioned name hash (moment 110) 9 11 120 asking 1 leaving alice start refl refl refl

users-NamesDistinct_example :
    NamesDistinct (create_user name (moment 110) 9 leaving start).1.users
    × NamesDistinct (update_user name (moment 110) 1 leaving start).1.users
    × NamesDistinct (delete_user name (moment 110) 1 start).1.users
unfolding find_by_user_name
users-NamesDistinct_example =
    users-NamesDistinct name (moment 110) 9 1 leaving start (refl, (refl, tt))

-- The owner 5, dropped from the group, is no member of the organisation any more.
sync-get_membership_example :
    let (g', s') =
      sync_group_members name start.users team (some 2 ∷ some 8 ∷ []) start.entitlements in
    (g'.members ≡ 1021 ∷ []) × (get_membership s' 9 5 ≡ none)
sync-get_membership_example =
    sync-get_membership name start.users team (some 2 ∷ some 8 ∷ []) start.entitlements 9 5
