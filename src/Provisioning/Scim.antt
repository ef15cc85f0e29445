-- ===== src/Provisioning/Scim.antt =====
-- loom/scim/provisioning.py: the users that an identity provider creates, changes and takes away, with the
-- registry of API tokens, the memberships and the audit log that a deprovisioning reaches. Texts are
-- numbers, an empty text is `none`; `scim_name` is the text `scim_` before a user name.
pub mod Groups
pub mod Tasks
pub mod Files
pub mod Laws
pub mod Names
mod Tests
use loom_unified_agentic_cod.Base.{
  ℕ, zero, suc, ◌+◌, ◌-◌, ◌*◌, ◌/◌, ◌%◌, ◌^◌, min, max, ◌≤◌, ◌<◌, ◌≡◌, refl, sym, ap, subst, ◌∙◌,
  ◌≢◌, ◌↔◌, ◌⊎◌, inl, inr, Bool, true, false, not, ◌&&◌, ◌||◌, Option, none, some, List, [], ◌∷◌,
  ◌++◌, map, append-nil, append_assoc, arith, ltb, leb, ◌==◌, if◌then◌else◌, ltb→lt, lt→ltb, leb→le,
  le→leb, ==_iff, tests, if_both, if_cases, Bool-cases, Option-cases, is_some, is_none, contains,
  Distinct, contains-append, Distinct-snoc, length, select, any_of, all_of, sum_of, All,
  length-append, length-select-le, sum_of-append, select-append,
}
use loom_unified_agentic_cod.Base.Dict.{Dict, lookup, insert, erase, values, keys}
use loom_unified_agentic_cod.Auth.ApiTokens.{ApiTokenStore, revoke_all_for_user}
use loom_unified_agentic_cod.Business.Models.{Membership}
use loom_unified_agentic_cod.Business.Entitlements.{EntitlementService, remove_membership}
use loom_unified_agentic_cod.Business.AuditLog.{
  AuditAction, member_invited, member_deprovisioned, AuditLogEntry, AuditLogger, record_entry,
}

pub record ScimUser : Type 0 where
  pub id : ℕ
  pub org_id : ℕ
  pub external_id : Option ℕ
  pub user_name : ℕ
  pub display_name : ℕ
  pub emails : List ℕ
  pub active : Bool
  pub updated_at : ℕ

pub record ScimGroup : Type 0 where
  pub id : ℕ
  pub org_id : ℕ
  pub display_name : ℕ
  pub members : List ℕ
  pub updated_at : ℕ

pub data DeprovisionReason : Type 0 where
  active_false by_delete : DeprovisionReason

pub data TaskStatus : Type 0 where
  pending finalized : TaskStatus

pub record DeprovisionTask : Type 0 where
  pub id : ℕ
  pub user_id : ℕ
  pub scim_user_id : ℕ
  pub org_id : ℕ
  pub reason : DeprovisionReason
  pub enqueued_at : ℕ
  pub sla_deadline : ℕ
  pub finalized_at : Option ℕ
  pub status : TaskStatus

-- The three JSONL files; a line that is blank or unreadable is `none`.
pub record ScimFiles : Type 0 where
  pub users_file : List (Option ScimUser)
  pub groups_file : List (Option ScimGroup)
  pub depro_file : List (Option DeprovisionTask)

-- The provisioner, and with it the process-wide registry of tokens and audit log that it calls.
pub record ScimProvisioner : Type 0 where
  pub users : Dict ScimUser
  pub groups : Dict ScimGroup
  pub deprovisions : Dict DeprovisionTask
  pub entitlements : EntitlementService
  pub files : ScimFiles
  pub tokens : ApiTokenStore
  pub audit : AuditLogger

-- What a call meets: the clock, whether the administration of tokens is enabled, which files can be
-- written, and the random identifiers it draws.
pub record Moment : Type 0 where
  pub now : ℕ
  pub admin : Bool
  pub writable : Bool
  pub tokens_writable : Bool
  pub audit_writable : Bool
  pub fresh_id : ℕ
  pub audit_id : ℕ
  pub task_id : ℕ

-- The answer of an operation; the last is the exception of the registry of tokens.
pub data Answer : Type 0 where
  done user_name_required already_exists user_not_found : Answer
  display_name_required group_not_found administration_disabled : Answer

abbrev lines_of {ℓ} : {A : Type ℓ} → Dict A → List (Option A)
lines_of [] = []
lines_of ((_, x) ∷ d) = some x ∷ lines_of d

-- `_persist`; `writable` is false where the first of the three writes raises.
pub persist : Moment → ScimProvisioner → ScimProvisioner
persist m s =
    if m.writable
    then record s {
      files = record {
        users_file = lines_of s.users;
        groups_file = lines_of s.groups;
        depro_file = lines_of s.deprovisions;
      };
    }
    else s

-- The attributes of a request; the outer `none` of the last three says that the key is absent, and an
-- address without a value is `none`.
pub record UserPayload : Type 0 where
  pub user_name : Option ℕ
  pub external_id : Option ℕ
  pub display_name : Option ℕ
  pub emails : Option (List (Option ℕ))
  pub active : Option Bool

abbrev given {ℓ} : {A : Type ℓ} → Option A → A → A
given none x = x
given (some y) x = y

-- `[e.get("value") for e in ... if ... and e.get("value")]`
abbrev values_given : List (Option ℕ) → List ℕ
values_given [] = []
values_given (none ∷ es) = values_given es
values_given (some e ∷ es) = e ∷ values_given es

pub find_by_user_name : ℕ → ℕ → Dict ScimUser → Option ScimUser
find_by_user_name name org [] = none
find_by_user_name name org ((k, u) ∷ d) =
    if u.user_name == name && u.org_id == org then some u else find_by_user_name name org d

abbrev pub get_user : ℕ → ScimProvisioner → Option ScimUser
get_user id s = lookup id s.users

-- An entry of the audit log; the actor `scim` is 0.
audited : Moment → ℕ → AuditAction → ℕ → AuditLogger → AuditLogger
audited m org action target l =
    let e : AuditLogEntry = record {
      id = m.audit_id;
      org_id = org;
      actor_id = 0;
      action = action;
      target = target;
      timestamp = m.now;
    } in
    (record_entry m.audit_writable e l).1

-- The loop over the snapshot of the memberships.
pub remove_everywhere : ℕ → Dict (Dict Membership) → EntitlementService → EntitlementService
remove_everywhere user [] s = s
remove_everywhere user ((org, members) ∷ rest) s =
    remove_everywhere user rest
      (if is_some (lookup user members) then remove_membership org user s else s)

abbrev pub deprovision_sla_seconds : ℕ
deprovision_sla_seconds = 300

abbrev pub changed_user : Moment → UserPayload → ScimUser → ScimUser
changed_user m p u = record u {
  display_name = given p.display_name u.display_name;
  emails = elim p.emails [ none ↦ u.emails | some es ↦ values_given es ];
  active = given p.active u.active;
  updated_at = m.now;
}

module _ (scim_name : ℕ → ℕ) where
  abbrev pub harness_user_id : ScimUser → ℕ
  harness_user_id u = given u.external_id (scim_name u.user_name)

  new_user : Moment → ℕ → ℕ → UserPayload → ScimUser
  new_user m org name p = record {
    id = m.fresh_id;
    org_id = org;
    external_id = p.external_id;
    user_name = name;
    display_name = given p.display_name name;
    emails = values_given (given p.emails []);
    active = given p.active true;
    updated_at = m.now;
  }

  create_named : Moment → ℕ → ℕ → UserPayload → ScimProvisioner → Answer × ScimProvisioner
  unfolding new_user persist audited
  create_named m org name p s =
      if is_some (find_by_user_name name org s.users)
      then (already_exists, s)
      else (let u = new_user m org name p in
          let s' = persist m (record s { users = insert m.fresh_id u s.users }) in
          (done, record s' { audit = audited m org member_invited (harness_user_id u) s'.audit }))

  pub create_user : Moment → ℕ → UserPayload → ScimProvisioner → Answer × ScimProvisioner
  unfolding create_named
  create_user m org p s = elim p.user_name [
    | none ↦ (user_name_required, s)
    | some name ↦ create_named m org name p s
  ]

  abbrev new_task : Moment → ℕ → ScimUser → DeprovisionReason → DeprovisionTask
  new_task m org u reason = record {
    id = m.task_id;
    user_id = harness_user_id u;
    scim_user_id = u.id;
    org_id = org;
    reason = reason;
    enqueued_at = m.now;
    sla_deadline = m.now + deprovision_sla_seconds;
    finalized_at = none;
    status = pending;
  }

  -- `deprovision_user` once the tokens are revoked.
  deprovision_revoked :
      Moment → ℕ → ScimUser → DeprovisionReason → ScimProvisioner → ScimProvisioner
  unfolding remove_everywhere audited persist
  deprovision_revoked m org u reason s =
      let user = harness_user_id u in
      persist m (record s {
        entitlements = remove_everywhere user s.entitlements.memberships s.entitlements;
        audit = audited m org member_deprovisioned user s.audit;
        deprovisions = insert m.task_id (new_task m org u reason) s.deprovisions;
      })

  after_revocation :
      Moment
      → ℕ
      → ScimUser
      → DeprovisionReason
      → ScimProvisioner
      → Option ℕ
      → ApiTokenStore
      → Answer × ScimProvisioner
  unfolding deprovision_revoked
  after_revocation m org u reason s none tokens = (administration_disabled, s)
  after_revocation m org u reason s (some n) tokens =
      (done, deprovision_revoked m org u reason (record s { tokens = tokens }))

  pub deprovision_user :
      Moment → ℕ → ScimUser → DeprovisionReason → ScimProvisioner → Answer × ScimProvisioner
  unfolding after_revocation
  deprovision_user m org u reason s =
      let (revoked, tokens) =
        revoke_all_for_user m.admin m.tokens_writable m.now (harness_user_id u) s.tokens in
      after_revocation m org u reason s revoked tokens

  update_found : Moment → ℕ → UserPayload → ScimUser → ScimProvisioner → Answer × ScimProvisioner
  unfolding persist deprovision_user
  update_found m id p u s =
      let u' = changed_user m p u in
      let s' = persist m (record s { users = insert id u' s.users }) in
      if u'.active then (done, s') else deprovision_user m u'.org_id u' active_false s'

  pub update_user : Moment → ℕ → UserPayload → ScimProvisioner → Answer × ScimProvisioner
  unfolding update_found
  update_user m id p s = elim (get_user id s) [
    | none ↦ (user_not_found, s)
    | some u ↦ update_found m id p u s
  ]

  delete_found : Moment → ℕ → ScimUser → ScimProvisioner → Answer × ScimProvisioner
  unfolding deprovision_user
  delete_found m id u s =
      let u' : ScimUser = record u { active = false } in
      deprovision_user m u'.org_id u' by_delete (record s { users = insert id u' s.users })

  pub delete_user : Moment → ℕ → ScimProvisioner → Answer × ScimProvisioner
  unfolding delete_found
  delete_user m id s = elim (get_user id s) [
    | none ↦ (user_not_found, s)
    | some u ↦ delete_found m id u s
  ]
