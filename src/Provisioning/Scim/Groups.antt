-- ===== src/Provisioning/Scim/Groups.antt =====
-- loom/scim/provisioning.py: groups, whose members are given memberships of the group's organisation.
pub mod Laws
use loom_unified_agentic_cod.Base.{
  ℕ, zero, suc, ◌+◌, ◌-◌, ◌*◌, ◌/◌, ◌%◌, ◌^◌, min, max, ◌≤◌, ◌<◌, ◌≡◌, refl, sym, ap, subst, ◌∙◌,
  ◌≢◌, ◌↔◌, ◌⊎◌, inl, inr, Bool, true, false, not, ◌&&◌, ◌||◌, Option, none, some, List, [], ◌∷◌,
  ◌++◌, map, append-nil, append_assoc, arith, ltb, leb, ◌==◌, if◌then◌else◌, ltb→lt, lt→ltb, leb→le,
  le→leb, ==_iff, tests, if_both, if_cases, Bool-cases, Option-cases, is_some, is_none, contains,
  Distinct, contains-append, Distinct-snoc, length, select, any_of, all_of, sum_of, All,
  length-append, length-select-le, sum_of-append, select-append,
}
use loom_unified_agentic_cod.Base.Dict.{Dict, lookup, insert, erase, values, keys}
use loom_unified_agentic_cod.Business.Models.{Membership, developer}
use loom_unified_agentic_cod.Business.Entitlements.{
  EntitlementService, add_membership, remove_membership, get_membership,
}
use loom_unified_agentic_cod.Provisioning.Scim.{
  ScimUser, ScimGroup, ScimProvisioner, Moment, Answer, done, display_name_required,
  group_not_found, persist, harness_user_id, given,
}

-- The attributes of a request; the outer `none` says that the key is absent, and a reference without a
-- value is `none`.
pub record GroupPayload : Type 0 where
  pub display_name : Option ℕ
  pub members : Option (List (Option ℕ))

-- `removed` goes over `prev_members - set(group.members)`.
pub remove_dropped : ℕ → List ℕ → List ℕ → EntitlementService → EntitlementService
remove_dropped org [] members s = s
remove_dropped org (user ∷ prev) members s =
    remove_dropped org prev members
      (if contains user members then s else remove_membership org user s)

abbrev developer_of : ℕ → ℕ → Membership
developer_of org user = record { user_id = user; org_id = org; role = developer }

pub ensure_member : ℕ → ℕ → EntitlementService → EntitlementService
ensure_member org user s =
    if is_some (get_membership s org user) then s else add_membership (developer_of org user) s

module _ (scim_name : ℕ → ℕ) where
  -- The identifiers that the references resolve to.
  abbrev pub resolve : Dict ScimUser → List (Option ℕ) → List ℕ
  resolve users [] = []
  resolve users (none ∷ refs) = resolve users refs
  resolve users (some id ∷ refs) = elim (lookup id users) [
    | none ↦ resolve users refs
    | some u ↦ harness_user_id scim_name u ∷ resolve users refs
  ]

  -- The loop over the references: the members so far, and the memberships.
  pub add_members :
      ℕ
      → Dict ScimUser
      → List (Option ℕ)
      → List ℕ × EntitlementService
      → List ℕ × EntitlementService
  unfolding ensure_member
  add_members org users [] s = s
  add_members org users (none ∷ refs) s = add_members org users refs s
  add_members org users (some id ∷ refs) (members, s) = elim (lookup id users) [
    | none ↦ add_members org users refs (members, s)
    | some u ↦
        let user = harness_user_id scim_name u in
        add_members org users refs (members ++ user ∷ [], ensure_member org user s)
  ]

  pub sync_group_members :
      Dict ScimUser
      → ScimGroup
      → List (Option ℕ)
      → EntitlementService
      → ScimGroup × EntitlementService
  unfolding add_members remove_dropped
  sync_group_members users g refs s =
      let (members, s') = add_members g.org_id users refs ([], s) in
      (record g { members = members }, remove_dropped g.org_id g.members members s')

  create_named : Moment → ℕ → ℕ → GroupPayload → ScimProvisioner → Answer × ScimProvisioner
  unfolding sync_group_members
  create_named m org name p s =
      let g : ScimGroup = record {
        id = m.fresh_id;
        org_id = org;
        display_name = name;
        members = [];
        updated_at = m.now;
      } in
      let (g', es) = sync_group_members s.users g (given p.members []) s.entitlements in
      (done, persist m (record s { groups = insert m.fresh_id g' s.groups; entitlements = es }))

  pub create_group : Moment → ℕ → GroupPayload → ScimProvisioner → Answer × ScimProvisioner
  unfolding create_named
  create_group m org p s = elim p.display_name [
    | none ↦ (display_name_required, s)
    | some name ↦ create_named m org name p s
  ]

  synced :
      Dict ScimUser
      → ScimGroup
      → Option (List (Option ℕ))
      → EntitlementService
      → ScimGroup × EntitlementService
  unfolding sync_group_members
  synced users g none s = (g, s)
  synced users g (some refs) s = sync_group_members users g refs s

  update_found : Moment → ℕ → GroupPayload → ScimGroup → ScimProvisioner → ScimProvisioner
  unfolding synced
  update_found m id p g s =
      let g1 : ScimGroup = record g { display_name = given p.display_name g.display_name } in
      let (g2, es) = synced s.users g1 p.members s.entitlements in
      let g3 : ScimGroup = record g2 { updated_at = m.now } in
      persist m (record s { groups = insert id g3 s.groups; entitlements = es })

  pub update_group : Moment → ℕ → GroupPayload → ScimProvisioner → Answer × ScimProvisioner
  unfolding update_found
  update_group m id p s = elim (lookup id s.groups) [
    | none ↦ (group_not_found, s)
    | some g ↦ (done, update_found m id p g s)
  ]

pub delete_group : Moment → ℕ → ScimProvisioner → Answer × ScimProvisioner
delete_group m id s = elim (lookup id s.groups) [
  | none ↦ (group_not_found, s)
  | some g ↦ (done, persist m (record s { groups = erase id s.groups }))
]
