-- ===== src/Provisioning/Scim/Groups/Laws.antt =====
-- The memberships that a group's replacement of its members leaves.
use loom_unified_agentic_cod.Base.{
  ℕ, ◌≡◌, sym, ap, ◌∙◌, inl, inr, not, ◌&&◌, Option, none, some, List, [], ◌∷◌, ◌++◌, append-nil,
  append_assoc, arith, ◌==◌, if◌then◌else◌, Bool-cases, Option-cases, contains,
}
use loom_unified_agentic_cod.Base.Dict.{Dict, lookup}
use loom_unified_agentic_cod.Business.Entitlements.{
  EntitlementService, remove_membership, get_membership,
}
use loom_unified_agentic_cod.Business.Entitlements.Members.{
  get_membership-add, get_membership-remove,
}
use loom_unified_agentic_cod.Provisioning.Scim.{ScimUser, ScimGroup, harness_user_id, given}
use loom_unified_agentic_cod.Provisioning.Scim.Groups.{
  remove_dropped, developer_of, ensure_member, resolve, add_members, sync_group_members,
}

ensure-get :
    (org x o u : ℕ) (s : EntitlementService)
    → get_membership (ensure_member org x s) o u ≡ (
        if o == org && u == x
        then some (given (get_membership s o u) (developer_of org u))
        else get_membership s o u)
unfolding ensure_member
ensure-get org x o u s = elim (Option-cases (get_membership s org x)) [
  | inl e ↦ ground (arith, get_membership-add s (developer_of org x) o u, e)
  | inr (m, e) ↦ ground (arith, e)
]

dropped-get :
    (org : ℕ) (prev members : List ℕ) (o u : ℕ) (s : EntitlementService)
    → get_membership (remove_dropped org prev members s) o u ≡ (
        if o == org && contains u prev && not (contains u members)
        then none
        else get_membership s o u)
unfolding remove_dropped
dropped-get org [] members o u s = ground arith
dropped-get org (x ∷ prev) members o u s = elim (Bool-cases (contains x members)) [
  | inl e ↦ ground (arith, dropped-get org prev members o u s, e)
  | inr e ↦ ground (
    arith,
    dropped-get org prev members o u (remove_membership org x s),
    get_membership-remove s o u org x,
    e,
  )
]

module _ (scim_name : ℕ → ℕ) (org : ℕ) (users : Dict ScimUser) where
  added-members :
      (refs : List (Option ℕ)) (ms : List ℕ) (s : EntitlementService)
      → (add_members scim_name org users refs (ms, s)).0 ≡ ms ++ resolve scim_name users refs
  unfolding add_members
  added-members [] ms s = sym (append-nil ms)
  added-members (none ∷ refs) ms s = added-members refs ms s
  added-members (some id ∷ refs) ms s = elim (Option-cases (lookup id users)) [
    | inl e ↦ rw (add_members, resolve, e) (added-members refs ms s)
    | inr (u, e) ↦
        let user = harness_user_id scim_name u in
        rw (add_members, resolve, e)
          (added-members refs (ms ++ user ∷ []) (ensure_member org user s)
            ∙ append_assoc ms (user ∷ []) (resolve scim_name users refs))
  ]

  added-get :
      (refs : List (Option ℕ)) (ms : List ℕ) (o u : ℕ) (s : EntitlementService)
      → get_membership (add_members scim_name org users refs (ms, s)).1 o u ≡ (
          if o == org && contains u (resolve scim_name users refs)
          then some (given (get_membership s o u) (developer_of org u))
          else get_membership s o u)
  unfolding add_members
  added-get [] ms o u s = ground arith
  added-get (none ∷ refs) ms o u s = added-get refs ms o u s
  added-get (some id ∷ refs) ms o u s = elim (Option-cases (lookup id users)) [
    | inl e ↦ rw (add_members, resolve, e) (added-get refs ms o u s)
    | inr (x, e) ↦
        let user = harness_user_id scim_name x in
        rw (add_members, resolve, e)
          (ground (
            arith,
            added-get refs (ms ++ user ∷ []) o u (ensure_member org user s),
            ensure-get org user o u s,
          ))
  ]

-- Replacing the members of a group replaces the list by the users that the references name, gives each of
-- them a membership of the group's organisation, the one there is or else a developer's, takes away that of
-- every other previous member, whatever its role, and changes no other membership.
pub sync-get_membership :
    (scim_name : ℕ → ℕ) (users : Dict ScimUser) (g : ScimGroup) (refs : List (Option ℕ))
    (s : EntitlementService) (org user : ℕ)
    → let members = resolve scim_name users refs in
      let (g', s') = sync_group_members scim_name users g refs s in
      let old = get_membership s org user in
      (g'.members ≡ members)
      × (get_membership s' org user ≡ (
          if not (org == g.org_id)
          then old
          else if contains user members
          then some (given old (developer_of org user))
          else if contains user g.members
          then none
          else old))
unfolding sync_group_members
sync-get_membership scim_name users g refs s org user =
    let ms = added-members scim_name g.org_id users refs [] s in
    let s1 = (add_members scim_name g.org_id users refs ([], s)).1 in
    let d = dropped-get g.org_id g.members (resolve scim_name users refs) org user s1 in
    let a = added-get scim_name g.org_id users refs [] org user s in
    (
      ms,
      ap (λ l. get_membership (remove_dropped g.org_id g.members l s1) org user) ms
          ∙ ground (arith, d, a),
    )
