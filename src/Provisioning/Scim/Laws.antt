-- ===== src/Provisioning/Scim/Laws.antt =====
-- What a deprovisioned user has left, which is nothing.
use loom_unified_agentic_cod.Base.{
  ℕ, ◌≡◌, refl, sym, ap, subst, ◌∙◌, inl, inr, Bool, true, false, Option, none, some, [], ◌∷◌,
  arith, ◌==◌, if_both, Bool-cases, Option-cases, is_some,
}
use loom_unified_agentic_cod.Base.Dict.{Dict, lookup, insert}
use loom_unified_agentic_cod.Auth.Context.{AuthState}
use loom_unified_agentic_cod.Auth.ApiTokens.{
  ApiTokenRecord, ApiTokenStore, verify, revoke_all_for_user,
}
use loom_unified_agentic_cod.Auth.ApiTokens.Revocation.{count-some, revoked_all}
use loom_unified_agentic_cod.Business.Models.{Membership}
use loom_unified_agentic_cod.Business.Entitlements.{
  EntitlementService, remove_membership, get_membership,
}
use loom_unified_agentic_cod.Business.Entitlements.Members.{get_membership-remove, membership_cases}
use loom_unified_agentic_cod.Provisioning.Scim.{
  ScimUser, DeprovisionReason, active_false, by_delete, ScimProvisioner, Moment, Answer, done,
  UserPayload, get_user, remove_everywhere, harness_user_id, persist, deprovision_user,
  deprovision_revoked, after_revocation, changed_user, update_found, delete_found, update_user,
  delete_user,
}

remove-none :
    (user org org' : ℕ) (s : EntitlementService)
    → get_membership s org user ≡ none
    → get_membership (remove_membership org' user s) org user ≡ none
remove-none user org org' s h = ground (arith, get_membership-remove s org user org' user)

remove-here :
    (user org : ℕ) (s : EntitlementService)
    → get_membership (remove_membership org user s) org user ≡ none
remove-here user org s = ground (arith, get_membership-remove s org user org user)

stays-none :
    (user org : ℕ) (ms : Dict (Dict Membership)) (s : EntitlementService)
    → get_membership s org user ≡ none
    → get_membership (remove_everywhere user ms s) org user ≡ none
unfolding remove_everywhere
stays-none user org [] s h = h
stays-none user org ((o, d) ∷ ms) s h = stays-none user org ms _ (
    if_both (λ t. get_membership t org user ≡ none) (is_some (lookup user d)) _ _
      (remove-none user org o s h) h)

found-removed :
    (user org : ℕ) (ms : Dict (Dict Membership)) (s : EntitlementService) (d : Dict Membership)
    → lookup org ms ≡ some d
    → is_some (lookup user d) ≡ true
    → get_membership (remove_everywhere user ms s) org user ≡ none
unfolding remove_everywhere
found-removed user org [] s d e h = ground arith
found-removed user org ((o, d') ∷ ms) s d e h = elim (Bool-cases (org == o)) [
  | inl q ↦ stays-none user org ms _ (ground (arith, remove-here user org s, q, e, h))
  | inr q ↦ found-removed user org ms _ d (ground (arith, q, e)) h
]

everywhere-none :
    (user org : ℕ) (s : EntitlementService)
    → get_membership (remove_everywhere user s.memberships s) org user ≡ none
everywhere-none user org s = elim (membership_cases s org user) [
  | inl e ↦ stays-none user org s.memberships s e
  | inr (d, e, h) ↦ found-removed user org s.memberships s d e h
]

-- The user is the owner of the token that was accepted.
abbrev pub opens_as : ℕ → Option ApiTokenRecord → Bool
opens_as user none = false
opens_as user (some r) = r.user_id == user

module _ (h : ℕ → ℕ) (w : Bool) (now user : ℕ) (s : ApiTokenStore) where
  not-opens :
      (token later : ℕ) (a : AuthState)
      → opens_as user (verify h token later (revoke_all_for_user true w now user s).1 a).0 ≡ false
  not-opens token later a =
      let o = (verify h token later (revoke_all_for_user true w now user s).1 a).0 in
      elim (Option-cases o) [
        | inl e ↦ ap (opens_as user) e
        | inr (r, e) ↦
            ap (opens_as user) e ∙ ground (arith, revoked_all h w now user s token later a r e)
      ]

-- The call is done, the user is a member of no organisation, and no token opens as the user.
abbrev pub Gone : (ℕ → ℕ) → ℕ → ℕ → ℕ → ℕ → AuthState → Answer × ScimProvisioner → Type 0
Gone h user org token later a r =
    (r.0 ≡ done)
    × (get_membership r.1.entitlements org user ≡ none)
    × (opens_as user (verify h token later r.1.tokens a).0 ≡ false)

-- Writing the files changes nothing else.
pub keep-persist :
    (m : Moment) (s : ScimProvisioner)
    → ((persist m s).users ≡ s.users)
      × ((persist m s).entitlements ≡ s.entitlements)
      × ((persist m s).tokens ≡ s.tokens)
unfolding persist
keep-persist m s =
    if_both
      (λ (t : ScimProvisioner).
        (t.users ≡ s.users) × (t.entitlements ≡ s.entitlements) × (t.tokens ≡ s.tokens))
      m.writable _ _ (refl, refl, refl) (refl, refl, refl)

module _ (scim_name h : ℕ → ℕ) (m : Moment) (in_org token later : ℕ) (a : AuthState) where
  revoked-Gone :
      (org : ℕ) (u : ScimUser) (reason : DeprovisionReason) (s : ScimProvisioner)
      → let user = harness_user_id scim_name u in
        let t = (revoke_all_for_user true m.tokens_writable m.now user s.tokens).1 in
        Gone h user in_org token later a
          (done, deprovision_revoked scim_name m org u reason (record s { tokens = t }))
  unfolding deprovision_revoked
  revoked-Gone org u reason s =
      let user = harness_user_id scim_name u in
      let (_, es, ts) = keep-persist m _ in
      (
        refl,
        ap (λ t. get_membership t in_org user) es ∙ everywhere-none user in_org s.entitlements,
        ap (λ t. opens_as user (verify h token later t a).0) ts
            ∙ not-opens h m.tokens_writable m.now user s.tokens token later a,
      )

  deprovision-Gone :
      (org : ℕ) (u : ScimUser) (reason : DeprovisionReason) (s : ScimProvisioner)
      → m.admin ≡ true
      → Gone h
          (harness_user_id scim_name u)
          in_org
          token
          later
          a
          (deprovision_user scim_name m org u reason s)
  unfolding deprovision_user after_revocation
  deprovision-Gone org u reason s e =
      let user = harness_user_id scim_name u in
      let call = λ (b : Bool). revoke_all_for_user b m.tokens_writable m.now user s.tokens in
      let Q = λ (n : Option ℕ) (t : ApiTokenStore).
        Gone h user in_org token later a (after_revocation scim_name m org u reason s n t) in
      subst (λ b. Q (call b).0 (call b).1) (sym e)
        (subst (λ n. Q n (call true).1) (sym (count-some m.tokens_writable m.now user s.tokens))
          (revoked-Gone org u reason s))

  update-Gone :
      (id : ℕ) (p : UserPayload) (u : ScimUser) (s : ScimProvisioner)
      → m.admin ≡ true
      → p.active ≡ some false
      → Gone h
          (harness_user_id scim_name u)
          in_org
          token
          later
          a
          (update_found scim_name m id p u s)
  unfolding update_found
  update-Gone id p u s e f = rw (f) (
      deprovision-Gone u.org_id (record (changed_user m p u) { active = false }) active_false
        (persist m
          (record s { users = insert id (record (changed_user m p u) { active = false }) s.users }))
        e)

  -- Once a user is set inactive, or deleted, while the administration of tokens is enabled, the user is a
  -- member of no organisation and no token, at any time, opens as the user, whatever tokens and
  -- memberships the user had.
  pub deprovisioned :
      (id : ℕ) (p : UserPayload) (u : ScimUser) (s : ScimProvisioner)
      → m.admin ≡ true
      → p.active ≡ some false
      → get_user id s ≡ some u
      → Gone h (harness_user_id scim_name u) in_org token later a (update_user scim_name m id p s)
        × Gone h (harness_user_id scim_name u) in_org token later a (delete_user scim_name m id s)
  unfolding update_user delete_user delete_found
  deprovisioned id p u s e f g = (
    rw (update_user, g) (update-Gone id p u s e f),
    rw (delete_user, g)
        (deprovision-Gone u.org_id (record u { active = false }) by_delete
          (record s { users = insert id (record u { active = false }) s.users }) e),
  )
