-- ===== src/Provisioning/Scim/Names.antt =====
-- No two users of an organisation have the same name.
use loom_unified_agentic_cod.Base.{
  ℕ, ◌≡◌, refl, sym, subst, inl, inr, false, ◌&&◌, Option, none, some, [], ◌∷◌, arith, ◌==◌,
  if_both, if_cases, Option-cases, is_some,
}
use loom_unified_agentic_cod.Base.Dict.{Dict, lookup, insert}
use loom_unified_agentic_cod.Auth.ApiTokens.{ApiTokenStore, revoke_all_for_user}
use loom_unified_agentic_cod.Provisioning.Scim.{
  ScimUser, DeprovisionReason, active_false, by_delete, ScimProvisioner, Moment, Answer,
  UserPayload, find_by_user_name, create_user, create_named, get_user, harness_user_id, persist,
  deprovision_user, deprovision_revoked, after_revocation, changed_user, update_user, update_found,
  delete_found, delete_user, new_user,
}
use loom_unified_agentic_cod.Provisioning.Scim.Laws.{keep-persist}

abbrev pub NamesDistinct : Dict ScimUser → Type 0
NamesDistinct [] = Unit {0}
NamesDistinct ((k, u) ∷ d) = (find_by_user_name u.user_name u.org_id d ≡ none) × NamesDistinct d

find-insert :
    (name org k : ℕ) (u : ScimUser) (d : Dict ScimUser)
    → find_by_user_name name org d ≡ none
    → (u.user_name == name && u.org_id == org) ≡ false
    → find_by_user_name name org (insert k u d) ≡ none
unfolding find_by_user_name
find-insert name org k u [] h e = ground (arith, e)
find-insert name org k u ((j, w) ∷ d) h e = ground (arith, find-insert name org k u d, h, e)

insert-new :
    (k : ℕ) (u : ScimUser) (d : Dict ScimUser)
    → find_by_user_name u.user_name u.org_id d ≡ none
    → NamesDistinct d
    → NamesDistinct (insert k u d)
unfolding find_by_user_name
insert-new k u [] h n = ground arith
insert-new k u ((j, w) ∷ d) h n =
    ground (arith, insert-new k u d, find-insert w.user_name w.org_id k u d n.0, h)

abbrev SameName : ScimUser → ScimUser → Type 0
SameName u u' = (u'.user_name ≡ u.user_name) × (u'.org_id ≡ u.org_id)

find-replace :
    (name org k : ℕ) (u u' : ScimUser) (d : Dict ScimUser)
    → lookup k d ≡ some u
    → SameName u u'
    → find_by_user_name name org d ≡ none
    → find_by_user_name name org (insert k u' d) ≡ none
unfolding find_by_user_name
find-replace name org k u u' [] e q h = ground arith
find-replace name org k u u' ((j, w) ∷ d) e q h =
    ground (arith, find-replace name org k u u' d, e, q, h)

insert-replace :
    (k : ℕ) (u u' : ScimUser) (d : Dict ScimUser)
    → lookup k d ≡ some u
    → SameName u u'
    → NamesDistinct d
    → NamesDistinct (insert k u' d)
insert-replace k u u' [] e q n = ground arith
insert-replace k u u' ((j, w) ∷ d) e q n =
    ground (arith, insert-replace k u u' d, find-replace w.user_name w.org_id k u u' d, e, q, n)

module _ (scim_name : ℕ → ℕ) (m : Moment) where
  create-names :
      (org name : ℕ) (p : UserPayload) (s : ScimProvisioner)
      → NamesDistinct s.users
      → NamesDistinct (create_named scim_name m org name p s).1.users
  unfolding create_named new_user
  create-names org name p s n =
      if_cases (λ (r : Answer × ScimProvisioner). NamesDistinct r.1.users)
        (is_some (find_by_user_name name org s.users)) _ _ (λ e. n)
        (λ e.
          subst NamesDistinct (sym (keep-persist m _).0)
            (insert-new m.fresh_id (new_user scim_name m org name p) s.users (ground (arith, e)) n))

  deprovision-users :
      (org : ℕ) (u : ScimUser) (reason : DeprovisionReason) (s : ScimProvisioner) (o : Option ℕ)
      (t : ApiTokenStore)
      → (after_revocation scim_name m org u reason s o t).1.users ≡ s.users
  unfolding after_revocation deprovision_revoked
  deprovision-users org u reason s none t = refl
  deprovision-users org u reason s (some n) t = (keep-persist m _).0

  deprovision-names :
      (org : ℕ) (u : ScimUser) (reason : DeprovisionReason) (s : ScimProvisioner)
      → NamesDistinct s.users
      → NamesDistinct (deprovision_user scim_name m org u reason s).1.users
  unfolding deprovision_user
  deprovision-names org u reason s n =
      let call =
        revoke_all_for_user m.admin m.tokens_writable m.now (harness_user_id scim_name u)
          s.tokens in
      subst NamesDistinct (sym (deprovision-users org u reason s call.0 call.1)) n

  update-names :
      (id : ℕ) (p : UserPayload) (u : ScimUser) (s : ScimProvisioner)
      → get_user id s ≡ some u
      → NamesDistinct s.users
      → NamesDistinct (update_found scim_name m id p u s).1.users
  unfolding update_found
  update-names id p u s e n =
      let k = (keep-persist m (record s { users = insert id (changed_user m p u) s.users })).0 in
      let n' =
        subst NamesDistinct (sym k)
          (insert-replace id u (changed_user m p u) s.users e (refl, refl) n) in
      if_both (λ (r : Answer × ScimProvisioner). NamesDistinct r.1.users)
        (changed_user m p u).active _ _ n'
        (deprovision-names u.org_id (changed_user m p u) active_false
          (persist m (record s { users = insert id (changed_user m p u) s.users })) n')

  -- Where no two users of an organisation have the same name, creating, changing and deleting a user keep
  -- it so, whatever the request says and whether or not it is refused.
  pub users-NamesDistinct :
      (org id : ℕ) (p : UserPayload) (s : ScimProvisioner)
      → NamesDistinct s.users
      → NamesDistinct (create_user scim_name m org p s).1.users
        × NamesDistinct (update_user scim_name m id p s).1.users
        × NamesDistinct (delete_user scim_name m id s).1.users
  unfolding create_user update_user delete_user delete_found
  users-NamesDistinct org id p s n = (
    elim (Option-cases p.user_name) [
      | inl e ↦ rw (create_user, e) n
      | inr (name, e) ↦ rw (create_user, e) (create-names org name p s n)
    ],
    elim (Option-cases (get_user id s)) [
      | inl e ↦ rw (update_user, e) n
      | inr (u, e) ↦ rw (update_user, e) (update-names id p u s e n)
    ],
    elim (Option-cases (get_user id s)) [
      | inl e ↦ rw (delete_user, e) n
      | inr (u, e) ↦
          rw (delete_user, e)
            (deprovision-names u.org_id (record u { active = false }) by_delete
              (record s { users = insert id (record u { active = false }) s.users })
              (insert-replace id u (record u { active = false }) s.users e (refl, refl) n))
    ],
  )
