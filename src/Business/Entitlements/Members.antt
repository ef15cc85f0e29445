-- ===== src/Business/Entitlements/Members.antt =====
-- Memberships: what a lookup finds after they change.
use loom_unified_agentic_cod.Base.{
  ℕ, ◌≡◌, ap, ◌⊎◌, inl, inr, true, is_some, ◌&&◌, none, some, arith, ◌==◌, if◌then◌else◌,
  Option-cases,
}
use loom_unified_agentic_cod.Base.Dict.{Dict, lookup, insert, erase, lookup-insert, lookup-erase}
use loom_unified_agentic_cod.Business.Models.{Membership, developer}
use loom_unified_agentic_cod.Business.Entitlements.{
  EntitlementService, members_of, add_membership, remove_membership, get_membership, get_role,
}

-- Adding a membership replaces that of the same user in the same organisation, and no other.
pub get_membership-add :
    (s : EntitlementService) (m : Membership) (org user : ℕ)
    → get_membership (add_membership m s) org user
      ≡ (if org == m.org_id && user == m.user_id then some m else get_membership s org user)
unfolding get_membership add_membership
get_membership-add s m org user =
    let d = members_of m.org_id s in
    ground (
      arith,
      lookup-insert org m.org_id (insert m.user_id m d) s.memberships,
      lookup-insert user m.user_id m d,
    )

-- Removing a membership takes that one away, and no other.
pub get_membership-remove :
    (s : EntitlementService) (org user org' user' : ℕ)
    → get_membership (remove_membership org' user' s) org user
      ≡ (if org == org' && user == user' then none else get_membership s org user)
unfolding get_membership remove_membership
get_membership-remove s org user org' user' = elim (Option-cases (lookup org' s.memberships)) [
  | inl e ↦ ground arith
  | inr (d, e) ↦
      ground
        (arith, lookup-insert org org' (erase user' d) s.memberships, lookup-erase user user' d)
]

-- A user who is added has the role of that membership, and one who is removed falls back to that of a
-- developer.
pub get_role-changes :
    (s : EntitlementService) (m : Membership)
    → (get_role (add_membership m s) m.org_id m.user_id ≡ m.role)
      × (get_role (remove_membership m.org_id m.user_id s) m.org_id m.user_id ≡ developer)
unfolding get_role
get_role-changes s m = (
  ground (arith, get_membership-add s m m.org_id m.user_id),
  ground (arith, get_membership-remove s m.org_id m.user_id m.org_id m.user_id),
)

-- A user is no member of an organisation, or the dict of its members has the user.
pub membership_cases :
    (s : EntitlementService) (org user : ℕ)
    → (get_membership s org user ≡ none)
      ⊎ ((d : Dict Membership) × (lookup org s.memberships ≡ some d)
          × (is_some (lookup user d) ≡ true))
unfolding get_membership
membership_cases s org user = elim (Option-cases (lookup org s.memberships)) [
  | inl e ↦ inl (ground (arith, e))
  | inr (d, e) ↦ elim (Option-cases (lookup user d)) [
    | inl q ↦ inl (ground (arith, e, q))
    | inr (m, q) ↦ inr (d, e, ap is_some q)
  ]
]
