-- ===== src/Api/RunAccess/Laws.antt =====
-- Who reaches a run.
use loom_unified_agentic_cod.Base.{
  ℕ, ◌≡◌, refl, sym, ap, subst, ◌∙◌, ◌≢◌, ◌↔◌, inl, inr, Bool, true, Option, none, some, [], ◌∷◌,
  arith, if◌then◌else◌, Bool-cases, Option-cases,
}
use loom_unified_agentic_cod.Auth.Context.{AuthenticatedPrincipal}
use loom_unified_agentic_cod.Business.Entitlements.{EntitlementService, get_role}
use loom_unified_agentic_cod.Business.Rbac.{
  Action, Outcome, can, granted, forbidden, org, authorize,
}
use loom_unified_agentic_cod.Business.Rbac.Laws.{InScope, authorize-granted_iff}
use loom_unified_agentic_cod.Api.RunAccess.{
  RunRecord, entry_for, not_found, run, same_org, check_role, access_run, require_run_access_in,
}

checked :
    (p : AuthenticatedPrincipal) (r x : RunRecord) (o : Outcome)
    → ((check_role p r o).0 ≡ run x) ↔ ((o ≡ granted) × (r ≡ x))
unfolding check_role
checked p r x granted = (λ h. ground arith, λ h. ground arith)
checked p r x (forbidden d) = (λ h. ground arith, λ h. ground arith)

same_org_iff :
    (p : AuthenticatedPrincipal) (r : RunRecord)
    → (same_org p r ≡ true) ↔ (r.org_id ≡ some p.org_id)
same_org_iff p r = elim (Option-cases r.org_id) [
  | inl e ↦ (λ h. ground arith, λ h. ground arith)
  | inr (o, e) ↦ (λ h. ground arith, λ h. ground arith)
]

found :
    (secure : Bool) (effective p : AuthenticatedPrincipal) (s : EntitlementService)
    (action : Action) (x r : RunRecord)
    → ((access_run secure effective p s action (some x)).0 ≡ run r) ↔ (
        (x ≡ r)
        × (x.org_id ≡ some p.org_id)
        × (can (get_role s p.org_id p.user_id) action ≡ true)
        × InScope secure effective (org p.org_id))
unfolding access_run
found secure effective p s action x r =
    let role = get_role s p.org_id p.user_id in
    let o = authorize secure effective role action (org p.org_id) in
    let c = checked p x r o in
    let g = authorize-granted_iff secure effective role action (org p.org_id) in
    let d = same_org_iff p x in
    elim (Bool-cases (same_org p x)) [
      | inl e ↦ (
        λ h.
            let (gr, eq) = c.0 (
              subst (λ b. (if b then check_role p x o else (not_found, entry_for p)).0 ≡ run r) e
                h) in
            (eq, d.0 e, (g.0 gr).0, (g.0 gr).1),
        λ h.
            subst (λ b. (if b then check_role p x o else (not_found, entry_for p)).0 ≡ run r)
              (sym e) (c.1 (g.1 (h.2, h.3), h.0)),
      )
      | inr e ↦ (λ h. ground arith, λ h. ground (arith, d.1 (h.1)))
    ]

-- A run is handed out exactly when the store has it, it belongs to the principal's organisation, the
-- principal's role there has the permission, and that organisation is in the scope of the effective
-- principal.
pub access-run_iff :
    (get_run : ℕ → Option RunRecord) (secure : Bool) (effective p : AuthenticatedPrincipal)
    (s : EntitlementService) (action : Action) (run_id : ℕ) (r : RunRecord)
    → ((require_run_access_in get_run secure effective p s action run_id).0 ≡ run r) ↔ (
        (get_run run_id ≡ some r)
        × (r.org_id ≡ some p.org_id)
        × (can (get_role s p.org_id p.user_id) action ≡ true)
        × InScope secure effective (org p.org_id))
unfolding require_run_access_in access_run
access-run_iff get_run secure effective p s action run_id r = elim (Option-cases (get_run run_id)) [
  | inl e ↦ (λ h. ground arith, λ h. ground arith)
  | inr (x, e) ↦
      let f = found secure effective p s action x r in
      (
        λ h.
            let q = f.0 (subst (λ o. (access_run secure effective p s action o).0 ≡ run r) e h) in
            (
              e ∙ ap some (q.0),
              subst (λ (y : RunRecord). y.org_id ≡ some p.org_id) (q.0) (q.1),
              q.2,
              q.3,
            ),
        λ h.
            subst (λ o. (access_run secure effective p s action o).0 ≡ run r) (sym (h.0))
              ((found secure effective p s action r r).1 (refl, h.1, h.2, h.3)),
      )
]

-- A run of another organisation, or of none, is answered as a run that does not exist; only the audit log
-- tells the two apart.
pub access-hidden :
    (get_run : ℕ → Option RunRecord) (secure : Bool) (effective p : AuthenticatedPrincipal)
    (s : EntitlementService) (action : Action) (run_id : ℕ) (r : RunRecord)
    → get_run run_id ≡ some r
    → r.org_id ≢ some p.org_id
    → ((require_run_access_in get_run secure effective p s action run_id).0
        ≡ (require_run_access_in (λ _. none) secure effective p s action run_id).0)
      × ((require_run_access_in get_run secure effective p s action run_id).1
          ≡ (p.org_id, p.user_id) ∷ [])
unfolding require_run_access_in access_run
access-hidden get_run secure effective p s action run_id r e n = elim (Bool-cases (same_org p r)) [
  | inl q ↦ elim (n ((same_org_iff p r).0 q)) [ ]
  | inr q ↦ ground arith
]
