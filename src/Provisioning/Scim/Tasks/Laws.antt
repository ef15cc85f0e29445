-- ===== src/Provisioning/Scim/Tasks/Laws.antt =====
-- What a sweep finalizes, and that a second one has nothing to do.
use loom_unified_agentic_cod.Base.{
  ℕ, ◌≤◌, ◌≡◌, refl, sym, ap, ◌∙◌, List, [], ◌∷◌, arith, ltb, if_both, length, select,
}
use loom_unified_agentic_cod.Base.Dict.{Dict, values}
use loom_unified_agentic_cod.Provisioning.Scim.{DeprovisionTask, ScimProvisioner, Moment, persist}
use loom_unified_agentic_cod.Provisioning.Scim.Tasks.{
  is_pending, pending_deprovision_tasks, is_due, sweep_tasks, sweep_deprovisions, is_empty,
}

abbrev pub ids : List DeprovisionTask → List ℕ
ids [] = []
ids (t ∷ ts) = t.id ∷ ids ts

swept-ids :
    (now : ℕ) (d : Dict DeprovisionTask)
    → (sweep_tasks now d).0 ≡ ids (select (is_due now) (values d))
unfolding sweep_tasks
swept-ids now [] = refl
swept-ids now ((k, t) ∷ d) = ground (arith, swept-ids now d)

swept-pending :
    (now : ℕ) (d : Dict DeprovisionTask)
    → select is_pending (values (sweep_tasks now d).2)
      ≡ select (λ t. ltb now t.sla_deadline) (select is_pending (values d))
unfolding sweep_tasks
swept-pending now [] = refl
swept-pending now ((k, t) ∷ d) = ground (arith, swept-pending now d)

swept-missed :
    (now : ℕ) (d : Dict DeprovisionTask)
    → (sweep_tasks now d).1 ≡ length (select is_pending (values (sweep_tasks now d).2))
unfolding sweep_tasks
swept-missed now [] = refl
swept-missed now ((k, t) ∷ d) = ground (arith, swept-missed now d)

swept-again :
    (now later : ℕ) (d : Dict DeprovisionTask)
    → later ≤ now
    → ((sweep_tasks later (sweep_tasks now d).2).0 ≡ [])
      × ((sweep_tasks later (sweep_tasks now d).2).2 ≡ (sweep_tasks now d).2)
unfolding sweep_tasks
swept-again now later [] h = (refl, refl)
swept-again now later ((k, t) ∷ d) h = ground (arith, swept-again now later d h)

keep-deprovisions : (m : Moment) (s : ScimProvisioner) → (persist m s).deprovisions ≡ s.deprovisions
unfolding persist
keep-deprovisions m s =
    if_both (λ (t : ScimProvisioner). t.deprovisions ≡ s.deprovisions) m.writable _ _ refl refl

pub sweep-tasks :
    (m : Moment) (s : ScimProvisioner)
    → (sweep_deprovisions m s).1.deprovisions ≡ (sweep_tasks m.now s.deprovisions).2
unfolding sweep_deprovisions
sweep-tasks m s =
    if_both (λ (t : ScimProvisioner). t.deprovisions ≡ (sweep_tasks m.now s.deprovisions).2)
      (is_empty (sweep_tasks m.now s.deprovisions).0) _ _ refl (keep-deprovisions m _)

-- A sweep finalizes exactly the pending tasks whose deadline has come, leaves pending exactly the others,
-- whose number it reports, and a second sweep at the same time or an earlier one finalizes nothing and
-- leaves every task as it is.
pub sweep-finalizes :
    (m m' : Moment) (s : ScimProvisioner)
    → m'.now ≤ m.now
    → let (r, s') = sweep_deprovisions m s in
      let (r', s'') = sweep_deprovisions m' s' in
      (r.finalized ≡ ids (select (is_due m.now) (values s.deprovisions)))
      × (pending_deprovision_tasks s'
          ≡ select (λ t. ltb m.now t.sla_deadline) (pending_deprovision_tasks s))
      × (r.still_pending ≡ length (pending_deprovision_tasks s'))
      × (r'.finalized ≡ [])
      × (s''.deprovisions ≡ s'.deprovisions)
unfolding sweep_deprovisions pending_deprovision_tasks
sweep-finalizes m m' s h =
    let d = s.deprovisions in
    let s' = (sweep_deprovisions m s).1 in
    let e = sweep-tasks m s in
    let (again, same) = swept-again m.now m'.now d h in
    (
      swept-ids m.now d,
      ap (λ x. select is_pending (values x)) e ∙ swept-pending m.now d,
      swept-missed m.now d ∙ ap (λ x. length (select is_pending (values x))) (sym e),
      ap (λ x. (sweep_tasks m'.now x).0) e ∙ again,
      sweep-tasks m' s' ∙ ap (λ x. (sweep_tasks m'.now x).2) e ∙ same ∙ sym e,
    )
