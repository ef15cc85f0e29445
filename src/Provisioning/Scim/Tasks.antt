-- ===== src/Provisioning/Scim/Tasks.antt =====
-- loom/scim/provisioning.py: the tasks that a deprovisioning leaves, and the sweep that finalizes them.
pub mod Laws
use loom_unified_agentic_cod.Base.{
  ℕ, zero, suc, ◌+◌, ◌-◌, ◌*◌, ◌/◌, ◌%◌, ◌^◌, min, max, ◌≤◌, ◌<◌, ◌≡◌, refl, sym, ap, subst, ◌∙◌,
  ◌≢◌, ◌↔◌, ◌⊎◌, inl, inr, Bool, true, false, not, ◌&&◌, ◌||◌, Option, none, some, List, [], ◌∷◌,
  ◌++◌, map, append-nil, append_assoc, arith, ltb, leb, ◌==◌, if◌then◌else◌, ltb→lt, lt→ltb, leb→le,
  le→leb, ==_iff, tests, if_both, if_cases, Bool-cases, Option-cases, is_some, is_none, contains,
  Distinct, contains-append, Distinct-snoc, length, select, any_of, all_of, sum_of, All,
  length-append, length-select-le, sum_of-append, select-append,
}
use loom_unified_agentic_cod.Base.Dict.{Dict, values}
use loom_unified_agentic_cod.Provisioning.Scim.{
  DeprovisionTask, TaskStatus, pending, finalized, ScimProvisioner, Moment, persist,
}

abbrev pub is_pending : DeprovisionTask → Bool
is_pending t = elim t.status [ pending ↦ true | finalized ↦ false ]

unfoldable pub pending_deprovision_tasks : ScimProvisioner → List DeprovisionTask
pending_deprovision_tasks s = select is_pending (values s.deprovisions)

pub record SweepResult : Type 0 where
  pub finalized : List ℕ
  pub still_pending : ℕ
  pub checked_at : ℕ

abbrev pub is_due : ℕ → DeprovisionTask → Bool
is_due now t = is_pending t && leb t.sla_deadline now

abbrev finish : ℕ → DeprovisionTask → DeprovisionTask
finish now t = record t { status = TaskStatus.finalized; finalized_at = some now }

-- The loop over the tasks: the identifiers finalized, the number missed, and the tasks.
unfoldable pub sweep_tasks : ℕ → Dict DeprovisionTask → List ℕ × ℕ × Dict DeprovisionTask
sweep_tasks now [] = ([], 0, [])
sweep_tasks now ((k, t) ∷ d) =
    let (ids, missed, d') = sweep_tasks now d in
    if is_pending t
    then (if leb t.sla_deadline now
        then (t.id ∷ ids, missed, (k, finish now t) ∷ d')
        else (ids, suc missed, (k, t) ∷ d'))
    else (ids, missed, (k, t) ∷ d')

abbrev is_empty : List ℕ → Bool
is_empty [] = true
is_empty (x ∷ xs) = false

unfoldable pub sweep_deprovisions : Moment → ScimProvisioner → SweepResult × ScimProvisioner
unfolding sweep_tasks persist
sweep_deprovisions m s =
    let (ids, missed, d) = sweep_tasks m.now s.deprovisions in
    let s' : ScimProvisioner = record s { deprovisions = d } in
    (
      record { finalized = ids; still_pending = missed; checked_at = m.now },
      if is_empty ids then s' else persist m s',
    )
