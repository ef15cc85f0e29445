-- ===== src/Orchestrator/Run/Laws.antt =====
-- What a whole run guarantees, for any agents, callbacks and commands.
pub mod Gate
pub mod Effort
pub mod Waiting
use loom_unified_agentic_cod.Base.{
  ℕ, zero, suc, ◌+◌, ◌-◌, ◌*◌, ◌/◌, ◌%◌, ◌^◌, min, max, ◌≤◌, ◌<◌, ◌≡◌, refl, sym, ap, subst, ◌∙◌,
  ◌≢◌, ◌↔◌, ◌⊎◌, inl, inr, Bool, true, false, not, ◌&&◌, ◌||◌, Option, none, some, List, [], ◌∷◌,
  ◌++◌, map, append-nil, append_assoc, arith, ltb, leb, ◌==◌, if◌then◌else◌, ltb→lt, lt→ltb, leb→le,
  le→leb, ==_iff, tests, Bool-cases, Option-cases, is_some, is_none, contains, Distinct,
  contains-append, length, select, any_of, all_of, sum_of, All, length-append, length-select-le,
  sum_of-append, select-append,
}
use loom_unified_agentic_cod.Orchestrator.Merge.{
  Decision, MergeDecision, effective_decision, compute_merge_decision,
}
use loom_unified_agentic_cod.Orchestrator.Graph.{Node, RunStatus, Graph, get_sequence}
use loom_unified_agentic_cod.Orchestrator.Run.{
  Environment, RunResult, finished, suspended, run_nodes, begin, settle, run,
}
use loom_unified_agentic_cod.Orchestrator.Run.Finish.{finish}

-- A finished run is the end of `run` on some graph.
finished-finish :
    (r : RunResult) (g : Graph) → settle r ≡ finished g → (g' : Graph) × (g ≡ finish g')
unfolding settle
finished-finish (finished g') g e = (g', cc)
finished-finish (suspended g') g e = cc

abbrev pub MayMerge : Graph → Type 0
MayMerge g =
    (g.shared.verification_passed ≡ true)
    × (effective_decision g.shared.verification_decision true ≡ Decision.auto_merge)
    × (g.shared.conflict_detected ≡ false)
    × (g.shared.auto_merge_threshold ≤ g.shared.confidence_score)
    × (g.is_cancelled ≡ false)
    × (g.shared.budget_exceeded ≡ false)

finish-merged : (g : Graph) → (finish g).shared.run_status ≡ RunStatus.merged → MayMerge (finish g)
unfolding finish
finish-merged g h = ground arith

-- A run ends as merged only if verification passed, the verifier's decision, if any, is to merge, no
-- conflict was found, the confidence reaches the threshold, and the run was neither cancelled nor over
-- its budget.
pub run-merged :
    (env : Environment) (resume_from : Option Node) (g g' : Graph)
    → run env resume_from g ≡ finished g'
    → g'.shared.run_status ≡ RunStatus.merged
    → MayMerge g'
unfolding run
run-merged env r g g' e m =
    let (h, q) = finished-finish (run_nodes env (get_sequence r) (begin g)) g' e in
    rw q (finish-merged h (rw q at m))

-- The statuses that only the end of a run gives, and that of a run which awaits approval.
abbrev pub is_settled : RunStatus → Bool
is_settled RunStatus.conflict_resolution = true
is_settled RunStatus.security_hold = true
is_settled RunStatus.pending_approval = true
is_settled RunStatus.merged = true
is_settled RunStatus.failed = true
is_settled RunStatus.rolled_back = true
is_settled RunStatus.cancelled = true
is_settled _ = false

abbrev pub asks_review : Option MergeDecision → Bool
asks_review none = false
asks_review (some m) = m.needs_human_review && not m.auto_merge && not m.security_hold

-- The review of the evidence, which is also the status of a run whose reviewer works, is left to a human:
-- the merge decision is there and asks for it, and nothing else ended the run.
abbrev pub AwaitsReview : Graph → Type 0
AwaitsReview g =
    (g.shared.run_status ≡ RunStatus.evidence_review)
    × (asks_review g.shared.merge_decision ≡ true)
    × (g.shared.verification_passed ≡ true)
    × (g.shared.conflict_detected ≡ false)
    × (g.is_cancelled ≡ false)
    × (g.shared.budget_exceeded ≡ false)

abbrev is_review : RunStatus → Bool
is_review RunStatus.evidence_review = true
is_review _ = false

finish-review :
    (g : Graph) → is_review (finish g).shared.run_status ≡ true → AwaitsReview (finish g)
unfolding finish
finish-review g h = ground arith

finish-ended :
    (g : Graph)
    → is_review (finish g).shared.run_status ≡ false
    → is_settled (finish g).shared.run_status ≡ true
unfolding finish
finish-ended g h = ground arith

finish-settled :
    (g : Graph) → (is_settled (finish g).shared.run_status ≡ true) ⊎ AwaitsReview (finish g)
finish-settled g = elim (Bool-cases (is_review (finish g).shared.run_status)) [
  | inl e ↦ inr (finish-review g e)
  | inr e ↦ inl (finish-ended g e)
]

-- A finished run is never left in a status of work in progress: its status is one that no node has, or it
-- is the review of the evidence, and then verification passed, nothing conflicts, the run was neither
-- cancelled nor over its budget, and its merge decision asks for a human.
pub run-settled :
    (env : Environment) (resume_from : Option Node) (g g' : Graph)
    → run env resume_from g ≡ finished g'
    → (is_settled g'.shared.run_status ≡ true) ⊎ AwaitsReview g'
unfolding run
run-settled env r g g' e =
    let (h, q) = finished-finish (run_nodes env (get_sequence r) (begin g)) g' e in
    rw q (finish-settled h)
