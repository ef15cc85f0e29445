-- ===== src/Orchestrator/Merge/Laws.antt =====
-- When a run merges by itself, and who is responsible otherwise.
use loom_unified_agentic_cod.Base.{ℕ, ◌≤◌, ◌≡◌, ◌↔◌, ◌⊎◌, Bool, true, false, Option, arith}
use loom_unified_agentic_cod.Orchestrator.Merge.{
  Decision, agent, human, nobody, MergeDecision, effective_decision, compute_merge_decision,
}

-- The patch merges by itself exactly when verification passed, the decision in force is to merge,
-- nothing conflicts and the confidence reaches the threshold.
pub auto_merge_iff :
    (passed conflict : Bool) (confidence threshold : ℕ) (d : Option Decision)
    → ((compute_merge_decision passed confidence threshold d conflict).auto_merge ≡ true) ↔ (
        (passed ≡ true)
        × (effective_decision d passed ≡ Decision.auto_merge)
        × (conflict ≡ false)
        × (threshold ≤ confidence))
unfolding compute_merge_decision
auto_merge_iff passed conflict c t d = (λ h. ground arith, λ h. ground arith)

-- The actor tells the three outcomes apart: the agent where the patch merges by itself, a human where
-- review is needed, nobody otherwise; and no decision both merges and asks for review.
abbrev pub ActorFits : MergeDecision → Type 0
ActorFits m =
    ((m.auto_merge ≡ true) × (m.needs_human_review ≡ false) × (m.actor ≡ agent))
    ⊎ ((m.auto_merge ≡ false) × (m.needs_human_review ≡ true) × (m.actor ≡ human))
    ⊎ ((m.auto_merge ≡ false) × (m.needs_human_review ≡ false) × (m.actor ≡ nobody))

pub actor_fits :
    (passed conflict : Bool) (confidence threshold : ℕ) (d : Option Decision)
    → ActorFits (compute_merge_decision passed confidence threshold d conflict)
unfolding compute_merge_decision
actor_fits passed conflict c t d = ground arith

-- Raising the confidence or lowering the threshold never takes an automatic merge back.
pub auto_merge_mono :
    (passed conflict : Bool) (c t c' t' : ℕ) (d : Option Decision)
    → c ≤ c'
    → t' ≤ t
    → (compute_merge_decision passed c t d conflict).auto_merge ≡ true
    → (compute_merge_decision passed c' t' d conflict).auto_merge ≡ true
unfolding compute_merge_decision
auto_merge_mono passed conflict c t c' t' d h k e = ground arith
