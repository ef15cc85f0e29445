-- ===== src/Orchestrator/Graph.antt =====
-- The state of a `TaskGraph` (loom/orchestrator/task_graph.py) and its control operations.
-- What the agents read and write is `Shared`, the part of `OrchestratorState` that the graph looks at;
-- the rest of a `Graph` is the graph's own.
mod Sequence
pub use Sequence.*
use loom_unified_agentic_cod.Base.{
  ℕ, zero, suc, ◌+◌, ◌-◌, ◌*◌, ◌/◌, ◌%◌, ◌≤◌, ◌<◌, ◌≡◌, refl, sym, ap, subst, ◌∙◌, ◌≢◌, ◌↔◌, ◌⊎◌,
  inl, inr, Bool, true, false, not, ◌&&◌, ◌||◌, Option, none, some, List, [], ◌∷◌, ◌++◌, map,
  append-nil, append_assoc, arith, ltb, leb, ◌==◌, if◌then◌else◌, ltb→lt, lt→ltb, leb→le, le→leb,
  ==_iff, tests, Bool-cases, Option-cases, is_some, is_none, contains, Distinct, contains-append,
  length, select, any_of, all_of, sum_of, All, length-append, length-select-le, sum_of-append,
  select-append,
}
use loom_unified_agentic_cod.Orchestrator.Merge.{Decision, MergeDecision}

pub data RunStatus : Type 0 where
  queued onboarding reproducing planning patching verifying : RunStatus
  evidence_review conflict_resolution security_hold pending_approval : RunStatus
  merged failed rolled_back cancelled paused : RunStatus

-- `NodeStatus.status`
pub data NodeState : Type 0 where
  running completed failed : NodeState

-- `reproduction_evidence["status"]`
pub data ReproStatus : Type 0 where
  reproduced other : ReproStatus

-- `shared_data` and the attributes of the state that the agents fill in. A Boolean field holds the
-- truth value of the entry; `reproduction_evidence` is `none` where it is missing or empty.
pub record Shared : Type 0 where
  pub run_status : RunStatus
  pub repo_map : Bool
  pub onboarding_summary : Bool
  pub reproduction_test : Bool
  pub reproduction_evidence : Option ReproStatus
  pub gateway_allowed : Bool
  pub require_patch_approval : Bool
  pub require_human_approval : Bool
  pub org_requires_approval : Bool
  pub patch_approved : Bool
  pub approval_required : Bool
  pub verification_passed : Bool
  pub verification_decision : Option Decision
  pub confidence_score : ℕ
  pub auto_merge_threshold : ℕ
  pub conflict_detected : Bool
  pub budget_exceeded : Bool
  pub merge_decision : Option MergeDecision

-- The webhooks of a run; those of the final report carry what tells them apart.
pub data Webhook : Type 0 where
  run_queued run_security_hold run_pending_approval run_rolled_back run_completed : Webhook
  run_failed run_failed_cancelled run_failed_conflict run_failed_review : Webhook

-- One metered attempt: the event that goes to the usage ledger.
pub record Attempt : Type 0 where
  pub node : Node
  pub attempt_number : ℕ
  pub tokens_in : ℕ
  pub tokens_out : ℕ
  pub cost_usd : ℕ

pub record Graph : Type 0 where
  pub shared : Shared
  pub nodes : Node → Option NodeState
  pub current_node : Option Node
  pub is_paused : Bool
  pub is_cancelled : Bool
  pub step_mode : Bool
  -- the attempts started, latest first
  pub started : List (Node × ℕ)
  -- the events sent to the usage ledger, latest first
  pub metered : List Attempt
  -- the webhooks fired, latest first
  pub webhooks : List Webhook
  pub checkpoints : ℕ

unfoldable pub set_status : RunStatus → Graph → Graph
set_status s g = record g { shared = record (g.shared) { run_status = s } }

unfoldable pub set_node : Node → NodeState → Graph → Graph
set_node n s g = record g { nodes = λ m. if same_node m n then some s else g.nodes m }

unfoldable pub save_checkpoint : Graph → Graph
save_checkpoint g = record g { checkpoints = g.checkpoints + 1 }

unfoldable pub fire_webhook : Webhook → Graph → Graph
fire_webhook w g = record g { webhooks = w ∷ g.webhooks }

-- What other coroutines call on the graph while the run awaits something.
pub data Command : Type 0 where
  pause resume step_over cancel rollback : Command

unfoldable pub control : Command → Graph → Graph
unfolding set_status
control pause g = record g { is_paused = true }
control resume g = record g { is_paused = false; step_mode = false }
control step_over g = record g { is_paused = false; step_mode = true }
control cancel g = record g { is_cancelled = true; is_paused = false }
control rollback g = set_status rolled_back g

unfoldable pub deliver : List Command → Graph → Graph
deliver [] g = g
deliver (c ∷ cs) g = deliver cs (control c g)

-- `is_approval_required`; the last argument is the router's verdict on the patch's risk, `false` also
-- where the router raises.
unfoldable pub is_approval_required : Shared → Bool → Bool
is_approval_required s high_risk =
    if s.require_patch_approval || s.require_human_approval
    then true
    else if s.org_requires_approval
    then true
    else high_risk
