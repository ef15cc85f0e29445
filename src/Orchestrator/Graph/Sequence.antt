-- ===== src/Orchestrator/Graph/Sequence.antt =====
-- `NODE_SEQUENCE` and `get_sequence` of loom/orchestrator/task_graph.py.
use loom_unified_agentic_cod.Base.{
  ℕ, Bool, false, ◌||◌, Option, none, some, List, [], ◌∷◌, ◌==◌, if◌then◌else◌,
}

pub data Node : Type 0 where
  onboard reproduction planner patcher verifier reviewer : Node

abbrev pub rank : Node → ℕ
rank onboard = 0
rank reproduction = 1
rank planner = 2
rank patcher = 3
rank verifier = 4
rank reviewer = 5

abbrev pub same_node : Node → Node → Bool
same_node m n = rank m == rank n

abbrev pub node_sequence : List Node
node_sequence = onboard ∷ reproduction ∷ planner ∷ patcher ∷ verifier ∷ reviewer ∷ []

-- The loop of `get_sequence` under `resume_from`, with its flag `found`.
abbrev from_found : Node → Bool → List Node → List Node
from_found target found [] = []
from_found target found (n ∷ ns) =
    let found' = same_node n target || found in
    if found' then n ∷ from_found target found' ns else from_found target found' ns

-- `get_sequence(resume_from)`, as `run` calls it.
abbrev pub get_sequence : Option Node → List Node
get_sequence none = node_sequence
get_sequence (some target) = from_found target false node_sequence
