-- ===== src/Orchestrator/Merge/Tests.antt =====
-- Merge decisions at concrete scores, in thousandths.
use loom_unified_agentic_cod.Base.{◌≤◌, ◌≡◌, ◌↔◌, true, false, none}
use loom_unified_agentic_cod.Orchestrator.Merge.{
  Decision, effective_decision, compute_merge_decision,
}
use loom_unified_agentic_cod.Orchestrator.Merge.Laws.{auto_merge_iff}

auto_merge_iff_example : ((compute_merge_decision true 960 950 none false).auto_merge ≡ true) ↔ (
    (true ≡ true)
    × (effective_decision none true ≡ Decision.auto_merge)
    × (false ≡ false)
    × (950 ≤ 960))
auto_merge_iff_example = auto_merge_iff true false 960 950 none
