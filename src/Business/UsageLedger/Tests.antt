-- ===== src/Business/UsageLedger/Tests.antt =====
-- The laws of the ledger at concrete events.
use loom_unified_agentic_cod.Base.{
  ℕ, ◌+◌, ◌*◌, ◌≡◌, refl, Bool, true, false, some, List, [], ◌∷◌, Distinct,
}
use loom_unified_agentic_cod.Business.Models.{UsageEvent}
use loom_unified_agentic_cod.Business.UsageLedger.{
  blank, corrupt, load, load_line, load_lines, record_event, append, scan, entry_of, build_snapshot,
}
use loom_unified_agentic_cod.Business.UsageLedger.Laws.{entry_keys, record_all, ledger-Distinct}
use loom_unified_agentic_cod.Business.UsageLedger.Restart.{restart-entries}
use loom_unified_agentic_cod.Business.UsageLedger.Snapshot.{snapshot-record}

-- A digest that keeps runs, steps and attempts below a hundred apart.
abbrev digest : ℕ → ℕ → ℕ → ℕ → ℕ
digest run step attempt context = 10000 * run + 100 * step + attempt

abbrev event : ℕ → UsageEvent
event attempt = record {
  run_id = 4;
  org_id = 1;
  step_id = 2;
  attempt_number = attempt;
  tokens_in = 300;
  tokens_out = 20;
  model_id = 0;
  sandbox_tier = 0;
  wall_clock_ms = 1500;
  cost_usd = 0;
  input_context_hash = 9;
}

abbrev twice : List (Bool × UsageEvent)
twice = (true, event 1) ∷ (false, event 2) ∷ (true, event 1) ∷ (true, event 2) ∷ []

twice_keys :
    entry_keys (record_all digest twice (load (corrupt ∷ blank ∷ []))).entries ≡ 40201 ∷ 40202 ∷ []
unfolding load load_lines load_line record_event append scan
twice_keys = refl

ledger-Distinct_example :
    Distinct (entry_keys (record_all digest twice (load (corrupt ∷ blank ∷ []))).entries)
ledger-Distinct_example = ledger-Distinct digest (corrupt ∷ blank ∷ []) twice

restart-entries_example :
    (load (record_all digest twice (load [])).file).entries
    ≡ (record_all digest twice (load [])).entries
restart-entries_example = restart-entries digest twice

recorded : (record_event digest true (event 1) (load [])).0 ≡ some (entry_of digest (event 1))
unfolding record_event append load load_lines scan
recorded = refl

snapshot-record_example :
    let s = build_snapshot 1 (load []) in
    let s' = build_snapshot 1 (record_event digest true (event 1) (load [])).1 in
    (s'.tokens_consumed ≡ s.tokens_consumed + 320)
    × (s'.sandbox_ms_consumed ≡ s.sandbox_ms_consumed + 1500)
snapshot-record_example = snapshot-record digest true (event 1) (load []) 1 recorded
