-- ===== src/Runtime/Worker/Tests.antt =====
-- A queue of two jobs, of which one fails for ever.
use loom_unified_agentic_cod.Base.{
  ℕ, Bool, true, false, Option, none, some, [], ◌∷◌, ◌==◌, if◌then◌else◌,
}
use loom_unified_agentic_cod.Runtime.Worker.{Failure, Word, RunJob}

abbrev timed_out : Word → Bool
timed_out Word.timed_out = true
timed_out _ = false

abbrev flaky : Failure
flaky = record { mentions = timed_out; named_budgetexceeded = false; named_ratelimit = false }

abbrev job : ℕ → RunJob
job n = record { job_id = n ∷ []; run_id = n; org_id = 1; request = 0; attempts = 0 }

abbrev execute : RunJob → Option Failure
execute j = if j.run_id == 1 then some flaky else none
