-- ===== src/Runtime/Worker/Laws.antt =====
-- Every job ends, with no more deliveries than attempts.
use loom_unified_agentic_cod.Base.{
  ℕ, ◌-◌, max, ◌≡◌, ◌↔◌, true, false, ◌||◌, List, [], ◌∷◌, arith, ◌==◌, if◌then◌else◌, any_of,
  sum_of,
}
use loom_unified_agentic_cod.Runtime.Worker.{
  Failure, Word, classify_failure, should_retry, RunJob, Status, QueueCall, mark_finished, enqueue,
  ack,
}

-- A failure is final exactly when its message or its type's name tells of a budget, of security, of the
-- configuration or of an invalid input, whatever else the message says.
pub should_retry-final_iff :
    (e : Failure)
    → (should_retry e ≡ false) ↔ (
        (e.named_budgetexceeded
          || any_of e.mentions (
              Word.budget ∷ Word.security ∷ Word.forbidden ∷ Word.permission ∷ Word.config
              ∷ Word.environment ∷ Word.required ∷ Word.invalid ∷ Word.validation ∷ []))
        ≡ true)
unfolding should_retry classify_failure
should_retry-final_iff e = (λ h. ground arith, λ h. ground arith)

-- The deliveries that a job may still have.
abbrev pub deliveries_left : ℕ → RunJob → ℕ
deliveries_left max_attempts job = max 1 (max_attempts - job.attempts)

abbrev pub work_left : ℕ → List RunJob → ℕ
work_left max_attempts = sum_of (deliveries_left max_attempts)

abbrev pub is_ack : QueueCall → ℕ
is_ack ack = 1
is_ack _ = 0

-- The acknowledgements of a trace.
abbrev pub acks : List QueueCall → ℕ
acks = sum_of is_ack

abbrev pub of_run : ℕ → RunJob → ℕ
of_run run job = if job.run_id == run then 1 else 0

-- A job of the run is marked as succeeded, or put among the dead letters.
abbrev pub is_end : ℕ → QueueCall → ℕ
is_end run (mark_finished job Status.succeeded) = of_run run job
is_end run (QueueCall.dead_letter job) = of_run run job
is_end run _ = 0

abbrev pub endings : ℕ → List QueueCall → ℕ
endings run = sum_of (is_end run)

-- The jobs that are put among the dead letters, and those that are marked so.
abbrev pub dead_lettered : List QueueCall → List RunJob
dead_lettered [] = []
dead_lettered (QueueCall.dead_letter job ∷ cs) = job ∷ dead_lettered cs
dead_lettered (ack ∷ cs) = dead_lettered cs
dead_lettered (mark_finished _ _ ∷ cs) = dead_lettered cs
dead_lettered (enqueue _ ∷ cs) = dead_lettered cs

abbrev pub marked_dead : List QueueCall → List RunJob
marked_dead [] = []
marked_dead (mark_finished job Status.dead_letter ∷ cs) = job ∷ marked_dead cs
marked_dead (mark_finished _ Status.succeeded ∷ cs) = marked_dead cs
marked_dead (mark_finished _ Status.retrying ∷ cs) = marked_dead cs
marked_dead (ack ∷ cs) = marked_dead cs
marked_dead (enqueue _ ∷ cs) = marked_dead cs
marked_dead (QueueCall.dead_letter _ ∷ cs) = marked_dead cs
