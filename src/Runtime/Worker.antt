-- ===== src/Runtime/Worker.antt =====
-- loom/runtime/worker.py and loom/runtime/failure_policy.py: what becomes of a job whose execution ends, and
-- of its retries. The execution is a parameter. A failure is known by the words that its lower-cased
-- message and the name of its type contain.
pub mod Laws
mod Tests
use loom_unified_agentic_cod.Base.{
  ℕ, zero, suc, ◌+◌, ◌-◌, ◌*◌, ◌/◌, ◌%◌, ◌^◌, min, max, ◌≤◌, ◌<◌, ◌≡◌, refl, sym, ap, subst, ◌∙◌,
  ◌≢◌, ◌↔◌, ◌⊎◌, inl, inr, Bool, true, false, not, ◌&&◌, ◌||◌, Option, none, some, List, [], ◌∷◌,
  ◌++◌, map, append-nil, append_assoc, arith, ltb, leb, ◌==◌, if◌then◌else◌, ltb→lt, lt→ltb, leb→le,
  le→leb, ==_iff, tests, if_both, if_cases, Bool-cases, Option-cases, is_some, is_none, contains,
  Distinct, contains-append, Distinct-snoc, length, select, any_of, all_of, sum_of, All,
  length-append, length-select-le, sum_of-append, select-append,
}

pub data FailureClass : Type 0 where
  transient rate_limit sandbox patch_conflict security configuration : FailureClass
  invalid_input budget_exceeded unknown : FailureClass

pub data Word : Type 0 where
  budget security forbidden permission config environment required invalid validation : Word
  rate_limit http_429 sandbox microvm firecracker conflict patch apply : Word
  timeout timed_out connection temporarily unavailable http_503 : Word

pub record Failure : Type 0 where
  pub mentions : Word → Bool
  pub named_budgetexceeded : Bool
  pub named_ratelimit : Bool

pub classify_failure : Failure → FailureClass
classify_failure e =
    let m = e.mentions in
    if m Word.budget || e.named_budgetexceeded
    then FailureClass.budget_exceeded
    else if m Word.security || m Word.forbidden || m Word.permission
    then FailureClass.security
    else if m Word.config || m Word.environment || m Word.required
    then FailureClass.configuration
    else if m Word.invalid || m Word.validation
    then FailureClass.invalid_input
    else if m Word.rate_limit || m Word.http_429 || e.named_ratelimit
    then FailureClass.rate_limit
    else if m Word.sandbox || m Word.microvm || m Word.firecracker
    then FailureClass.sandbox
    else if m Word.conflict || m Word.patch && m Word.apply
    then FailureClass.patch_conflict
    else if m Word.timeout
        || m Word.timed_out
        || m Word.connection
        || m Word.temporarily
        || m Word.unavailable
        || m Word.http_503
    then FailureClass.transient
    else FailureClass.unknown

-- `not in NON_RETRYABLE`
abbrev pub is_retryable : FailureClass → Bool
is_retryable FailureClass.security = false
is_retryable FailureClass.configuration = false
is_retryable FailureClass.invalid_input = false
is_retryable FailureClass.budget_exceeded = false
is_retryable _ = true

pub should_retry : Failure → Bool
unfolding classify_failure
should_retry e = is_retryable (classify_failure e)

-- `RunJob`. The identifier is the list of its parts, "<id>:retry:<n>" being `<id>` with n at the end;
-- `request` stands for the fields that a retry copies.
pub record RunJob : Type 0 where
  pub job_id : List ℕ
  pub run_id : ℕ
  pub org_id : ℕ
  pub request : ℕ
  pub attempts : ℕ

pub data Status : Type 0 where
  succeeded dead_letter retrying : Status

-- The calls of the queue that end a delivery, in their order.
pub data QueueCall : Type 0 where
  mark_finished : RunJob → Status → QueueCall
  dead_letter enqueue : RunJob → QueueCall
  ack : QueueCall

pub retry_of : RunJob → RunJob
retry_of job = record job {
  job_id = job.job_id ++ suc job.attempts ∷ [];
  attempts = suc job.attempts;
}

-- The body of the `try` after the execution, and the `except`.
failed : ℕ → RunJob → Failure → List QueueCall
unfolding should_retry retry_of
failed max_attempts job e =
    if not (should_retry e) || leb max_attempts (suc job.attempts)
    then mark_finished job Status.dead_letter ∷ QueueCall.dead_letter job ∷ ack ∷ []
    else mark_finished job retrying ∷ enqueue (retry_of job) ∷ ack ∷ []

pub settle : ℕ → RunJob → Option Failure → List QueueCall
unfolding failed
settle max_attempts job none = mark_finished job succeeded ∷ ack ∷ []
settle max_attempts job (some e) = failed max_attempts job e

-- The jobs that a delivery puts on the queue.
pub enqueued : List QueueCall → List RunJob
enqueued [] = []
enqueued (enqueue job ∷ cs) = job ∷ enqueued cs
enqueued (mark_finished _ _ ∷ cs) = enqueued cs
enqueued (QueueCall.dead_letter _ ∷ cs) = enqueued cs
enqueued (ack ∷ cs) = enqueued cs

module _ (execute : RunJob → Option Failure) where
  -- `run_forever` over a queue with one worker: each delivery in turn, until no job is left or the fuel is
  -- used up. The trace is the queue's calls, and the jobs that are left.
  pub drain : ℕ → ℕ → List RunJob → List QueueCall × List RunJob
  unfolding settle enqueued
  drain zero max_attempts jobs = ([], jobs)
  drain (suc fuel) max_attempts [] = ([], [])
  drain (suc fuel) max_attempts (job ∷ jobs) =
      let calls = settle max_attempts job (execute job) in
      let (rest, left) = drain fuel max_attempts (jobs ++ enqueued calls) in (calls ++ rest, left)
