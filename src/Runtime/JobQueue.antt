-- ===== src/Runtime/JobQueue.antt =====
-- loom/runtime/job_queue.py: the stream of jobs, the claim of a message and the lease of a job. What Redis
-- answers to the two reads of `claim` is an argument; its lease commands are those of a `LeaseStore`.
pub mod Redis
pub mod Leases
pub mod Claims
mod Tests
use loom_unified_agentic_cod.Base.{
  ℕ, zero, suc, ◌+◌, ◌-◌, ◌*◌, ◌/◌, ◌%◌, ◌^◌, min, max, ◌≤◌, ◌<◌, ◌≡◌, refl, sym, ap, subst, ◌∙◌,
  ◌≢◌, ◌↔◌, ◌⊎◌, inl, inr, Bool, true, false, not, ◌&&◌, ◌||◌, Option, none, some, List, [], ◌∷◌,
  ◌++◌, map, append-nil, append_assoc, arith, ltb, leb, ◌==◌, if◌then◌else◌, ltb→lt, lt→ltb, leb→le,
  le→leb, ==_iff, tests, if_both, if_cases, Bool-cases, Option-cases, is_some, is_none, contains,
  Distinct, contains-append, Distinct-snoc, length, select, any_of, all_of, sum_of, All,
  length-append, length-select-le, sum_of-append, select-append,
}
use loom_unified_agentic_cod.Base.Dict.{Dict, lookup, insert}
use loom_unified_agentic_cod.Runtime.JobQueue.Redis.{LeaseStore}

-- The fields of a job that the queue reads.
pub record QueuedJob : Type 0 where
  pub job_id : ℕ
  pub run_id : ℕ
  pub attempts : ℕ

pub record ClaimedJob : Type 0 where
  pub job : QueuedJob
  pub message_id : ℕ
  pub lease_token : ℕ

pub data JobStatus : Type 0 where
  queued running succeeded retrying dead_letter : JobStatus

-- The hash `loom:job:<id>`, without its times; a field that is not set is `none`.
pub record JobHash : Type 0 where
  pub run_id : Option ℕ
  pub status : JobStatus
  pub worker_id : Option ℕ
  pub attempts : Option ℕ

-- A message of the stream; a job that is missing is `none`.
abbrev pub Message : Type 0
Message = ℕ × Option QueuedJob

pub record JobQueue (R : Type 0) : Type 0 where
  pub consumer : ℕ
  pub lease_ttl : ℕ
  pub redis : R
  pub stream : List QueuedJob
  pub acked : List ℕ
  pub hashes : Dict JobHash
  pub dead_letters : List QueuedJob

-- What Redis writes of an enqueued job: nothing, where the group or the message fails; the message; the hash
-- too, whose expiry fails; or all. All but the last raise.
pub data Written : Type 0 where
  no_write message_written hash_written all_written : Written

-- `hset` of the status alone
set_status : JobStatus → Option JobHash → JobHash
set_status status none = record {
  run_id = none;
  status = status;
  worker_id = none;
  attempts = none;
}
set_status status (some h) = record h { status = status }

module _ {R : Type 0} where
  pub ack : ℕ → JobQueue R → JobQueue R
  ack message_id q = record q { acked = q.acked ++ message_id ∷ [] }

  unfoldable pub add_message : QueuedJob → JobQueue R → JobQueue R
  add_message job q = record q { stream = q.stream ++ job ∷ [] }

  unfoldable pub add_hash : QueuedJob → JobQueue R → JobQueue R
  add_hash job q =
      let h : JobHash = record {
        run_id = some job.run_id;
        status = queued;
        worker_id = none;
        attempts = some job.attempts;
      } in
      record q { hashes = insert job.job_id h q.hashes }

  -- The flag is false where it raises.
  unfoldable pub enqueue : Written → QueuedJob → JobQueue R → Bool × JobQueue R
  unfolding add_message add_hash
  enqueue no_write job q = (false, q)
  enqueue message_written job q = (false, add_message job q)
  enqueue hash_written job q = (false, add_hash job (add_message job q))
  enqueue all_written job q = (true, add_hash job (add_message job q))

  pub dead_letter_job : QueuedJob → JobQueue R → JobQueue R
  dead_letter_job job q = record q { dead_letters = q.dead_letters ++ job ∷ [] }

  pub mark_finished : QueuedJob → JobStatus → JobQueue R → JobQueue R
  unfolding set_status
  mark_finished job status q = record q {
    hashes = insert job.job_id (set_status status (lookup job.job_id q.hashes)) q.hashes;
  }

  module _ (store : LeaseStore R) where
    -- The random token is an argument.
    pub try_acquire_lease : ℕ → ℕ → ℕ → JobQueue R → Option ℕ × JobQueue R
    try_acquire_lease now job_id token q =
        let (acquired, r) = store.set_nx now job_id token q.lease_ttl q.redis in
        (if acquired then some token else none, record q { redis = r })

    pub renew_lease : ℕ → ℕ → ℕ → JobQueue R → Bool × JobQueue R
    renew_lease now job_id token q =
        let (renewed, r) = store.renew_equal now job_id token q.lease_ttl q.redis in
        (renewed, record q { redis = r })

    pub release_lease : ℕ → ℕ → ℕ → JobQueue R → Bool × JobQueue R
    release_lease now job_id token q =
        let (released, r) = store.delete_equal now job_id token q.redis in
        (released, record q { redis = r })

    claimed_with : QueuedJob → ℕ → Option ℕ × JobQueue R → Option ClaimedJob × JobQueue R
    claimed_with job message_id (none, q) = (none, q)
    claimed_with job message_id (some token, q) =
        (some record { job = job; message_id = message_id; lease_token = token }, q)

    pub decode_and_claim : ℕ → ℕ → Message → JobQueue R → Option ClaimedJob × JobQueue R
    unfolding ack try_acquire_lease claimed_with
    decode_and_claim now token (message_id, none) q = (none, ack message_id q)
    decode_and_claim now token (message_id, some job) q =
        claimed_with job message_id (try_acquire_lease now job.job_id token q)

    -- The loop over the messages that `xautoclaim` took over.
    pub claim_stale : ℕ → ℕ → List Message → JobQueue R → Option ClaimedJob × JobQueue R
    unfolding decode_and_claim
    claim_stale now token [] q = (none, q)
    claim_stale now token (m ∷ ms) q =
        let (c, q') = decode_and_claim now token m q in
        elim c [ none ↦ claim_stale now token ms q' | some c' ↦ (some c', q') ]

    -- `claim`, with what `xautoclaim` and `xreadgroup` give.
    pub claim : ℕ → ℕ → List Message → Option Message → JobQueue R → Option ClaimedJob × JobQueue R
    unfolding claim_stale decode_and_claim
    claim now token stale fresh q =
        let (c, q') = claim_stale now token stale q in
        elim c [
          | some c' ↦ (some c', q')
          | none ↦ elim fresh [ none ↦ (none, q') | some m ↦ decode_and_claim now token m q' ]
        ]

    -- The flag is false where the lease is lost, which raises.
    pub mark_started : ℕ → QueuedJob → Option ℕ → JobQueue R → Bool × JobQueue R
    unfolding renew_lease
    mark_started now job lease q =
        let h : JobHash = record {
          run_id = some job.run_id;
          status = running;
          worker_id = some q.consumer;
          attempts = some job.attempts;
        } in
        let q' : JobQueue R = record q { hashes = insert job.job_id h q.hashes } in
        elim lease [ none ↦ (true, q') | some token ↦ renew_lease now job.job_id token q' ]

    -- The times it writes are left out.
    pub heartbeat : ℕ → QueuedJob → Option ℕ → JobQueue R → Bool × JobQueue R
    unfolding renew_lease
    heartbeat now job none q = (true, q)
    heartbeat now job (some token) q = renew_lease now job.job_id token q
