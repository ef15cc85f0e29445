-- ===== src/Runtime/JobQueue/Claims.antt =====
-- The job of a worker that has stopped is claimed again.
use loom_unified_agentic_cod.Base.{
  ℕ, ◌+◌, ◌≤◌, ◌≡◌, refl, ap, ◌∙◌, Bool, true, false, Option, none, some, List, [], ◌∷◌, ◌++◌,
  arith, if◌then◌else◌, is_some, is_none, All,
}
use loom_unified_agentic_cod.Runtime.JobQueue.Redis.{LeaseStore}
use loom_unified_agentic_cod.Runtime.JobQueue.{
  ack, ClaimedJob, JobQueue, Message, QueuedJob, try_acquire_lease, claimed_with, decode_and_claim,
  claim_stale, claim,
}
use loom_unified_agentic_cod.Runtime.JobQueue.Leases.{
  LeaseCall, acquires, call, calls, Others, last_time, acquire-Held, calls-Held,
}

module _ {R : Type 0} (store : LeaseStore R) where
  -- Nothing is claimed for the message: its job is missing, or another worker has its lease.
  abbrev pub Busy : ℕ → R → Message → Type 0
  Busy now r (id, none) = Unit {0}
  Busy now r (id, some job) = is_some (store.value now job.job_id r) ≡ true

  -- Of two states of the store, each key has the same value now.
  abbrev Same : ℕ → R → R → Type 0
  Same now r r' = (k : ℕ) → store.value now k r' ≡ store.value now k r

  Busy-Same :
      (now : ℕ) (r r' : R) (ms : List Message)
      → Same now r r'
      → All (Busy now r) ms
      → All (Busy now r') ms
  Busy-Same now r r' [] s b = tt
  Busy-Same now r r' ((id, none) ∷ ms) s b = (tt, Busy-Same now r r' ms s b.1)
  Busy-Same now r r' ((id, some job) ∷ ms) s b =
      (ap is_some (s job.job_id) ∙ b.0, Busy-Same now r r' ms s b.1)

  claimed-false :
      (b : Bool) (job : QueuedJob) (id token : ℕ) (q : JobQueue R)
      → b ≡ false
      → let x = claimed_with store job id (if b then some token else none, q) in
        (x.0 ≡ none) × (x.1 ≡ q)
  unfolding claimed_with
  claimed-false false job id token q e = (refl, refl)
  claimed-false true job id token q e = ground arith

  Busy-none :
      (now token : ℕ) (m : Message) (q : JobQueue R)
      → Busy now q.redis m
      → ((decode_and_claim store now token m q).0 ≡ none)
        × Same now q.redis (decode_and_claim store now token m q).1.redis
  unfolding decode_and_claim try_acquire_lease claimed_with ack
  Busy-none now token (id, none) q b = (refl, λ k. refl)
  Busy-none now token (id, some job) q b =
      let (acquired, r) = store.set_nx now job.job_id token q.lease_ttl q.redis in
      let held : is_none (store.value now job.job_id q.redis) ≡ false = ground (arith, b) in
      let answer = store.set_nx-answer now job.job_id token q.lease_ttl q.redis ∙ held in
      let (x, y) = claimed-false acquired job id token (record q { redis = r }) answer in
      (
        x,
        λ k.
            ap (λ (z : JobQueue R). store.value now k z.redis) y
            ∙ ground (
              arith,
              store.set_nx-value now job.job_id token q.lease_ttl now k q.redis (omega arith),
              held,
            ),
      )

  skip-none :
      (now token : ℕ) (m : Message) (ms : List Message) (q : JobQueue R)
      → (decode_and_claim store now token m q).0 ≡ none
      → (claim_stale store now token (m ∷ ms) q).0
        ≡ (claim_stale store now token ms (decode_and_claim store now token m q).1).0
  unfolding claim_stale
  skip-none now token m ms q e =
      let q' = (decode_and_claim store now token m q).1 in
      ap
        (λ (c : Option ClaimedJob).
          (elim c as (λ x. Option ClaimedJob × JobQueue R) [
            | none ↦ claim_stale store now token ms q'
            | some c' ↦ (some c', q')
          ]).0)
        e

  claim-behind :
      (now token message_id : ℕ) (job : QueuedJob) (before stale : List Message) (q : JobQueue R)
      → All (Busy now q.redis) before
      → store.value now job.job_id q.redis ≡ none
      → (claim_stale store now token (before ++ (message_id, some job) ∷ stale) q).0
        ≡ some record { job = job; message_id = message_id; lease_token = token }
  unfolding claim_stale decode_and_claim try_acquire_lease claimed_with
  claim-behind now token message_id job [] stale q b h =
      ground (arith, store.set_nx-answer now job.job_id token q.lease_ttl q.redis, h)
  claim-behind now token message_id job (m ∷ before) stale q b h =
      let (e, same) = Busy-none now token m q b.0 in
      let q' = (decode_and_claim store now token m q).1 in
      skip-none now token m (before ++ (message_id, some job) ∷ stale) q e
      ∙ claim-behind now token message_id job before stale q'
          (Busy-Same now q.redis q'.redis before same b.1) (same job.job_id ∙ h)

  stale-claim :
      (now token : ℕ) (stale : List Message) (fresh : Option Message) (q : JobQueue R)
      (c : ClaimedJob)
      → (claim_stale store now token stale q).0 ≡ some c
      → (claim store now token stale fresh q).0 ≡ some c
  unfolding claim
  stale-claim now token stale fresh q c e =
      let q' = (claim_stale store now token stale q).1 in
      ap
        (λ (o : Option ClaimedJob).
          (elim o as (λ x. Option ClaimedJob × JobQueue R) [
            | some c' ↦ (some c', q')
            | none ↦ elim fresh as (λ x. Option ClaimedJob × JobQueue R) [
              | none ↦ (none, q')
              | some m ↦ decode_and_claim store now token m q'
            ]
          ]).0)
        e

  -- The job of a worker that has stopped is not lost: once the lease it had has run out, whatever the others
  -- have tried meanwhile, the next worker that takes the message over, behind others whose jobs are missing
  -- or under a lease, claims the job.
  pub claim-expired :
      (job : QueuedJob) (token now at token' message_id : ℕ) (cs : List LeaseCall)
      (before stale : List Message) (fresh : Option Message) (q : JobQueue R)
      → (call store (acquires now job.job_id token) q).0 ≡ true
      → Others store token now (now + q.lease_ttl) cs
      → last_time store now cs ≤ at
      → now + q.lease_ttl ≤ at
      → All
          (Busy at (calls store cs (call store (acquires now job.job_id token) q).1).1.redis)
          before
      → let q' = (calls store cs (call store (acquires now job.job_id token) q).1).1 in
        (claim store at token' (before ++ (message_id, some job) ∷ stale) fresh q').0
        ≡ some record { job = job; message_id = message_id; lease_token = token' }
  claim-expired job token now at token' message_id cs before stale fresh q h o a b busy =
      let (_, h') =
        calls-Held store job.job_id token now (now + q.lease_ttl) cs
          (call store (acquires now job.job_id token) q).1
          (acquire-Held store job.job_id token now q h) o in
      let q' = (calls store cs (call store (acquires now job.job_id token) q).1).1 in
      stale-claim at token' (before ++ (message_id, some job) ∷ stale) fresh q' _
        (claim-behind at token' message_id job before stale q' busy (ground (arith, h' at a, b)))
