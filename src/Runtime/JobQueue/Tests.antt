-- ===== src/Runtime/JobQueue/Tests.antt =====
-- The laws of the job queue over a store of keys with their expiry.
use loom_unified_agentic_cod.Base.{
  ℕ, ◌+◌, ◌≤◌, ◌≡◌, refl, inl, inr, Bool, true, false, ◌&&◌, Option, none, some, List, [], ◌∷◌,
  arith, ltb, ◌==◌, if◌then◌else◌, Bool-cases, is_none,
}
use loom_unified_agentic_cod.Base.Dict.{Dict, lookup, insert, erase, lookup-insert, lookup-erase}
use loom_unified_agentic_cod.Runtime.JobQueue.Redis.{LeaseStore, is_token}
use loom_unified_agentic_cod.Runtime.JobQueue.{JobQueue, QueuedJob, claim, renew_lease}
use loom_unified_agentic_cod.Runtime.JobQueue.Leases.{
  LeaseCall, acquires, releases, call, calls, all_refused, lease-exclusive,
}
use loom_unified_agentic_cod.Runtime.JobQueue.Claims.{claim-expired}

-- The token of a key and the time it expires at.
abbrev Keys : Type 0
Keys = Dict (ℕ × ℕ)

abbrev unexpired : ℕ → Option (ℕ × ℕ) → Option ℕ
unexpired now none = none
unexpired now (some (token, expiry)) = if ltb now expiry then some token else none

abbrev get : ℕ → ℕ → Keys → Option ℕ
get now k r = unexpired now (lookup k r)

abbrev set_nx : ℕ → ℕ → ℕ → ℕ → Keys → Bool × Keys
set_nx now k t ttl r =
    if is_none (get now k r) then (true, insert k (t, now + ttl) r) else (false, r)

abbrev renew : ℕ → ℕ → ℕ → ℕ → Keys → Bool × Keys
renew now k t ttl r =
    if is_token t (get now k r) then (true, insert k (t, now + ttl) r) else (false, r)

abbrev delete : ℕ → ℕ → ℕ → Keys → Bool × Keys
delete now k t r = if is_token t (get now k r) then (true, erase k r) else (false, r)

set_nx-value :
    (now k t ttl now' k' : ℕ) (r : Keys)
    → now ≤ now'
    → get now' k' (set_nx now k t ttl r).1 ≡ (
        if k' == k && is_none (get now k r)
        then (if ltb now' (now + ttl) then some t else none)
        else get now' k' r)
set_nx-value now k t ttl now' k' r h = elim (Bool-cases (is_none (get now k r))) [
  | inl e ↦ ground (arith, lookup-insert k' k (t, now + ttl) r, e)
  | inr e ↦ ground (arith, e)
]

renew-value :
    (now k t ttl now' k' : ℕ) (r : Keys)
    → now ≤ now'
    → get now' k' (renew now k t ttl r).1 ≡ (
        if k' == k && is_token t (get now k r)
        then (if ltb now' (now + ttl) then some t else none)
        else get now' k' r)
renew-value now k t ttl now' k' r h = elim (Bool-cases (is_token t (get now k r))) [
  | inl e ↦ ground (arith, lookup-insert k' k (t, now + ttl) r, e)
  | inr e ↦ ground (arith, e)
]

delete-value :
    (now k t now' k' : ℕ) (r : Keys)
    → now ≤ now'
    → get now' k' (delete now k t r).1
      ≡ (if k' == k && is_token t (get now k r) then none else get now' k' r)
delete-value now k t now' k' r h = elim (Bool-cases (is_token t (get now k r))) [
  | inl e ↦ ground (arith, lookup-erase k' k r, e)
  | inr e ↦ ground (arith, e)
]

set_nx-answer : (now k t ttl : ℕ) (r : Keys) → (set_nx now k t ttl r).0 ≡ is_none (get now k r)
set_nx-answer now k t ttl r = elim (Bool-cases (is_none (get now k r))) [
  | inl e ↦ ground (arith, e)
  | inr e ↦ ground (arith, e)
]

renew-answer : (now k t ttl : ℕ) (r : Keys) → (renew now k t ttl r).0 ≡ is_token t (get now k r)
renew-answer now k t ttl r = elim (Bool-cases (is_token t (get now k r))) [
  | inl e ↦ ground (arith, e)
  | inr e ↦ ground (arith, e)
]

delete-answer : (now k t : ℕ) (r : Keys) → (delete now k t r).0 ≡ is_token t (get now k r)
delete-answer now k t r = elim (Bool-cases (is_token t (get now k r))) [
  | inl e ↦ ground (arith, e)
  | inr e ↦ ground (arith, e)
]

abbrev store : LeaseStore Keys
store = record {
  value = get;
  set_nx = set_nx;
  renew_equal = renew;
  delete_equal = delete;
  set_nx-answer = set_nx-answer;
  set_nx-value = set_nx-value;
  renew-answer = renew-answer;
  renew-value = renew-value;
  delete-answer = delete-answer;
  delete-value = delete-value;
}

abbrev queue : JobQueue Keys
queue = record {
  consumer = 1;
  lease_ttl = 120;
  redis = [];
  stream = [];
  acked = [];
  hashes = [];
  dead_letters = [];
}

abbrev job : QueuedJob
job = record { job_id = 5; run_id = 50; attempts = 0 }

-- Another worker tries to take the lease, and to release it.
abbrev schedule : List LeaseCall
schedule = acquires 40 5 8 ∷ releases 60 5 8 ∷ []

took : (call store (acquires 10 5 7) queue).0 ≡ true
unfolding call
took = refl

lease-exclusive_example :
    let (answers, q') = calls store schedule (call store (acquires 10 5 7) queue).1 in
    (all_refused store 5 schedule answers ≡ true) × ((renew_lease store 100 5 7 q').0 ≡ true)
lease-exclusive_example =
    lease-exclusive store 5 7 10 100 schedule queue took
      (
        omega arith,
        omega arith,
        λ e. omega (arith, e),
        (omega arith, omega arith, λ e. omega (arith, e), tt),
      )
      (omega arith) (omega arith)

-- The first message has no job.
claim-expired_example :
    let q' = (calls store schedule (call store (acquires 10 5 7) queue).1).1 in
    (claim store 130 9 ((30, none) ∷ (31, some job) ∷ []) none q').0
    ≡ some record { job = job; message_id = 31; lease_token = 9 }
claim-expired_example =
    claim-expired store job 7 10 130 9 31 schedule ((30, none) ∷ []) [] none queue took
      (
        omega arith,
        omega arith,
        λ e. omega (arith, e),
        (omega arith, omega arith, λ e. omega (arith, e), tt),
      )
      (omega arith) (omega arith) (tt, tt)
