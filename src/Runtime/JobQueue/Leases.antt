-- ===== src/Runtime/JobQueue/Leases.antt =====
-- One worker at a time holds the lease of a job.
use loom_unified_agentic_cod.Base.{
  ℕ, ◌+◌, ◌≤◌, ◌<◌, ◌≡◌, refl, ◌≢◌, Bool, true, not, ◌&&◌, ◌||◌, none, some, List, [], ◌∷◌, arith,
  ltb, ◌==◌, if◌then◌else◌, is_some,
}
use loom_unified_agentic_cod.Runtime.JobQueue.Redis.{LeaseStore}
use loom_unified_agentic_cod.Runtime.JobQueue.{
  JobQueue, try_acquire_lease, renew_lease, release_lease,
}

-- What a worker, known by its token, does with the lease of a job: the time, the job and the token.
pub data LeaseCall : Type 0 where
  acquires renews releases : ℕ → ℕ → ℕ → LeaseCall

abbrev pub time_of : LeaseCall → ℕ
time_of (acquires now job token) = now
time_of (renews now job token) = now
time_of (releases now job token) = now

abbrev pub token_of : LeaseCall → ℕ
token_of (acquires now job token) = token
token_of (renews now job token) = token
token_of (releases now job token) = token

module _ {R : Type 0} (store : LeaseStore R) where
  unfoldable pub call : LeaseCall → JobQueue R → Bool × JobQueue R
  unfolding try_acquire_lease renew_lease release_lease
  call (acquires now job token) q =
      let (t, q') = try_acquire_lease store now job token q in (is_some t, q')
  call (renews now job token) q = renew_lease store now job token q
  call (releases now job token) q = release_lease store now job token q

  -- The answers of a schedule of calls.
  pub calls : List LeaseCall → JobQueue R → List Bool × JobQueue R
  unfolding call
  calls [] q = ([], q)
  calls (c ∷ cs) q = let (b, q1) = call c q in let (bs, q2) = calls cs q1 in (b ∷ bs, q2)

  -- From `now` until `limit` the lease of the job is the token's, and then nobody's.
  abbrev pub Held : ℕ → ℕ → ℕ → ℕ → JobQueue R → Type 0
  Held job token now limit q =
      (at : ℕ) → now ≤ at → store.value at job q.redis ≡ (if ltb at limit then some token else none)

  -- A schedule of other workers, in the order of time and before the limit.
  abbrev pub Others : ℕ → ℕ → ℕ → List LeaseCall → Type 0
  Others token now limit [] = Unit {0}
  Others token now limit (c ∷ cs) =
      (now ≤ time_of c)
      × (time_of c < limit)
      × (token_of c ≢ token)
      × Others token (time_of c) limit cs

  -- The call is an attempt to take the lease of the job, or to renew or release it.
  abbrev pub is_about : ℕ → LeaseCall → Bool
  is_about job (acquires now j token) = j == job
  is_about job (renews now j token) = j == job
  is_about job (releases now j token) = j == job

  -- Every call about the job is answered with no.
  abbrev pub all_refused : ℕ → List LeaseCall → List Bool → Bool
  all_refused job (c ∷ cs) (b ∷ bs) = (not (is_about job c) || not b) && all_refused job cs bs
  all_refused job _ _ = true

  pub acquire-Held :
      (job token now : ℕ) (q : JobQueue R)
      → (call (acquires now job token) q).0 ≡ true
      → Held job token now (now + q.lease_ttl) (call (acquires now job token) q).1
  unfolding call try_acquire_lease
  acquire-Held job token now q h at u = ground (
    arith,
    store.set_nx-answer now job token q.lease_ttl q.redis,
    store.set_nx-value now job token q.lease_ttl at job q.redis u,
    h,
  )

  call-Held :
      (job token now limit : ℕ) (c : LeaseCall) (q : JobQueue R)
      → Held job token now limit q
      → now ≤ time_of c
      → time_of c < limit
      → token_of c ≢ token
      → ((not (is_about job c) || not (call c q).0) ≡ true)
        × Held job token (time_of c) limit (call c q).1
  unfolding call try_acquire_lease renew_lease release_lease
  call-Held job token now limit (acquires t j x) q h a b n = (
    ground (arith, store.set_nx-answer t j x q.lease_ttl q.redis, h t a, b),
    λ at u. ground (
      arith,
      store.set_nx-value t j x q.lease_ttl at job q.redis u,
      h t a,
      b,
      h at (omega (arith, a, u)),
    ),
  )
  call-Held job token now limit (renews t j x) q h a b n = (
    ground (arith, store.renew-answer t j x q.lease_ttl q.redis, h t a, b),
    λ at u. ground (
      arith,
      store.renew-value t j x q.lease_ttl at job q.redis u,
      h t a,
      b,
      h at (omega (arith, a, u)),
    ),
  )
  call-Held job token now limit (releases t j x) q h a b n = (
    ground (arith, store.delete-answer t j x q.redis, h t a, b),
    λ at u.
        ground
          (arith, store.delete-value t j x at job q.redis u, h t a, b, h at (omega (arith, a, u))),
  )

  -- The time of the last call.
  abbrev pub last_time : ℕ → List LeaseCall → ℕ
  last_time now [] = now
  last_time now (c ∷ cs) = last_time (time_of c) cs

  pub calls-Held :
      (job token now limit : ℕ) (cs : List LeaseCall) (q : JobQueue R)
      → Held job token now limit q
      → Others token now limit cs
      → (all_refused job cs (calls cs q).0 ≡ true)
        × Held job token (last_time now cs) limit (calls cs q).1
  unfolding calls
  calls-Held job token now limit [] q h o = (refl, h)
  calls-Held job token now limit (c ∷ cs) q h (a, b, n, o) =
      let (r, h') = call-Held job token now limit c q h a b n in
      let (rs, h'') = calls-Held job token (time_of c) limit cs (call c q).1 h' o in
      (ground (arith, r, rs), h'')

  renew-Held :
      (job token now limit at : ℕ) (q : JobQueue R)
      → Held job token now limit q
      → now ≤ at
      → at < limit
      → (renew_lease store at job token q).0 ≡ true
  unfolding renew_lease
  renew-Held job token now limit at q h a b =
      ground (arith, store.renew-answer at job token q.lease_ttl q.redis, h at a, b)

  -- Once a worker has the lease of a job, every call that another makes about that job before the lease runs
  -- out is refused, whatever the schedule of calls, and until then the worker's own renewal succeeds.
  pub lease-exclusive :
      (job token now at : ℕ) (cs : List LeaseCall) (q : JobQueue R)
      → (call (acquires now job token) q).0 ≡ true
      → Others token now (now + q.lease_ttl) cs
      → last_time now cs ≤ at
      → at < now + q.lease_ttl
      → let (answers, q') = calls cs (call (acquires now job token) q).1 in
        (all_refused job cs answers ≡ true) × ((renew_lease store at job token q').0 ≡ true)
  lease-exclusive job token now at cs q h o a b =
      let (r, h') =
        calls-Held job token now (now + q.lease_ttl) cs (call (acquires now job token) q).1
          (acquire-Held job token now q h) o in
      (r, renew-Held job token (last_time now cs) (now + q.lease_ttl) at _ h' a b)
