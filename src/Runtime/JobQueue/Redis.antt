-- ===== src/Runtime/JobQueue/Redis.antt =====
-- What loom/runtime/job_queue.py relies on of Redis: a key with an expiry, set where it is absent, and the
-- two scripts that renew and delete it where it still has a given value. The clock is an argument.
use loom_unified_agentic_cod.Base.{
  ℕ, ◌+◌, ◌≤◌, ◌≡◌, Bool, false, ◌&&◌, Option, none, some, ltb, ◌==◌, if◌then◌else◌, is_none,
}

abbrev pub is_token : ℕ → Option ℕ → Bool
is_token t none = false
is_token t (some x) = x == t

pub record LeaseStore (R : Type 0) : Type 0 where
  -- `GET key` at a time
  pub value : ℕ → ℕ → R → Option ℕ
  -- `SET key token NX EX ttl`: time, key, token, ttl
  pub set_nx : ℕ → ℕ → ℕ → ℕ → R → Bool × R
  -- `EXPIRE` and `DEL` under a comparison with the token
  pub renew_equal : ℕ → ℕ → ℕ → ℕ → R → Bool × R
  pub delete_equal : ℕ → ℕ → ℕ → R → Bool × R
  pub set_nx-answer : (now k t ttl : ℕ) (r : R) → (set_nx now k t ttl r).0 ≡ is_none (value now k r)
  pub set_nx-value :
      (now k t ttl now' k' : ℕ) (r : R)
      → now ≤ now'
      → value now' k' (set_nx now k t ttl r).1 ≡ (
          if k' == k && is_none (value now k r)
          then (if ltb now' (now + ttl) then some t else none)
          else value now' k' r)
  pub renew-answer :
      (now k t ttl : ℕ) (r : R) → (renew_equal now k t ttl r).0 ≡ is_token t (value now k r)
  pub renew-value :
      (now k t ttl now' k' : ℕ) (r : R)
      → now ≤ now'
      → value now' k' (renew_equal now k t ttl r).1 ≡ (
          if k' == k && is_token t (value now k r)
          then (if ltb now' (now + ttl) then some t else none)
          else value now' k' r)
  pub delete-answer :
      (now k t : ℕ) (r : R) → (delete_equal now k t r).0 ≡ is_token t (value now k r)
  pub delete-value :
      (now k t now' k' : ℕ) (r : R)
      → now ≤ now'
      → value now' k' (delete_equal now k t r).1
        ≡ (if k' == k && is_token t (value now k r) then none else value now' k' r)
