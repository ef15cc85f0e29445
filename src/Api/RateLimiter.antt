-- ===== src/Api/RateLimiter.antt =====
-- `RedisRateLimiter.allow` of loom/infra/distributed.py without Redis: the sliding window of one key, in
-- memory. A time is a number of the clock's ticks; `now - t >= window` is written as a sum.
pub mod Laws
mod Tests
use loom_unified_agentic_cod.Base.{
  ℕ, zero, suc, ◌+◌, ◌-◌, ◌*◌, ◌/◌, ◌%◌, ◌^◌, min, max, ◌≤◌, ◌<◌, ◌≡◌, refl, sym, ap, subst, ◌∙◌,
  ◌≢◌, ◌↔◌, ◌⊎◌, inl, inr, Bool, true, false, not, ◌&&◌, ◌||◌, Option, none, some, List, [], ◌∷◌,
  ◌++◌, map, append-nil, append_assoc, arith, ltb, leb, ◌==◌, if◌then◌else◌, ltb→lt, lt→ltb, leb→le,
  le→leb, ==_iff, tests, if_both, if_cases, Bool-cases, Option-cases, is_some, is_none, contains,
  Distinct, contains-append, Distinct-snoc, length, select, any_of, all_of, sum_of, All,
  length-append, length-select-le, sum_of-append, select-append,
}

-- The loop that drops the old times from the left.
pub drop_old : ℕ → ℕ → List ℕ → List ℕ
drop_old window now [] = []
drop_old window now (t ∷ ts) =
    let rest = drop_old window now ts in if leb (t + window) now then rest else t ∷ ts

pub data Answer : Type 0 where
  redis_required allowed limited : Answer

-- One call for the key's times: the answer and the times that stay.
pub allow_local : ℕ → ℕ → ℕ → List ℕ → Answer × List ℕ
unfolding drop_old
allow_local limit window now state =
    let kept = drop_old window now state in
    if leb limit (length kept) then (limited, kept) else (allowed, kept ++ now ∷ [])

-- `is_prod` and `allow_fallback` are read from the environment.
pub allow : Bool → Bool → ℕ → ℕ → ℕ → List ℕ → Answer × List ℕ
unfolding allow_local
allow is_prod allow_fallback limit window now state =
    if is_prod && not allow_fallback
    then (redis_required, state)
    else allow_local limit window now state
