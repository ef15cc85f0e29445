-- ===== src/Api/RateLimiter/Laws.antt =====
-- No window of the limiter's length holds more calls than the limit.
use loom_unified_agentic_cod.Base.{
  ℕ, ◌+◌, ◌≤◌, ◌≡◌, refl, sym, ap, ◌∙◌, Bool, not, ◌&&◌, List, [], ◌∷◌, ◌++◌, arith, leb, if_both,
  if_cases, length, select, length-append, length-select-le, select-append,
}
use loom_unified_agentic_cod.Api.RateLimiter.{
  drop_old, Answer, redis_required, allowed, limited, allow_local, allow,
}

-- The calls granted so far beside the times that the limiter keeps.
pub record Traffic : Type 0 where
  pub state : List ℕ
  pub granted : List ℕ

log : Answer → ℕ → List ℕ → List ℕ
log allowed now granted = granted ++ now ∷ []
log limited now granted = granted
log redis_required now granted = granted

pub call : Bool → Bool → ℕ → ℕ → ℕ → Traffic → Traffic
unfolding log
call prod fallback limit window now t =
    let (a, s) = allow prod fallback limit window now t.state in
    record { state = s; granted = log a now t.granted }

pub calls : Bool → Bool → ℕ → ℕ → List ℕ → Traffic → Traffic
unfolding call
calls prod fallback limit window [] t = t
calls prod fallback limit window (now ∷ later) t =
    calls prod fallback limit window later (call prod fallback limit window now t)

-- The clock does not go back: from `now`, over the calls, to `finish`.
abbrev pub Ascending : ℕ → List ℕ → ℕ → Type 0
Ascending now [] finish = now ≤ finish
Ascending now (t ∷ ts) finish = (now ≤ t) × Ascending t ts finish

-- The times that lie less than a window before an instant.
abbrev pub recent : ℕ → ℕ → List ℕ → List ℕ
recent window at = select (λ t. not (leb (t + window) at))

drop_old-recent :
    (window now at : ℕ) (ts : List ℕ)
    → now ≤ at
    → recent window at (drop_old window now ts) ≡ recent window at ts
unfolding drop_old
drop_old-recent window now at [] h = refl
drop_old-recent window now at (t ∷ ts) h = ground (arith, drop_old-recent window now at ts h)

record IsFaithful (limit window now : ℕ) (t : Traffic) : Type 0 where
  bounded : length t.state ≤ limit
  same : (at : ℕ) → now ≤ at → recent window at t.granted ≡ recent window at t.state

drop_old-length : (window now : ℕ) (ts : List ℕ) → length (drop_old window now ts) ≤ length ts
unfolding drop_old
drop_old-length window now [] = omega arith
drop_old-length window now (t ∷ ts) = ground (arith, drop_old-length window now ts)

abbrev After : ℕ → ℕ → ℕ → List ℕ → Answer × List ℕ → Type 0
After limit window now granted x =
    IsFaithful limit window now (record { state = x.1; granted = log x.0 now granted })

local-After :
    (limit window before now : ℕ) (t : Traffic)
    → before ≤ now
    → IsFaithful limit window before t
    → After limit window now t.granted (allow_local limit window now t.state)
unfolding allow_local log
local-After limit window before now t h i =
    let kept = drop_old window now t.state in
    let same_kept : (at : ℕ) → now ≤ at → recent window at t.granted ≡ recent window at kept =
      λ at p. i.same at (omega arith) ∙ sym (drop_old-recent window now at t.state p) in
    if_cases (After limit window now t.granted) (leb limit (length kept)) (limited, kept)
      (allowed, kept ++ now ∷ [])
      (λ q. record {
        bounded = omega (arith, drop_old-length window now t.state, i.bounded);
        same = same_kept;
      })
      (λ q. record {
        bounded = ground (arith, length-append kept (now ∷ []));
        same = λ at p.
            select-append _ t.granted (now ∷ [])
            ∙ ap (λ xs. xs ++ recent window at (now ∷ [])) (same_kept at p)
            ∙ sym (select-append _ kept (now ∷ []));
      })

call-IsFaithful :
    (prod fallback : Bool) (limit window before now : ℕ) (t : Traffic)
    → before ≤ now
    → IsFaithful limit window before t
    → IsFaithful limit window now (call prod fallback limit window now t)
unfolding call allow log
call-IsFaithful prod fallback limit window before now t h i =
    if_both (After limit window now t.granted) (prod && not fallback) (redis_required, t.state)
      (allow_local limit window now t.state)
      (record { bounded = i.bounded; same = λ at p. i.same at (omega arith) })
      (local-After limit window before now t h i)

calls-IsFaithful :
    (prod fallback : Bool) (limit window now finish : ℕ) (times : List ℕ) (t : Traffic)
    → Ascending now times finish
    → IsFaithful limit window now t
    → IsFaithful limit window finish (calls prod fallback limit window times t)
unfolding calls
calls-IsFaithful prod fallback limit window now finish [] t a i = record {
  bounded = i.bounded;
  same = λ at p. i.same at (omega arith);
}
calls-IsFaithful prod fallback limit window now finish (x ∷ xs) t a i =
    calls-IsFaithful prod fallback limit window x finish xs (call prod fallback limit window x t)
      (a.1) (call-IsFaithful prod fallback limit window now x t (a.0) i)

abbrev pub quiet : Traffic
quiet = record { state = []; granted = [] }

-- From an empty window, over any calls under a clock that does not go back, the calls granted in the
-- last window, as seen at the last call or later, are no more than the limit.
pub window_bound :
    (prod fallback : Bool) (limit window finish : ℕ) (times : List ℕ)
    → Ascending 0 times finish
    → length (recent window finish (calls prod fallback limit window times quiet).granted) ≤ limit
window_bound prod fallback limit window finish times a =
    let t = calls prod fallback limit window times quiet in
    let i =
      calls-IsFaithful prod fallback limit window 0 finish times quiet a
        (record { bounded = omega arith; same = λ at p. refl }) in
    omega (
      arith,
      ap length (i.same finish (omega arith)),
      length-select-le (λ x. not (leb (x + window) finish)) t.state,
      i.bounded,
    )
