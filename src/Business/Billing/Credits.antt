-- ===== src/Business/Billing/Credits.antt =====
-- Run credits: the retries, the envelope, and the credits of each run in the ledger.
use loom_unified_agentic_cod.Base.{
  ℕ, ◌+◌, ◌/◌, max, ◌≤◌, ◌≡◌, refl, sym, ap, ◌∙◌, ◌↔◌, inl, inr, Bool, false, ◌||◌, Option, none,
  some, List, [], ◌∷◌, ◌++◌, map, append-nil, append_assoc, arith, ltb, ◌==◌, if◌then◌else◌, ==_iff,
  Bool-cases, select, any_of, sum_of, sum_of-append,
}
use loom_unified_agentic_cod.Base.Dict.{Dict, lookup, insert, values, lookup-insert}
use loom_unified_agentic_cod.Business.Models.{UsageEvent, UsageLedgerEntry}
use loom_unified_agentic_cod.Business.Billing.{
  run_credit_max_retries_per_step, run_tokens, run_sandbox_seconds, or_zero, step_attempts,
  run_max_retries_exceeded, beyond, credits_for_run, event_of, or_nil, group_by_run, map_credits,
  credits_for_ledger_entries,
}

abbrev too_many : ℕ → Bool
too_many a = ltb (1 + run_credit_max_retries_per_step) a

raise_attempt :
    (k a : ℕ) (d : Dict ℕ)
    → any_of too_many (values (insert k (max (or_zero (lookup k d)) a) d))
      ≡ (any_of too_many (values d) || too_many a)
raise_attempt k a [] = ground arith
raise_attempt k a ((j, w) ∷ d) = ground (arith, raise_attempt k a d)

step_attempts-any :
    (es : List UsageEvent) (d : Dict ℕ)
    → any_of too_many (values (step_attempts es d))
      ≡ (any_of too_many (values d) || any_of (λ e. too_many e.attempt_number) es)
unfolding step_attempts
step_attempts-any [] d = ground arith
step_attempts-any (e ∷ es) d = ground (
  arith,
  step_attempts-any es (insert e.step_id (max (or_zero (lookup e.step_id d)) e.attempt_number) d),
  raise_attempt e.step_id e.attempt_number d,
)

-- The table of the highest attempt of each step decides as a plain look at the events does: some event
-- is an attempt beyond the third.
pub retries_exceeded-any :
    (es : List UsageEvent) → run_max_retries_exceeded es ≡ any_of (λ e. ltb 3 e.attempt_number) es
unfolding run_max_retries_exceeded
retries_exceeded-any es = step_attempts-any es []

-- A run costs one credit exactly when it stays within the envelope: no step beyond its third attempt, at
-- most 400,000 tokens, and less than 2,701 seconds of sandbox time.
pub single_credit_iff :
    (es : List UsageEvent)
    → (credits_for_run es ≡ 1) ↔ (
        (any_of (λ e. ltb 3 e.attempt_number) es ≡ false)
        × (run_tokens es ≤ 400000)
        × (run_sandbox_seconds es ≤ 2700))
unfolding credits_for_run
single_credit_iff es =
    (λ h. ground (arith, retries_exceeded-any es), λ h. ground (arith, retries_exceeded-any es))

any_of-append :
    (p : UsageEvent → Bool) (xs ys : List UsageEvent)
    → any_of p (xs ++ ys) ≡ (any_of p xs || any_of p ys)
any_of-append p [] ys = refl
any_of-append p (x ∷ xs) ys = ground (arith, any_of-append p xs ys)

tokens_mono : (a b : ℕ) → beyond a 400000 ≤ beyond (a + b) 400000
tokens_mono a b = ground arith

seconds_mono : (a b : ℕ) → beyond (a / 1000) 2700 ≤ beyond ((a + b) / 1000) 2700
seconds_mono a b = ground arith

retries_mono :
    (es more : List UsageEvent)
    → (if run_max_retries_exceeded es then 1 else 0)
      ≤ (if run_max_retries_exceeded (es ++ more) then 1 else 0)
retries_mono es more = ground (
  arith,
  retries_exceeded-any es,
  retries_exceeded-any (es ++ more),
  any_of-append (λ e. ltb 3 e.attempt_number) es more,
)

-- More metered events never cost fewer credits.
pub credits_mono : (es more : List UsageEvent) → credits_for_run es ≤ credits_for_run (es ++ more)
unfolding credits_for_run
credits_mono es more =
    rw
      (
        sum_of-append (λ e. e.tokens_in + e.tokens_out) es more,
        sum_of-append (λ e. e.wall_clock_ms) es more,
      )
      (omega (
        arith,
        retries_mono es more,
        tokens_mono (run_tokens es) (run_tokens more),
        seconds_mono (sum_of (λ e. e.wall_clock_ms) es) (sum_of (λ e. e.wall_clock_ms) more),
      ))

-- A run's events after some more.
abbrev extend : Option (List UsageEvent) → List UsageEvent → Option (List UsageEvent)
extend none [] = none
extend none (x ∷ xs) = some (x ∷ xs)
extend (some ys) xs = some (ys ++ xs)

extend-snoc :
    (o : Option (List UsageEvent)) (x : UsageEvent) (xs : List UsageEvent)
    → extend (some (or_nil o ++ x ∷ [])) xs ≡ extend o (x ∷ xs)
extend-snoc none x xs = refl
extend-snoc (some ys) x xs = ap some (append_assoc ys (x ∷ []) xs)

extend-some : (ys : List UsageEvent) → extend (some ys) [] ≡ some ys
extend-some ys = ap some (append-nil ys)

extend_nil : (o : Option (List UsageEvent)) → extend o [] ≡ o
extend_nil none = refl
extend_nil (some ys) = ap some (append-nil ys)

abbrev pub events_of_run : ℕ → List UsageLedgerEntry → List UsageEvent
events_of_run r es = map event_of (select (λ e. r == e.run_id) es)

group_by_run-lookup :
    (r : ℕ) (es : List UsageLedgerEntry) (d : Dict (List UsageEvent))
    → lookup r (group_by_run es d) ≡ extend (lookup r d) (events_of_run r es)
unfolding group_by_run
group_by_run-lookup r [] d = sym (extend_nil (lookup r d))
group_by_run-lookup r (e ∷ es) d =
    let old = or_nil (lookup e.run_id d) ++ event_of e ∷ [] in
    rw (group_by_run-lookup r es (insert e.run_id old d), lookup-insert r e.run_id old d)
      (elim (Bool-cases (r == e.run_id)) [
        | inl same ↦ rw same (
            extend-snoc (lookup e.run_id d) (event_of e) (events_of_run r es)
            ∙ ap (λ k. extend (lookup k d) (event_of e ∷ events_of_run r es))
                (sym ((==_iff r e.run_id).0 same)))
        | inr other ↦ rw other
      ])

-- The credits of a run's events; a run with no event has no entry.
abbrev pub credits_of : List UsageEvent → Option ℕ
credits_of [] = none
credits_of (e ∷ es) = some (credits_for_run (e ∷ es))

abbrev credits? : Option (List UsageEvent) → Option ℕ
credits? none = none
credits? (some es) = some (credits_for_run es)

map_credits-lookup :
    (r : ℕ) (d : Dict (List UsageEvent)) → lookup r (map_credits d) ≡ credits? (lookup r d)
unfolding map_credits
map_credits-lookup r [] = refl
map_credits-lookup r ((j, es) ∷ d) = ground (arith, map_credits-lookup r d)

credits?-extend : (xs : List UsageEvent) → credits? (extend none xs) ≡ credits_of xs
credits?-extend [] = refl
credits?-extend (x ∷ xs) = refl

-- The table of credits holds, for each run, the credits of exactly that run's entries in the order of the
-- ledger, and nothing for a run without entries.
pub ledger_credits :
    (r : ℕ) (es : List UsageLedgerEntry)
    → lookup r (credits_for_ledger_entries es) ≡ credits_of (events_of_run r es)
unfolding credits_for_ledger_entries
ledger_credits r es =
    map_credits-lookup r (group_by_run es [])
    ∙ ap credits? (group_by_run-lookup r es [])
    ∙ credits?-extend (events_of_run r es)
