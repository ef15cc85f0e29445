-- ===== src/Business/Rollup/Laws.antt =====
-- When a threshold is told of, and when it is not.
use loom_unified_agentic_cod.Base.{
  ℕ, ◌≤◌, ◌<◌, ◌≡◌, refl, ap, ◌∙◌, Bool, true, false, Option, none, some, List, [], ◌∷◌, ◌++◌, map,
  arith, ◌==◌, contains, Distinct, any_of, All,
}
use loom_unified_agentic_cod.Base.Dict.{Dict, lookup, lookup-insert}
use loom_unified_agentic_cod.Business.Rollup.{
  RollupAction, soft_warn, quota_exceeded, emit_crossings, or_zero, rounded, Usage, previous,
  roll_pct, run_once,
}

-- A replay with the same use tells of nothing again.
replay-silent : (pct : ℕ) → emit_crossings (rounded pct) pct ≡ []
unfolding emit_crossings
replay-silent pct = ground arith

abbrev pub warns : List RollupAction → Bool
warns = any_of is_warning
  where
    is_warning : RollupAction → Bool
    is_warning soft_warn = true
    is_warning quota_exceeded = false

-- A use within five thousandths of a percent below the soft threshold suppresses the warning: it does not
-- warn itself, and neither does any use that follows it.
pub missed_warning :
    (prev pct next : ℕ)
    → 799950 ≤ pct
    → pct < 800000
    → (warns (emit_crossings prev pct) ≡ false)
      × (warns (emit_crossings (rounded pct) next) ≡ false)
unfolding emit_crossings
missed_warning prev pct next l u = (ground arith, ground arith)

-- The state file has the rounded use.
abbrev Recorded : ℕ → Option ℕ → Dict ℕ → Type 0
Recorded org none state = Unit {0}
Recorded org (some p) state = lookup org state ≡ some (rounded p)

abbrev AllRecorded : List Usage → Dict ℕ → Type 0
AllRecorded us state = All (λ u. Recorded u.org_id u.pct state) us

abbrev pub org_ids : List Usage → List ℕ
org_ids [] = []
org_ids (u ∷ us) = u.org_id ∷ org_ids us

roll-other :
    (k org : ℕ) (o : Option ℕ) (s : Dict ℕ)
    → (k == org) ≡ false
    → lookup k (roll_pct org o s).1 ≡ lookup k s
unfolding roll_pct
roll-other k org none s h = refl
roll-other k org (some p) s h = ground (arith, lookup-insert k org (rounded p) s)

run_once-other :
    (k : ℕ) (us : List Usage) (s : Dict ℕ)
    → contains k (org_ids us) ≡ false
    → lookup k (run_once us s).1 ≡ lookup k s
unfolding run_once
run_once-other k [] s h = refl
run_once-other k (u ∷ us) s h =
    run_once-other k us (roll_pct u.org_id u.pct s).1 (ground arith)
    ∙ roll-other k u.org_id u.pct s (ground arith)

roll-Recorded : (org : ℕ) (o : Option ℕ) (s : Dict ℕ) → Recorded org o (roll_pct org o s).1
unfolding roll_pct
roll-Recorded org none s = tt
roll-Recorded org (some p) s = ground (arith, lookup-insert org org (rounded p) s)

Recorded-same :
    (org : ℕ) (o : Option ℕ) (s s' : Dict ℕ)
    → lookup org s' ≡ lookup org s
    → Recorded org o s
    → Recorded org o s'
Recorded-same org none s s' e r = tt
Recorded-same org (some p) s s' e r = e ∙ r

run_once-Recorded :
    (us : List Usage) (s : Dict ℕ) → Distinct (org_ids us) → AllRecorded us (run_once us s).1
unfolding run_once
run_once-Recorded [] s d = tt
run_once-Recorded (u ∷ us) s d =
    let s' = (roll_pct u.org_id u.pct s).1 in
    (
      Recorded-same u.org_id u.pct s' (run_once us s').1 (run_once-other u.org_id us s' (d.0))
          (roll-Recorded u.org_id u.pct s),
      run_once-Recorded us s' (d.1),
    )

roll-keeps :
    (k org : ℕ) (q o : Option ℕ) (s : Dict ℕ)
    → Recorded org o s
    → Recorded k q s
    → Recorded k q (roll_pct org o s).1
unfolding roll_pct
roll-keeps k org q none s r t = t
roll-keeps k org none (some p) s r t = tt
roll-keeps k org (some x) (some p) s r t = ground (arith, lookup-insert k org (rounded p) s)

keeps-all :
    (org : ℕ) (o : Option ℕ) (us : List Usage) (s : Dict ℕ)
    → Recorded org o s
    → AllRecorded us s
    → AllRecorded us (roll_pct org o s).1
keeps-all org o [] s r a = tt
keeps-all org o (u ∷ us) s r a =
    (roll-keeps u.org_id org u.pct o s r (a.0), keeps-all org o us s r (a.1))

roll-silent : (org : ℕ) (o : Option ℕ) (s : Dict ℕ) → Recorded org o s → (roll_pct org o s).0 ≡ []
unfolding roll_pct previous
roll-silent org none s r = refl
roll-silent org (some p) s r = ap (λ x. emit_crossings (or_zero x) p) r ∙ replay-silent p

recorded-silent : (us : List Usage) (s : Dict ℕ) → AllRecorded us s → (run_once us s).0 ≡ []
unfolding run_once
recorded-silent [] s a = refl
recorded-silent (u ∷ us) s a =
    let r = roll_pct u.org_id u.pct s in
    ap (λ xs. map (λ x. (u.org_id, x)) xs ++ (run_once us r.1).0)
      (roll-silent u.org_id u.pct s (a.0))
    ∙ recorded-silent us r.1 (keeps-all u.org_id u.pct us s (a.0) (a.1))

-- The rollup is idempotent: where every organisation is listed once, a second run over the same uses, on
-- the state that the first has saved, takes no action, whatever the first found.
pub run_once-replay :
    (us : List Usage) (state : Dict ℕ)
    → Distinct (org_ids us)
    → (run_once us (run_once us state).1).0 ≡ []
run_once-replay us state d = recorded-silent us (run_once us state).1 (run_once-Recorded us state d)
