-- ===== src/Business/UsageLedger/Snapshot.antt =====
-- What a recorded event adds to the month's snapshot of its organisation.
use loom_unified_agentic_cod.Base.{
  ℕ, ◌+◌, ◌≡◌, refl, Bool, true, none, some, List, [], ◌∷◌, ◌++◌, arith, ◌==◌, if◌then◌else◌,
  contains, select, sum_of, sum_of-append, select-append,
}
use loom_unified_agentic_cod.Business.Models.{UsageEvent, UsageLedgerEntry}
use loom_unified_agentic_cod.Business.UsageLedger.{
  UsageLedger, entry_of, dedup_key, append, scan, record_event, get_entries_for_org, build_snapshot,
}

-- Recording an event whose key is known, from memory or from the file, returns nothing and leaves the
-- file and every snapshot as they were.
pub known_event :
    (digest : ℕ → ℕ → ℕ → ℕ → ℕ) (w : Bool) (e : UsageEvent) (l : UsageLedger) (org : ℕ)
    → contains (dedup_key digest e) (scan l.file l.written_keys) ≡ true
    → let (r, l') = record_event digest w e l in
      (r ≡ none) × (l'.file ≡ l.file) × (build_snapshot org l' ≡ build_snapshot org l)
unfolding record_event append build_snapshot
known_event digest w e l org h = simp h (refl, refl, refl)

recorded-entries :
    (digest : ℕ → ℕ → ℕ → ℕ → ℕ) (w : Bool) (e : UsageEvent) (l : UsageLedger)
    (x : UsageLedgerEntry)
    → (record_event digest w e l).0 ≡ some x
    → (record_event digest w e l).1.entries ≡ l.entries ++ entry_of digest e ∷ []
unfolding record_event append
recorded-entries digest w e l x h = ground arith

-- A sum over the entries of one organisation, with one more entry.
sum-snoc :
    (f : UsageLedgerEntry → ℕ) (p : UsageLedgerEntry → Bool) (es : List UsageLedgerEntry)
    (e : UsageLedgerEntry)
    → sum_of f (select p (es ++ e ∷ [])) ≡ sum_of f (select p es) + (if p e then f e else 0)
sum-snoc f p es e =
    rw (select-append p es (e ∷ []))
      (ground (arith, sum_of-append f (select p es) (select p (e ∷ []))))

-- A recorded event adds its tokens and its wall clock to the snapshot of its organisation, and nothing to
-- that of another.
pub snapshot-record :
    (digest : ℕ → ℕ → ℕ → ℕ → ℕ) (w : Bool) (e : UsageEvent) (l : UsageLedger) (org : ℕ)
    {x : UsageLedgerEntry}
    → (record_event digest w e l).0 ≡ some x
    → let s = build_snapshot org l in
      let s' = build_snapshot org (record_event digest w e l).1 in
      (s'.tokens_consumed
        ≡ s.tokens_consumed + (if e.org_id == org then e.tokens_in + e.tokens_out else 0))
      × (s'.sandbox_ms_consumed
          ≡ s.sandbox_ms_consumed + (if e.org_id == org then e.wall_clock_ms else 0))
unfolding build_snapshot get_entries_for_org
snapshot-record digest w e l org {x} h =
    let entries = recorded-entries digest w e l x h in
    let mine = λ (y : UsageLedgerEntry). y.org_id == org in
    (
      rw entries (sum-snoc (λ y. y.tokens_in + y.tokens_out) mine l.entries (entry_of digest e)),
      rw entries (sum-snoc (λ y. y.wall_clock_ms) mine l.entries (entry_of digest e)),
    )
