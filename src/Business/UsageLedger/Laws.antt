-- ===== src/Business/UsageLedger/Laws.antt =====
-- No attempt is recorded twice, and a restart restores what was recorded.
use loom_unified_agentic_cod.Base.{
  ℕ, ◌≡◌, refl, ap, Bool, true, false, not, Option, List, [], ◌∷◌, ◌++◌, arith, if_both, if_cases,
  contains, Distinct, contains-append, Distinct-snoc,
}
use loom_unified_agentic_cod.Business.Models.{UsageEvent, UsageLedgerEntry}
use loom_unified_agentic_cod.Business.UsageLedger.{
  Line, blank, corrupt, entry, keyed, UsageLedger, add_key, load_line, load_lines, load, scan_line,
  scan, dedup_key, entry_of, append, record_event,
}

abbrev pub entry_keys : List UsageLedgerEntry → List ℕ
entry_keys [] = []
entry_keys (e ∷ es) = e.dedup_key ∷ entry_keys es

-- Every entry has a key of its own, and every such key is known as written.
pub record IsSound (l : UsageLedger) : Type 0 where
  pub distinct : Distinct (entry_keys l.entries)
  pub known : (k : ℕ) → contains k (entry_keys l.entries) ≡ true → contains k l.written_keys ≡ true

entry_keys-append :
    (xs ys : List UsageLedgerEntry) → entry_keys (xs ++ ys) ≡ entry_keys xs ++ entry_keys ys
entry_keys-append [] ys = refl
entry_keys-append (x ∷ xs) ys = ap (◌∷◌ x.dedup_key) (entry_keys-append xs ys)

contains-add_key : (k j : ℕ) (ks : List ℕ) → contains k ks ≡ true → contains k (add_key j ks) ≡ true
contains-add_key k j ks h = ground arith

add_key_self : (k : ℕ) (ks : List ℕ) → contains k (add_key k ks) ≡ true
add_key_self k ks = ground arith

scan_line-keeps :
    (k : ℕ) (x : Line) (ks : List ℕ) → contains k ks ≡ true → contains k (scan_line x ks) ≡ true
unfolding scan_line
scan_line-keeps k blank ks h = h
scan_line-keeps k corrupt ks h = h
scan_line-keeps k (entry e) ks h = contains-add_key k e.dedup_key ks h
scan_line-keeps k (keyed j) ks h = contains-add_key k j ks h

scan-keeps :
    (k : ℕ) (xs : List Line) (ks : List ℕ) → contains k ks ≡ true → contains k (scan xs ks) ≡ true
unfolding scan
scan-keeps k [] ks h = h
scan-keeps k (x ∷ xs) ks h = scan-keeps k xs (scan_line x ks) (scan_line-keeps k x ks h)

-- A fresh key at the end of the entries.
snoc-IsSound :
    (e : UsageLedgerEntry) (l : UsageLedger) (file : List Line) (keys : List ℕ)
    → IsSound l
    → contains e.dedup_key l.written_keys ≡ false
    → ((k : ℕ) → contains k l.written_keys ≡ true → contains k keys ≡ true)
    → contains e.dedup_key keys ≡ true
    → IsSound (record { file = file; written_keys = keys; entries = l.entries ++ e ∷ [] })
snoc-IsSound e l file keys s fresh more new = record {
  distinct =
      rw (entry_keys-append l.entries (e ∷ []))
        (Distinct-snoc (entry_keys l.entries) e.dedup_key s.distinct (unknown _ refl));
  known = λ k h. ground (
    arith,
    rw (entry_keys-append l.entries (e ∷ [])) at h,
    contains-append k (entry_keys l.entries) (e.dedup_key ∷ []),
    s.known k,
    more k,
    new,
  );
}
  where
    unknown :
        (b : Bool)
        → contains e.dedup_key (entry_keys l.entries) ≡ b
        → contains e.dedup_key (entry_keys l.entries) ≡ false
    unknown true h = cc (s.known e.dedup_key h)
    unknown false h = h

-- Knowing more keys keeps a ledger sound.
more_keys :
    (l : UsageLedger) (keys : List ℕ)
    → IsSound l
    → ((k : ℕ) → contains k l.written_keys ≡ true → contains k keys ≡ true)
    → IsSound (record l { written_keys = keys })
more_keys l keys s more = record { distinct = s.distinct; known = λ k h. more k (s.known k h) }

module _ (digest : ℕ → ℕ → ℕ → ℕ → ℕ) where
  append-IsSound :
      (w : Bool) (e : UsageEvent) (l : UsageLedger) → IsSound l → IsSound (append digest w e l).1
  unfolding append
  append-IsSound w e l s =
      let k : ℕ = dedup_key digest e in
      if_cases (λ (r : Option UsageLedgerEntry × UsageLedger). IsSound r.1)
        (contains k l.written_keys) _ _ (λ _. s)
        λ fresh.
          if_both (λ (r : Option UsageLedgerEntry × UsageLedger). IsSound r.1) (not w) _ _ s
            (snoc-IsSound (entry_of digest e) l _ (add_key k l.written_keys) s fresh
              (λ j. contains-add_key j k l.written_keys) (add_key_self k l.written_keys))

  -- Recording an event keeps every entry's key its own, whether or not the file can be written.
  record_event-IsSound :
      (w : Bool) (e : UsageEvent) (l : UsageLedger)
      → IsSound l
      → IsSound (record_event digest w e l).1
  unfolding record_event
  record_event-IsSound w e l s =
      append-IsSound w e _
        (more_keys l (scan l.file l.written_keys) s (λ k. scan-keeps k l.file l.written_keys))

  -- Events one after another, each with whether the file could be written.
  abbrev pub record_all : List (Bool × UsageEvent) → UsageLedger → UsageLedger
  record_all [] l = l
  record_all ((w, e) ∷ es) l = record_all es (record_event digest w e l).1

  record_all-IsSound :
      (es : List (Bool × UsageEvent)) (l : UsageLedger) → IsSound l → IsSound (record_all es l)
  record_all-IsSound [] l s = s
  record_all-IsSound ((w, e) ∷ es) l s =
      record_all-IsSound es (record_event digest w e l).1 (record_event-IsSound w e l s)

load_line-IsSound : (x : Line) (l : UsageLedger) → IsSound l → IsSound (load_line x l)
unfolding load_line
load_line-IsSound blank l s = s
load_line-IsSound corrupt l s = s
load_line-IsSound (keyed k) l s = s
load_line-IsSound (entry e) l s =
    if_cases IsSound (contains e.dedup_key l.written_keys) _ _ (λ _. s)
      λ fresh.
        snoc-IsSound e l l.file (e.dedup_key ∷ l.written_keys) s fresh (λ k h. ground arith)
          (ground arith)

load_lines-IsSound : (xs : List Line) (l : UsageLedger) → IsSound l → IsSound (load_lines xs l)
unfolding load_lines
load_lines-IsSound [] l s = s
load_lines-IsSound (x ∷ xs) l s = load_lines-IsSound xs (load_line x l) (load_line-IsSound x l s)

-- However the file looks, after a restart and any further events no two entries have the same
-- deduplication key, which is the digest of the run, the step, the attempt and the hash of its input.
pub ledger-Distinct :
    (digest : ℕ → ℕ → ℕ → ℕ → ℕ) (file : List Line) (es : List (Bool × UsageEvent))
    → Distinct (entry_keys (record_all digest es (load file)).entries)
unfolding load
ledger-Distinct digest file es =
    let empty : UsageLedger = record { file = file; written_keys = []; entries = [] } in
    let s : IsSound empty = record { distinct = tt; known = λ k h. cc } in
    (record_all-IsSound digest es (load file) (load_lines-IsSound file empty s)).distinct
