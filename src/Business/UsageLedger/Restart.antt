-- ===== src/Business/UsageLedger/Restart.antt =====
-- A restart restores the entries from the file.
use loom_unified_agentic_cod.Base.{
  ℕ, ◌≡◌, refl, sym, ap, ◌∙◌, Bool, false, not, Option, List, [], ◌∷◌, ◌++◌, map, append-nil,
  append_assoc, arith, if_both, contains, Distinct,
}
use loom_unified_agentic_cod.Business.Models.{UsageEvent, UsageLedgerEntry}
use loom_unified_agentic_cod.Business.UsageLedger.{
  entry, UsageLedger, load_line, load_lines, load, dedup_key, entry_of, append, record_event,
}
use loom_unified_agentic_cod.Business.UsageLedger.Laws.{entry_keys, record_all, ledger-Distinct}

-- The file holds exactly the entries, in order.
abbrev pub InSync : UsageLedger → Type 0
InSync l = l.file ≡ map entry l.entries

map-snoc :
    (xs : List UsageLedgerEntry) (e : UsageLedgerEntry)
    → map entry (xs ++ e ∷ []) ≡ map entry xs ++ entry e ∷ []
map-snoc [] e = refl
map-snoc (x ∷ xs) e = ap (◌∷◌ (entry x)) (map-snoc xs e)

module _ (digest : ℕ → ℕ → ℕ → ℕ → ℕ) where
  append-InSync :
      (w : Bool) (e : UsageEvent) (l : UsageLedger) → InSync l → InSync (append digest w e l).1
  unfolding append
  append-InSync w e l s =
      let P = λ (r : Option UsageLedgerEntry × UsageLedger). InSync r.1 in
      if_both P (contains (dedup_key digest e) l.written_keys) _ _ s
        (if_both P (not w) _ _ s (rw (s, map-snoc l.entries (entry_of digest e))))

  record_event-InSync :
      (w : Bool) (e : UsageEvent) (l : UsageLedger)
      → InSync l
      → InSync (record_event digest w e l).1
  unfolding record_event
  record_event-InSync w e l s = append-InSync w e _ s

  record_all-InSync :
      (es : List (Bool × UsageEvent)) (l : UsageLedger) → InSync l → InSync (record_all digest es l)
  record_all-InSync [] l s = s
  record_all-InSync ((w, e) ∷ es) l s =
      record_all-InSync es (record_event digest w e l).1 (record_event-InSync w e l s)

-- None of the keys is among those written.
abbrev Fresh : List ℕ → List ℕ → Type 0
Fresh written [] = Unit {0}
Fresh written (k ∷ ks) = (contains k written ≡ false) × Fresh written ks

Fresh-cons :
    (k : ℕ) (written ks : List ℕ)
    → contains k ks ≡ false
    → Fresh written ks
    → Fresh (k ∷ written) ks
Fresh-cons k written [] h f = tt
Fresh-cons k written (j ∷ ks) h f = ground (arith, Fresh-cons k written ks)

load-entries :
    (es : List UsageLedgerEntry) (l : UsageLedger)
    → Distinct (entry_keys es)
    → Fresh l.written_keys (entry_keys es)
    → (load_lines (map entry es) l).entries ≡ l.entries ++ es
unfolding load_lines load_line
load-entries [] l d f = sym (append-nil l.entries)
load-entries (e ∷ es) l d f =
    rw (f.0, load_lines)
      (load-entries es _ d.1 (Fresh-cons e.dedup_key l.written_keys (entry_keys es) d.0 f.1)
        ∙ append_assoc l.entries (e ∷ []) es)

Fresh-nil : (ks : List ℕ) → Fresh [] ks
Fresh-nil [] = tt
Fresh-nil (k ∷ ks) = (refl, Fresh-nil ks)

-- A ledger that began with an empty file gets back exactly its entries, in order, when it is loaded from
-- the file that its events have left, including events whose write failed.
pub restart-entries :
    (digest : ℕ → ℕ → ℕ → ℕ → ℕ) (es : List (Bool × UsageEvent))
    → let l = record_all digest es (load []) in (load l.file).entries ≡ l.entries
unfolding load
restart-entries digest es =
    let l = record_all digest es (load []) in
    rw (record_all-InSync digest es (load []) refl)
      (load-entries l.entries _ (ledger-Distinct digest [] es) (Fresh-nil (entry_keys l.entries)))
