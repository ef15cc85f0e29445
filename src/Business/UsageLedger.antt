-- ===== src/Business/UsageLedger.antt =====
-- loom/business/usage_ledger.py: the append-only ledger of metered attempts, with its file and the set of
-- keys already written. The SHA-256 of `dedup_key` is a parameter, a function of the four values that the
-- code joins. A missing file is a file with no line.
pub mod Laws
pub mod Snapshot
pub mod Restart
mod Tests
use loom_unified_agentic_cod.Base.{
  ℕ, zero, suc, ◌+◌, ◌-◌, ◌*◌, ◌/◌, ◌%◌, ◌^◌, min, max, ◌≤◌, ◌<◌, ◌≡◌, refl, sym, ap, subst, ◌∙◌,
  ◌≢◌, ◌↔◌, ◌⊎◌, inl, inr, Bool, true, false, not, ◌&&◌, ◌||◌, Option, none, some, List, [], ◌∷◌,
  ◌++◌, map, append-nil, append_assoc, arith, ltb, leb, ◌==◌, if◌then◌else◌, ltb→lt, lt→ltb, leb→le,
  le→leb, ==_iff, tests, if_both, if_cases, Bool-cases, Option-cases, is_some, is_none, contains,
  Distinct, contains-append, Distinct-snoc, length, select, any_of, all_of, sum_of, All,
  length-append, length-select-le, sum_of-append, select-append,
}
use loom_unified_agentic_cod.Business.Models.{UsageEvent, UsageLedgerEntry, OrgUsageSnapshot}

-- A line of the file: blank, a valid entry, JSON with a `dedup_key` that is no valid entry, or neither.
pub data Line : Type 0 where
  blank corrupt : Line
  entry : UsageLedgerEntry → Line
  keyed : ℕ → Line

pub record UsageLedger : Type 0 where
  pub file : List Line
  pub written_keys : List ℕ
  pub entries : List UsageLedgerEntry

-- `set.add`
abbrev pub add_key : ℕ → List ℕ → List ℕ
add_key k ks = if contains k ks then ks else k ∷ ks

-- One line of `_load_existing_entries`.
load_line : Line → UsageLedger → UsageLedger
load_line blank l = l
load_line corrupt l = l
load_line (keyed k) l = l
load_line (entry e) l =
    if contains e.dedup_key l.written_keys
    then l
    else record l { written_keys = e.dedup_key ∷ l.written_keys; entries = l.entries ++ e ∷ [] }

load_lines : List Line → UsageLedger → UsageLedger
load_lines [] l = l
load_lines (x ∷ xs) l = load_lines xs (load_line x l)

-- `UsageLedger(storage_dir)` over a file.
pub load : List Line → UsageLedger
unfolding load_line load_lines
load file = load_lines file (record { file = file; written_keys = []; entries = [] })

-- The keys that `record` picks up from the file before it looks for its own.
scan_line : Line → List ℕ → List ℕ
scan_line blank ks = ks
scan_line corrupt ks = ks
scan_line (entry e) ks = add_key e.dedup_key ks
scan_line (keyed k) ks = add_key k ks

pub scan : List Line → List ℕ → List ℕ
unfolding scan_line
scan [] ks = ks
scan (x ∷ xs) ks = scan xs (scan_line x ks)

module _ (digest : ℕ → ℕ → ℕ → ℕ → ℕ) where
  -- `UsageEvent.dedup_key`
  abbrev pub dedup_key : UsageEvent → ℕ
  dedup_key e = digest e.run_id e.step_id e.attempt_number e.input_context_hash

  abbrev pub entry_of : UsageEvent → UsageLedgerEntry
  entry_of e = record {
    dedup_key = dedup_key e;
    org_id = e.org_id;
    run_id = e.run_id;
    step_id = e.step_id;
    attempt_number = e.attempt_number;
    tokens_in = e.tokens_in;
    tokens_out = e.tokens_out;
    model_id = e.model_id;
    sandbox_tier = e.sandbox_tier;
    wall_clock_ms = e.wall_clock_ms;
    cost_usd = e.cost_usd;
  }

  -- The second half of `record`, over the keys that the file has shown; `writable` is false where the
  -- append raises.
  append : Bool → UsageEvent → UsageLedger → Option UsageLedgerEntry × UsageLedger
  append writable e l =
      if contains (dedup_key e) l.written_keys
      then (none, l)
      else if not writable
      then (none, l)
      else (
        some (entry_of e),
        record l {
          file = l.file ++ entry (entry_of e) ∷ [];
          written_keys = add_key (dedup_key e) l.written_keys;
          entries = l.entries ++ entry_of e ∷ [];
        },
      )

  pub record_event : Bool → UsageEvent → UsageLedger → Option UsageLedgerEntry × UsageLedger
  unfolding append
  record_event writable e l =
      append writable e (record l { written_keys = scan l.file l.written_keys })

pub get_entries_for_org : ℕ → UsageLedger → List UsageLedgerEntry
get_entries_for_org org l = select (λ e. e.org_id == org) l.entries

pub get_entries_for_run : ℕ → UsageLedger → List UsageLedgerEntry
get_entries_for_run run l = select (λ e. e.run_id == run) l.entries

-- `set(e.run_id for e in org_entries)`
abbrev run_ids : List UsageLedgerEntry → List ℕ
run_ids [] = []
run_ids (e ∷ es) = add_key e.run_id (run_ids es)

pub build_snapshot : ℕ → UsageLedger → OrgUsageSnapshot
unfolding get_entries_for_org
build_snapshot org l =
    let es = get_entries_for_org org l in
    record {
      runs_consumed = length (run_ids es);
      tokens_consumed = sum_of (λ e. e.tokens_in + e.tokens_out) es;
      sandbox_ms_consumed = sum_of (λ e. e.wall_clock_ms) es;
      cost_usd_accrued = sum_of (λ e. e.cost_usd) es;
    }
