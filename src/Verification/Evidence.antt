-- ===== src/Verification/Evidence.antt =====
-- loom/verification/bundle.py: the evidence bundler, its file, its cache, the exports and the checks. The
-- directory of the exports is not chosen anew in a call.
pub mod Chain
pub mod Laws
pub mod Tamper
mod Tests
use loom_unified_agentic_cod.Base.{
  ℕ, zero, suc, ◌+◌, ◌-◌, ◌*◌, ◌/◌, ◌%◌, ◌^◌, min, max, ◌≤◌, ◌<◌, ◌≡◌, refl, sym, ap, subst, ◌∙◌,
  ◌≢◌, ◌↔◌, ◌⊎◌, inl, inr, Bool, true, false, not, ◌&&◌, ◌||◌, Option, none, some, List, [], ◌∷◌,
  ◌++◌, map, append-nil, append_assoc, arith, ltb, leb, ◌==◌, if◌then◌else◌, ltb→lt, lt→ltb, leb→le,
  le→leb, ==_iff, tests, if_both, if_cases, Bool-cases, Option-cases, is_some, is_none, contains,
  Distinct, contains-append, Distinct-snoc, length, select, any_of, all_of, sum_of, All,
  length-append, length-select-le, sum_of-append, select-append,
}
use loom_unified_agentic_cod.Base.Text.{Text, same, is_empty}
use loom_unified_agentic_cod.Verification.Evidence.Chain.{
  EvidenceBundle, ChainedBundleEntry, Python, genesis, payload_hash, entry_of_run, export_to,
  tampered_indices,
}

-- `evidence_chain.json`: absent, no JSON list of dictionaries, a list of which an entry lacks a field or
-- has one of another type, or a list of entries.
pub data ChainFile : Type 0 where
  missing corrupted invalid : ChainFile
  chain : List ChainedBundleEntry → ChainFile

-- The exported files have the newest first.
pub record EvidenceBundler : Type 0 where
  pub file : ChainFile
  pub cache : List ChainedBundleEntry
  pub exported : List (EvidenceBundle × ChainedBundleEntry)

-- `hmac_key or os.getenv("LOOM_EVIDENCE_HMAC_KEY")`: the argument, then the variable.
pub effective_key : Text → Text → Text
effective_key [] env = env
effective_key (c ∷ key) env = c ∷ key

-- `_load_chain`; `none` where the validation of an entry raises, which the handler does not catch.
pub load_chain : ChainFile → Option (List ChainedBundleEntry)
load_chain missing = some []
load_chain corrupted = some []
load_chain invalid = none
load_chain (chain es) = some es

-- An argument left out is an empty dictionary.
pub or_empty : Option Text → Text
or_empty none = 123 ∷ 125 ∷ []
or_empty (some []) = 123 ∷ 125 ∷ []
or_empty (some (c ∷ d)) = c ∷ d

pub create_bundle :
    ℕ
    → ℕ
    → Text
    → Bool
    → Text
    → Text
    → List Text
    → Option Text
    → Option Text
    → Option Text
    → EvidenceBundle
unfolding or_empty
create_bundle now run patch success tests cost trace snapshot merge resolution = record {
  run_id = run;
  timestamp = now;
  verified_patch = patch;
  verification_success = success;
  test_summary = tests;
  cost_report = cost;
  trace_events = trace;
  rollback_snapshot_id = snapshot;
  merge_decision = or_empty merge;
  resolution_summary = resolution;
}

-- A chain that has the run already is not written again.
abbrev written : List ChainedBundleEntry → ChainFile → Option ChainedBundleEntry → ChainFile
written es f (some e) = f
written es f none = chain es

unfoldable pub exported_over :
    Python
    → Text
    → EvidenceBundle
    → List ChainedBundleEntry
    → EvidenceBundler
    → Option ChainedBundleEntry
    → Option ChainedBundleEntry × EvidenceBundler
unfolding export_to
exported_over py key b es s found =
    let (es', e) = export_to py key b es found in
    (
      some e,
      record {
        file = written es' s.file found;
        cache = e ∷ s.cache;
        exported = (b, e) ∷ s.exported;
      },
    )

pub exported_with :
    Python
    → Text
    → EvidenceBundle
    → Option (List ChainedBundleEntry)
    → EvidenceBundler
    → Option ChainedBundleEntry × EvidenceBundler
unfolding exported_over entry_of_run
exported_with py key b none s = (none, s)
exported_with py key b (some es) s = exported_over py key b es s (entry_of_run b.run_id es)

-- `export_bundle`, with the environment's key, the bundle and the key of the call.
pub export_bundle :
    Python
    → Text
    → EvidenceBundle
    → Text
    → EvidenceBundler
    → Option ChainedBundleEntry × EvidenceBundler
unfolding exported_with load_chain effective_key
export_bundle py env b hmac_key s =
    exported_with py (effective_key hmac_key env) b (load_chain s.file) s

abbrev pub no_indices : List ℕ → Bool
no_indices [] = true
no_indices (i ∷ is) = false

pub verify_entries : Python → Text → Option (List ChainedBundleEntry) → Option (Bool × List ℕ)
unfolding tampered_indices
verify_entries py key none = none
verify_entries py key (some es) =
    let is = tampered_indices py key 0 (py.sha256 genesis) es in some (no_indices is, is)

-- `verify_chain`; `none` where the loading raises. The message repeats the indices and is left out.
pub verify_chain : Python → Text → Text → EvidenceBundler → Option (Bool × List ℕ)
unfolding verify_entries load_chain effective_key
verify_chain py env hmac_key s = verify_entries py (effective_key hmac_key env) (load_chain s.file)

abbrev hash_is : Text → Option Text → Bool
hash_is actual none = false
hash_is actual (some h) = same actual h

abbrev payload_of : Option ChainedBundleEntry → Option Text
payload_of none = none
payload_of (some e) = some e.payload_hash

pub verify_loaded :
    Python → EvidenceBundle → Option Text → Option (List ChainedBundleEntry) → Option Bool
unfolding payload_hash entry_of_run
verify_loaded py b (some h) es = some (same (payload_hash py b) h)
verify_loaded py b none none = none
verify_loaded py b none (some es) =
    some (hash_is (payload_hash py b) (payload_of (entry_of_run b.run_id es)))

-- `verify_bundle_payload`; the chain is loaded where no hash is given.
pub verify_bundle_payload : Python → EvidenceBundle → Option Text → EvidenceBundler → Option Bool
unfolding verify_loaded load_chain
verify_bundle_payload py b expected s = verify_loaded py b expected (load_chain s.file)

pub length_of : Option (List ChainedBundleEntry) → Option ℕ
length_of none = none
length_of (some es) = some (length es)

pub chain_length : EvidenceBundler → Option ℕ
unfolding length_of load_chain
chain_length s = length_of (load_chain s.file)

abbrev cached : Option ChainedBundleEntry → EvidenceBundler → EvidenceBundler
cached none s = s
cached (some e) s = record s { cache = e ∷ s.cache }

pub find_entry :
    ℕ
    → Option ChainedBundleEntry
    → Option (List ChainedBundleEntry)
    → EvidenceBundler
    → Option (Option ChainedBundleEntry) × EvidenceBundler
unfolding entry_of_run
find_entry r (some e) es s = (some (some e), s)
find_entry r none none s = (none, s)
find_entry r none (some es) s = let found = entry_of_run r es in (some found, cached found s)

-- `get_entry`; the cache holds its entries under their runs, the newest first.
pub get_entry : ℕ → EvidenceBundler → Option (Option ChainedBundleEntry) × EvidenceBundler
unfolding find_entry entry_of_run load_chain
get_entry r s = find_entry r (entry_of_run r s.cache) (load_chain s.file) s
