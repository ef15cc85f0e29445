-- ===== src/Verification/Evidence/Chain.antt =====
-- loom/verification/bundle.py: the entries of the evidence chain, how an export makes one and how a turn of
-- the check reads it. The hash functions and the printers of Python are arguments; identifiers of runs and
-- times are numbers, a dictionary is its text, and a key that is absent is empty.
use loom_unified_agentic_cod.Base.{
  ℕ, suc, Bool, true, false, ◌&&◌, Option, none, some, List, [], ◌∷◌, ◌++◌, ◌==◌, if◌then◌else◌,
  length,
}
use loom_unified_agentic_cod.Base.Text.{Text, same}

pub record EvidenceBundle : Type 0 where
  pub run_id : ℕ
  pub timestamp : ℕ
  pub verified_patch : Text
  pub verification_success : Bool
  pub test_summary : Text
  pub cost_report : Text
  pub trace_events : List Text
  pub rollback_snapshot_id : Option Text
  pub merge_decision : Text
  pub resolution_summary : Option Text

pub record ChainedBundleEntry : Type 0 where
  pub index : ℕ
  pub run_id : ℕ
  pub timestamp : ℕ
  pub payload_hash : Text
  pub prev_hash : Text
  pub chain_hash : Text
  pub signature : Option Text

-- What the code calls: `hashlib.sha256(...).hexdigest()`, `hmac.new(key, message, sha256).hexdigest()`,
-- `json.dumps` of the payload and `str` of an index.
pub record Python : Type 0 where
  pub sha256 : Text → Text
  pub hmac : Text → Text → Text
  pub dumps : EvidenceBundle → Text
  pub str : ℕ → Text

abbrev pub separator : ℕ
separator = 124

-- "GENESIS"
abbrev pub genesis : Text
genesis = 71 ∷ 69 ∷ 78 ∷ 69 ∷ 83 ∷ 73 ∷ 83 ∷ []

-- `SEPARATOR.join` of three texts
unfoldable pub joined : Text → Text → Text → Text
joined a b c = a ++ separator ∷ (b ++ separator ∷ c)

unfoldable pub payload_hash : Python → EvidenceBundle → Text
payload_hash py b = py.sha256 (py.dumps b)

unfoldable pub compute_chain_hash : Python → ℕ → Text → Text → Text
unfolding joined
compute_chain_hash py i payload prev = py.sha256 (joined (py.str i) payload prev)

unfoldable pub sign_entry : Python → Text → ChainedBundleEntry → Text
unfolding joined
sign_entry py [] e = []
sign_entry py (c ∷ key) e = py.hmac (c ∷ key) (joined e.chain_hash e.payload_hash e.prev_hash)

-- The first entry of a run.
unfoldable pub entry_of_run : ℕ → List ChainedBundleEntry → Option ChainedBundleEntry
entry_of_run r [] = none
entry_of_run r (e ∷ es) = if e.run_id == r then some e else entry_of_run r es

-- `chain[-1].chain_hash`, or the hash of the beginning.
unfoldable pub last_hash : Text → List ChainedBundleEntry → Text
last_hash h [] = h
last_hash h (e ∷ es) = last_hash e.chain_hash es

abbrev signature_of : Text → Text → Option Text
signature_of [] s = none
signature_of (c ∷ key) s = some s

unfoldable pub new_entry : Python → Text → EvidenceBundle → ℕ → Text → ChainedBundleEntry
unfolding sign_entry compute_chain_hash payload_hash
new_entry py key b i prev =
    let payload = payload_hash py b in
    let e : ChainedBundleEntry = record {
      index = i;
      run_id = b.run_id;
      timestamp = b.timestamp;
      payload_hash = payload;
      prev_hash = prev;
      chain_hash = compute_chain_hash py i payload prev;
      signature = none;
    } in
    record e { signature = signature_of key (sign_entry py key e) }

-- The chain after an export, and the entry that is returned.
unfoldable pub export_to :
    Python
    → Text
    → EvidenceBundle
    → List ChainedBundleEntry
    → Option ChainedBundleEntry
    → List ChainedBundleEntry × ChainedBundleEntry
unfolding new_entry last_hash
export_to py key b es (some e) = (es, e)
export_to py key b es none =
    let e = new_entry py key b (length es) (last_hash (py.sha256 genesis) es) in (es ++ e ∷ [], e)

-- Under a key the signature has to be there and be the right one.
unfoldable pub is_signed : Python → Text → ChainedBundleEntry → Option Text → Bool
unfolding sign_entry
is_signed py [] e s = true
is_signed py (c ∷ key) e none = false
is_signed py (c ∷ key) e (some []) = false
is_signed py (c ∷ key) e (some (d ∷ s)) = same (d ∷ s) (sign_entry py (c ∷ key) e)

-- A turn of the loop: the entry at a place, behind an entry with a hash.
unfoldable pub is_untouched : Python → Text → ℕ → Text → ChainedBundleEntry → Bool
unfolding compute_chain_hash is_signed
is_untouched py key i prev e =
    e.index == i
    && (same e.prev_hash prev
        && (same e.chain_hash (compute_chain_hash py i e.payload_hash e.prev_hash)
            && is_signed py key e e.signature))

unfoldable pub tampered_indices : Python → Text → ℕ → Text → List ChainedBundleEntry → List ℕ
unfolding is_untouched
tampered_indices py key i prev [] = []
tampered_indices py key i prev (e ∷ es) =
    let rest = tampered_indices py key (suc i) e.chain_hash es in
    if is_untouched py key i prev e then rest else i ∷ rest
