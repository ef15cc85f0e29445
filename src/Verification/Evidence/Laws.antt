-- ===== src/Verification/Evidence/Laws.antt =====
-- Exports keep the evidence chain whole.
use loom_unified_agentic_cod.Base.{
  ℕ, suc, ◌+◌, ◌≡◌, refl, sym, ap, subst, ◌∙◌, ◌≢◌, inl, inr, true, false, Option, none, some, List,
  [], ◌∷◌, ◌++◌, map, append-nil, append_assoc, arith, if◌then◌else◌, Option-cases, is_some,
  contains, length,
}
use loom_unified_agentic_cod.Base.Text.{Text, same, same_refl}
use loom_unified_agentic_cod.Verification.Evidence.Chain.{
  EvidenceBundle, ChainedBundleEntry, Python, genesis, joined, payload_hash, compute_chain_hash,
  sign_entry, entry_of_run, last_hash, new_entry, export_to, is_signed, is_untouched,
  tampered_indices,
}
use loom_unified_agentic_cod.Verification.Evidence.{
  EvidenceBundler, load_chain, effective_key, no_indices, exported_over, exported_with,
  export_bundle, verify_entries, verify_chain,
}

tampered-snoc :
    (py : Python) (key : Text) (i : ℕ) (h : Text) (es : List ChainedBundleEntry)
    (e : ChainedBundleEntry)
    → tampered_indices py key i h es ≡ []
    → is_untouched py key (i + length es) (last_hash h es) e ≡ true
    → tampered_indices py key i h (es ++ e ∷ []) ≡ []
unfolding tampered_indices last_hash
tampered-snoc py key i h [] e t u = ground arith
tampered-snoc py key i h (x ∷ es) e t u =
    ground (arith, tampered-snoc py key (suc i) x.chain_hash es e)

same-signed :
    (py : Python) (c : ℕ) (key : Text) (e : ChainedBundleEntry) (s : Text)
    → s ≢ []
    → s ≡ sign_entry py (c ∷ key) e
    → is_signed py (c ∷ key) e (some s) ≡ true
unfolding is_signed
same-signed py c key e [] n eq = elim (n refl) [ ]
same-signed py c key e (d ∷ s) n eq = subst (λ t. same (d ∷ s) t ≡ true) eq (same_refl (d ∷ s))

new-signed :
    (py : Python) (key : Text) (b : EvidenceBundle) (i : ℕ) (h : Text)
    → ((k m : Text) → py.hmac k m ≢ [])
    → let e = new_entry py key b i h in is_signed py key e e.signature ≡ true
unfolding is_signed new_entry sign_entry
new-signed py [] b i h s = refl
new-signed py (c ∷ key) b i h s =
    let e = new_entry py (c ∷ key) b i h in
    same-signed py c key e (sign_entry py (c ∷ key) e)
      (s (c ∷ key) (joined e.chain_hash e.payload_hash e.prev_hash)) refl

new-untouched :
    (py : Python) (key : Text) (b : EvidenceBundle) (i : ℕ) (h : Text)
    → ((k m : Text) → py.hmac k m ≢ [])
    → is_untouched py key i h (new_entry py key b i h) ≡ true
unfolding is_untouched new_entry
new-untouched py key b i h s = ground (
  arith,
  same_refl h,
  new-signed py key b i h s,
  same_refl (compute_chain_hash py i (payload_hash py b) h),
)

-- What an entry keeps of its bundle: the run, the time and the hash of the payload.
pub kept : ChainedBundleEntry → ℕ × (ℕ × Text)
kept e = (e.run_id, (e.timestamp, e.payload_hash))

pub summary : Python → EvidenceBundle → ℕ × (ℕ × Text)
summary py b = (b.run_id, (b.timestamp, payload_hash py b))

abbrev pub runs : List ChainedBundleEntry → List ℕ
runs [] = []
runs (e ∷ es) = e.run_id ∷ runs es

-- The first bundle of each run that is not among the given ones.
unfoldable pub first_of_runs : List ℕ → List EvidenceBundle → List EvidenceBundle
first_of_runs seen [] = []
first_of_runs seen (b ∷ bs) =
    if contains b.run_id seen
    then first_of_runs seen bs
    else b ∷ first_of_runs (seen ++ b.run_id ∷ []) bs

runs-append : (es fs : List ChainedBundleEntry) → runs (es ++ fs) ≡ runs es ++ runs fs
runs-append [] fs = refl
runs-append (e ∷ es) fs = ap (◌∷◌ e.run_id) (runs-append es fs)

found-contains :
    (r : ℕ) (es : List ChainedBundleEntry) → is_some (entry_of_run r es) ≡ contains r (runs es)
unfolding entry_of_run
found-contains r [] = refl
found-contains r (e ∷ es) = ground (arith, found-contains r es)

pub export_all : Python → Text → Text → List EvidenceBundle → EvidenceBundler → EvidenceBundler
unfolding export_bundle
export_all py env key [] s = s
export_all py env key (b ∷ bs) s = export_all py env key bs (export_bundle py env b key s).1

-- The chain after an export.
abbrev grown :
    Python
    → Text
    → EvidenceBundle
    → List ChainedBundleEntry
    → Option ChainedBundleEntry
    → List ChainedBundleEntry
grown py key b es o = (export_to py key b es o).0

over-load :
    (py : Python) (key : Text) (b : EvidenceBundle) (es : List ChainedBundleEntry)
    (s : EvidenceBundler) (o : Option ChainedBundleEntry)
    → load_chain s.file ≡ some es
    → load_chain (exported_over py key b es s o).1.file ≡ some (grown py key b es o)
unfolding exported_over load_chain export_to
over-load py key b es s none h = refl
over-load py key b es s (some e) h = h

export-load :
    (py : Python) (env key : Text) (b : EvidenceBundle) (es : List ChainedBundleEntry)
    (s : EvidenceBundler)
    → load_chain s.file ≡ some es
    → load_chain (export_bundle py env b key s).1.file
      ≡ some (grown py (effective_key key env) b es (entry_of_run b.run_id es))
unfolding export_bundle exported_with
export-load py env key b es s h =
    ap (λ o. load_chain (exported_with py (effective_key key env) b o s).1.file) h
    ∙ over-load py (effective_key key env) b es s (entry_of_run b.run_id es) h

-- The chain grows by entries of which nothing is tampered with, one for each run that it did not have.
pub Grows :
    Python → Text → List EvidenceBundle → List ChainedBundleEntry → List ChainedBundleEntry → Type 0
unfolding first_of_runs kept summary
Grows py key bs es new =
    (tampered_indices py key 0 (py.sha256 genesis) (es ++ new) ≡ [])
    × (map kept new ≡ map (summary py) (first_of_runs (runs es) bs))

first-seen :
    (seen : List ℕ) (b : EvidenceBundle) (bs : List EvidenceBundle)
    → contains b.run_id seen ≡ true
    → first_of_runs seen (b ∷ bs) ≡ first_of_runs seen bs
unfolding first_of_runs
first-seen seen b bs c = ground arith

first-unseen :
    (seen : List ℕ) (b : EvidenceBundle) (bs : List EvidenceBundle)
    → contains b.run_id seen ≡ false
    → first_of_runs seen (b ∷ bs) ≡ b ∷ first_of_runs (seen ++ b.run_id ∷ []) bs
unfolding first_of_runs
first-unseen seen b bs c = ground arith

grown-some :
    (py : Python) (key : Text) (b : EvidenceBundle) (bs : List EvidenceBundle)
    (es new : List ChainedBundleEntry)
    → contains b.run_id (runs es) ≡ true
    → Grows py key bs es new
    → Grows py key (b ∷ bs) es new
unfolding Grows
grown-some py key b bs es new c g =
    (g.0, g.1 ∙ ap (map (summary py)) (sym (first-seen (runs es) b bs c)))

grown-none :
    (py : Python) (key : Text) (b : EvidenceBundle) (bs : List EvidenceBundle)
    (es new : List ChainedBundleEntry) (e : ChainedBundleEntry)
    → contains b.run_id (runs es) ≡ false
    → kept e ≡ summary py b
    → e.run_id ≡ b.run_id
    → Grows py key bs (es ++ e ∷ []) new
    → Grows py key (b ∷ bs) es (e ∷ new)
unfolding Grows
grown-none py key b bs es new e c k r g =
    let first =
      ap (λ x. map (summary py) (first_of_runs x bs))
        (runs-append es (e ∷ []) ∙ ap (λ x. runs es ++ x ∷ []) r) in
    (
      subst (λ x. tampered_indices py key 0 (py.sha256 genesis) x ≡ [])
          (append_assoc es (e ∷ []) new) g.0,
      ap (◌∷◌ (kept e)) (g.1 ∙ first)
          ∙ ap (λ x. x ∷ map (summary py) (first_of_runs (runs es ++ b.run_id ∷ []) bs)) k
          ∙ ap (map (summary py)) (sym (first-unseen (runs es) b bs c)),
    )

grown-new :
    (py : Python) (key : Text) (b : EvidenceBundle) (es : List ChainedBundleEntry)
    → some (grown py key b es none)
      ≡ some (es ++ new_entry py key b (length es) (last_hash (py.sha256 genesis) es) ∷ [])
unfolding export_to
grown-new py key b es = refl

grown-old :
    (py : Python) (key : Text) (b : EvidenceBundle) (es : List ChainedBundleEntry)
    (e : ChainedBundleEntry)
    → some (grown py key b es (some e)) ≡ some es
unfolding export_to
grown-old py key b es e = refl

tampered-new :
    (py : Python) (key : Text) (b : EvidenceBundle) (es : List ChainedBundleEntry)
    → ((k m : Text) → py.hmac k m ≢ [])
    → tampered_indices py key 0 (py.sha256 genesis) es ≡ []
    → tampered_indices py key 0
        (py.sha256 genesis)
        (es ++ new_entry py key b (length es) (last_hash (py.sha256 genesis) es) ∷ [])
      ≡ []
tampered-new py key b es n t =
    let h = last_hash (py.sha256 genesis) es in
    let e = new_entry py key b (length es) h in
    let at : length es ≡ 0 + length es = omega arith in
    tampered-snoc py key 0 (py.sha256 genesis) es e t
      (subst (λ j. is_untouched py key j h e ≡ true) at (new-untouched py key b (length es) h n))

kept-new :
    (py : Python) (key : Text) (b : EvidenceBundle) (i : ℕ) (h : Text)
    → kept (new_entry py key b i h) ≡ summary py b
unfolding kept summary new_entry
kept-new py key b i h = refl

run-new :
    (py : Python) (key : Text) (b : EvidenceBundle) (i : ℕ) (h : Text)
    → (new_entry py key b i h).run_id ≡ b.run_id
unfolding new_entry
run-new py key b i h = refl

-- From a chain that verifies, the file after any exports.
abbrev pub Outcome :
    Python → Text → Text → List EvidenceBundle → List ChainedBundleEntry → EvidenceBundler → Type 0
Outcome py env key bs es s =
    (new : List ChainedBundleEntry) × (load_chain (export_all py env key bs s).file
      ≡ some (es ++ new))
    × Grows py (effective_key key env) bs es new

outcome-seen :
    (py : Python) (env key : Text) (b : EvidenceBundle) (bs : List EvidenceBundle)
    (es : List ChainedBundleEntry) (s : EvidenceBundler)
    → contains b.run_id (runs es) ≡ true
    → Outcome py env key bs es (export_bundle py env b key s).1
    → Outcome py env key (b ∷ bs) es s
unfolding export_all
outcome-seen py env key b bs es s c (new, load, g) =
    (new, load, grown-some py (effective_key key env) b bs es new c g)

outcome-unseen :
    (py : Python) (env key : Text) (b : EvidenceBundle) (bs : List EvidenceBundle)
    (es : List ChainedBundleEntry) (e : ChainedBundleEntry) (s : EvidenceBundler)
    → contains b.run_id (runs es) ≡ false
    → kept e ≡ summary py b
    → e.run_id ≡ b.run_id
    → Outcome py env key bs (es ++ e ∷ []) (export_bundle py env b key s).1
    → Outcome py env key (b ∷ bs) es s
unfolding export_all
outcome-unseen py env key b bs es e s c k r (new, load, g) = (
  e ∷ new,
  load ∙ ap some (append_assoc es (e ∷ []) new),
  grown-none py (effective_key key env) b bs es new e c k r g,
)

exports-Outcome :
    (py : Python) (env key : Text) (bs : List EvidenceBundle) (es : List ChainedBundleEntry)
    (s : EvidenceBundler)
    → ((k m : Text) → py.hmac k m ≢ [])
    → load_chain s.file ≡ some es
    → tampered_indices py (effective_key key env) 0 (py.sha256 genesis) es ≡ []
    → Outcome py env key bs es s
unfolding export_all Grows first_of_runs
exports-Outcome py env key [] es s n h t = (
  [],
  h ∙ ap some (sym (append-nil es)),
  (
    subst (λ x. tampered_indices py (effective_key key env) 0 (py.sha256 genesis) x ≡ [])
        (sym (append-nil es)) t,
    refl,
  ),
)
exports-Outcome py env key (b ∷ bs) es s n h t =
    let k = effective_key key env in
    let load = export-load py env key b es s h in
    elim (Option-cases (entry_of_run b.run_id es)) [
      | inl e ↦
          let x = new_entry py k b (length es) (last_hash (py.sha256 genesis) es) in
          outcome-unseen py env key b bs es x s (sym (found-contains b.run_id es) ∙ ap is_some e)
            (kept-new py k b (length es) (last_hash (py.sha256 genesis) es))
            (run-new py k b (length es) (last_hash (py.sha256 genesis) es))
            (exports-Outcome py env key bs (es ++ x ∷ []) (export_bundle py env b key s).1 n
              (load ∙ ap (λ o. some (grown py k b es o)) e ∙ grown-new py k b es)
              (tampered-new py k b es n t))
      | inr (o, e) ↦
          outcome-seen py env key b bs es s (sym (found-contains b.run_id es) ∙ ap is_some e) (
            exports-Outcome py env key bs es (export_bundle py env b key s).1 n
              (load ∙ ap (λ o. some (grown py k b es o)) e ∙ grown-old py k b es o) t)
    ]

verify-entries :
    (py : Python) (key : Text) (es : List ChainedBundleEntry)
    → tampered_indices py key 0 (py.sha256 genesis) es ≡ []
    → verify_entries py key (some es) ≡ some (true, [])
unfolding verify_entries
verify-entries py key es t = ap (λ x. some (no_indices x, x)) t

verify-untouched :
    (py : Python) (env key : Text) (es : List ChainedBundleEntry) (s : EvidenceBundler)
    → load_chain s.file ≡ some es
    → tampered_indices py (effective_key key env) 0 (py.sha256 genesis) es ≡ []
    → verify_chain py env key s ≡ some (true, [])
unfolding verify_chain
verify-untouched py env key es s h t =
    ap (verify_entries py (effective_key key env)) h
    ∙ verify-entries py (effective_key key env) es t

-- From a file whose chain verifies, however many bundles are exported, under the same key, the chain is the
-- old one, untouched, followed by one entry for each run that it did not have, in the order of the first
-- exports, each with the run, the time and the hash of the first bundle of its run, and it verifies again.
-- A signature is never empty.
pub exports-verified :
    (py : Python) (env key : Text) (bs : List EvidenceBundle) (es : List ChainedBundleEntry)
    (s : EvidenceBundler)
    → ((k m : Text) → py.hmac k m ≢ [])
    → load_chain s.file ≡ some es
    → tampered_indices py (effective_key key env) 0 (py.sha256 genesis) es ≡ []
    → Outcome py env key bs es s
      × (verify_chain py env key (export_all py env key bs s) ≡ some (true, []))
unfolding Grows
exports-verified py env key bs es s n h t =
    let (new, load, g) = exports-Outcome py env key bs es s n h t in
    ((new, load, g), verify-untouched py env key (es ++ new) (export_all py env key bs s) load g.0)
