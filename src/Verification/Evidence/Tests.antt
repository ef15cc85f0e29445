-- ===== src/Verification/Evidence/Tests.antt =====
-- The evidence chain at concrete bundles, with a hash that moves each character.
use loom_unified_agentic_cod.Base.{
  ℕ, ◌+◌, ◌≡◌, refl, ◌≢◌, ◌⊎◌, true, false, none, some, List, [], ◌∷◌, map, arith, contains,
}
use loom_unified_agentic_cod.Base.Text.{Text}
use loom_unified_agentic_cod.Verification.Evidence.Chain.{
  EvidenceBundle, ChainedBundleEntry, Python, genesis, separator, last_hash, new_entry,
  tampered_indices,
}
use loom_unified_agentic_cod.Verification.Evidence.{
  missing, corrupted, invalid, chain, EvidenceBundler, create_bundle, load_chain, effective_key,
  export_bundle, verify_chain, verify_bundle_payload, chain_length, get_entry,
}
use loom_unified_agentic_cod.Verification.Evidence.Laws.{export_all, Outcome, exports-verified}
use loom_unified_agentic_cod.Verification.Evidence.Tamper.{hashes, Collision, last_hash-commits}

abbrev moved : Text → Text
moved [] = []
moved (c ∷ t) = (c + 200) ∷ moved t

abbrev toy : Python
toy = record {
  sha256 = moved;
  hmac = λ k m. 7 ∷ m;
  dumps = λ b. b.verified_patch;
  str = λ i. i ∷ [];
}

abbrev bundle : ℕ → Text → EvidenceBundle
unfolding create_bundle
bundle r patch = create_bundle 50 r patch true [] [] [] none none none

abbrev key : Text
key = 9 ∷ []

abbrev first_entry : ChainedBundleEntry
first_entry = new_entry toy key (bundle 1 (5 ∷ [])) 0 (moved genesis)

abbrev bundler : EvidenceBundler
bundler = record { file = chain (first_entry ∷ []); cache = []; exported = [] }

-- Run 1 again with another patch, then run 2 twice.
abbrev bundles : List EvidenceBundle
bundles = bundle 1 (6 ∷ []) ∷ bundle 2 (7 ∷ []) ∷ bundle 2 (8 ∷ []) ∷ []

hmac-nonempty : (k m : Text) → toy.hmac k m ≢ []
hmac-nonempty k m h = ground (arith, h)

exports-verified_example :
    Outcome toy [] key bundles (first_entry ∷ []) bundler
    × (verify_chain toy [] key (export_all toy [] key bundles bundler) ≡ some (true, []))
unfolding load_chain effective_key tampered_indices new_entry bundle
exports-verified_example =
    exports-verified toy [] key bundles (first_entry ∷ []) bundler hmac-nonempty refl refl

moved-hex : (t : Text) → contains separator (moved t) ≡ false
moved-hex [] = refl
moved-hex (c ∷ t) = ground (arith, moved-hex t)

-- The entry with another run, which the hashes do not cover.
abbrev renamed : ChainedBundleEntry
renamed = record first_entry { run_id = 3 }

last_hash-commits_example :
    (map hashes (first_entry ∷ []) ≡ map hashes (renamed ∷ [])) ⊎ Collision toy
unfolding tampered_indices new_entry last_hash bundle
last_hash-commits_example =
    last_hash-commits toy key (first_entry ∷ []) (renamed ∷ []) moved-hex refl refl refl refl

renamed_verifies :
    verify_chain toy [] key (record bundler { file = chain (renamed ∷ []) }) ≡ some (true, [])
unfolding verify_chain new_entry bundle
renamed_verifies = refl

changed_payload :
    verify_chain toy [] key
      (record bundler { file = chain (record first_entry { payload_hash = [] } ∷ []) })
    ≡ some (false, 0 ∷ [])
unfolding verify_chain new_entry bundle
changed_payload = refl

-- A file that is not read verifies, and the next export replaces it.
corrupted_verifies : verify_chain toy [] key (record bundler { file = corrupted }) ≡ some (true, [])
unfolding verify_chain
corrupted_verifies = refl

corrupted_replaced :
    chain_length (export_bundle toy [] (bundle 2 []) key (record bundler { file = corrupted })).1
    ≡ some 1
unfolding chain_length export_bundle
corrupted_replaced = refl

invalid_raises : verify_chain toy [] key (record bundler { file = invalid }) ≡ none
unfolding verify_chain
invalid_raises = refl

payload_checked : verify_bundle_payload toy (bundle 1 (5 ∷ [])) none bundler ≡ some true
unfolding verify_bundle_payload new_entry bundle
payload_checked = refl

absent_entry : (get_entry 4 (record bundler { file = missing })).0 ≡ some none
unfolding get_entry
absent_entry = refl
