-- ===== src/Verification/Evidence/Tamper.antt =====
-- What the hashes of the evidence chain commit to.
use loom_unified_agentic_cod.Base.{
  ℕ, suc, ◌≡◌, refl, sym, ap, subst, ◌∙◌, ◌≢◌, ◌⊎◌, inl, inr, true, false, List, [], ◌∷◌, ◌++◌, map,
  arith, Bool-cases, contains, contains-append, length,
}
use loom_unified_agentic_cod.Base.Text.{Text, same, same_sound, same_refl}
use loom_unified_agentic_cod.Verification.Evidence.Chain.{
  ChainedBundleEntry, Python, genesis, separator, joined, compute_chain_hash, last_hash,
  is_untouched, tampered_indices,
}

-- Two texts are the same on both sides of their last separator.
split-last :
    (a a' : Text) (b b' : Text)
    → contains separator b ≡ false
    → contains separator b' ≡ false
    → a ++ separator ∷ b ≡ a' ++ separator ∷ b'
    → (a ≡ a') × (b ≡ b')
split-last [] [] b b' n n' h = ground arith
split-last [] (c ∷ a') b b' n n' h = ground (arith, contains-append separator a' (separator ∷ b'))
split-last (c ∷ a) [] b b' n n' h = ground (arith, contains-append separator a (separator ∷ b))
split-last (c ∷ a) (c' ∷ a') b b' n n' h = ground (arith, split-last a a' b b')

append-cancel : (a : Text) (b b' : Text) → a ++ b ≡ a ++ b' → b ≡ b'
append-cancel [] b b' h = h
append-cancel (c ∷ a) b b' h = ground (arith, append-cancel a b b')

-- What the hashes of an entry commit to.
pub hashes : ChainedBundleEntry → ℕ × (Text × (Text × Text))
hashes e = (e.index, (e.payload_hash, (e.prev_hash, e.chain_hash)))

untouched-index :
    (py : Python) (key : Text) (i : ℕ) (h : Text) (e : ChainedBundleEntry)
    → is_untouched py key i h e ≡ true
    → (e.index ≡ i)
      × ((e.prev_hash ≡ h) × (e.chain_hash ≡ compute_chain_hash py i e.payload_hash e.prev_hash))
unfolding is_untouched
untouched-index py key i h e u = ground (
  arith,
  same_sound e.prev_hash h,
  same_sound e.chain_hash (compute_chain_hash py i e.payload_hash e.prev_hash),
)

tampered-cons :
    (py : Python) (key : Text) (i : ℕ) (h : Text) (e : ChainedBundleEntry)
    (es : List ChainedBundleEntry)
    → tampered_indices py key i h (e ∷ es) ≡ []
    → (is_untouched py key i h e ≡ true) × (tampered_indices py key (suc i) e.chain_hash es ≡ [])
unfolding tampered_indices
tampered-cons py key i h e es t = ground arith

-- Two texts with the same hash.
abbrev pub Collision : Python → Type 0
Collision py = (a : Text) × (b : Text) × (a ≢ b) × (py.sha256 a ≡ py.sha256 b)

different : (a b : Text) → same a b ≡ false → a ≢ b
different a b n h = ground (arith, subst (λ x. same a x ≡ true) h (same_refl a))

sha256-injective : (py : Python) (a b : Text) → py.sha256 a ≡ py.sha256 b → (a ≡ b) ⊎ Collision py
sha256-injective py a b h = elim (Bool-cases (same a b)) [
  | inl e ↦ inl (same_sound a b e)
  | inr e ↦ inr (a, b, different a b e, h)
]

joined-injective :
    (s p p' q q' : Text)
    → contains separator q ≡ false
    → contains separator q' ≡ false
    → joined s p q ≡ joined s p' q'
    → (p ≡ p') × (q ≡ q')
unfolding joined
joined-injective s p p' q q' n n' h = split-last p p' q q' n n' (
    append-cancel (separator ∷ []) (p ++ separator ∷ q) (p' ++ separator ∷ q')
      (append-cancel s (separator ∷ (p ++ separator ∷ q)) (separator ∷ (p' ++ separator ∷ q')) h))

chain_hash-injective :
    (py : Python) (i : ℕ) (p p' q q' : Text)
    → contains separator q ≡ false
    → contains separator q' ≡ false
    → compute_chain_hash py i p q ≡ compute_chain_hash py i p' q'
    → ((p ≡ p') × (q ≡ q')) ⊎ Collision py
unfolding compute_chain_hash
chain_hash-injective py i p p' q q' n n' h =
    elim (sha256-injective py (joined (py.str i) p q) (joined (py.str i) p' q') h) [
      | inl e ↦ inl (joined-injective (py.str i) p p' q q' n n' e)
      | inr c ↦ inr c
    ]

hashes-agree :
    (py : Python) (key : Text) (i : ℕ) (h h' : Text) (e f : ChainedBundleEntry)
    → contains separator h ≡ false
    → contains separator h' ≡ false
    → is_untouched py key i h e ≡ true
    → is_untouched py key i h' f ≡ true
    → e.chain_hash ≡ f.chain_hash
    → ((h ≡ h') × (hashes e ≡ hashes f)) ⊎ Collision py
unfolding hashes
hashes-agree py key i h h' e f n n' u v c =
    let (ei, (ep, ec)) = untouched-index py key i h e u in
    let (fi, (fp, fc)) = untouched-index py key i h' f v in
    elim (chain_hash-injective py i e.payload_hash f.payload_hash e.prev_hash f.prev_hash
      (ap (contains separator) ep ∙ n) (ap (contains separator) fp ∙ n') (sym ec ∙ c ∙ fc)) [
        | inl (p, q) ↦ inl (sym ep ∙ q ∙ fp, cc)
        | inr x ↦ inr x
      ]

-- The entries of two chains agree in what is hashed, and so do the hashes before them.
Agree : Text → Text → List ChainedBundleEntry → List ChainedBundleEntry → Type 0
unfolding hashes
Agree h h' es fs = (h ≡ h') × (map hashes es ≡ map hashes fs)

Agree-cons :
    (h h' : Text) (e f : ChainedBundleEntry) (es fs : List ChainedBundleEntry)
    → (h ≡ h') × (hashes e ≡ hashes f)
    → Agree e.chain_hash f.chain_hash es fs
    → Agree h h' (e ∷ es) (f ∷ fs)
unfolding Agree
Agree-cons h h' e f es fs (p, q) a = (p, cc)

heads-Agree :
    (py : Python) (key : Text) (i : ℕ) (h h' : Text) (e f : ChainedBundleEntry)
    (es fs : List ChainedBundleEntry)
    → contains separator h ≡ false
    → contains separator h' ≡ false
    → is_untouched py key i h e ≡ true
    → is_untouched py key i h' f ≡ true
    → Agree e.chain_hash f.chain_hash es fs
    → Agree h h' (e ∷ es) (f ∷ fs) ⊎ Collision py
unfolding Agree
heads-Agree py key i h h' e f es fs n n' u v a =
    elim (hashes-agree py key i h h' e f n n' u v a.0) [
      | inl p ↦ inl (Agree-cons h h' e f es fs p a)
      | inr x ↦ inr x
    ]

chain_hash-hex :
    (py : Python) (i : ℕ) (p q : Text)
    → ((a : Text) → contains separator (py.sha256 a) ≡ false)
    → contains separator (compute_chain_hash py i p q) ≡ false
unfolding compute_chain_hash
chain_hash-hex py i p q hex = hex (joined (py.str i) p q)

Agree-from :
    (py : Python) (key : Text) (i : ℕ) (h h' : Text) (es fs : List ChainedBundleEntry)
    → ((a : Text) → contains separator (py.sha256 a) ≡ false)
    → contains separator h ≡ false
    → contains separator h' ≡ false
    → length es ≡ length fs
    → tampered_indices py key i h es ≡ []
    → tampered_indices py key i h' fs ≡ []
    → last_hash h es ≡ last_hash h' fs
    → Agree h h' es fs ⊎ Collision py
unfolding Agree last_hash
Agree-from py key i h h' [] [] hex n n' len t t' last = inl (last, refl)
Agree-from py key i h h' [] (f ∷ fs) hex n n' len t t' last = ground arith
Agree-from py key i h h' (e ∷ es) [] hex n n' len t t' last = ground arith
Agree-from py key i h h' (e ∷ es) (f ∷ fs) hex n n' len t t' last =
    let (u, rest) = tampered-cons py key i h e es t in
    let (v, rest') = tampered-cons py key i h' f fs t' in
    let (ei, (ep, ec)) = untouched-index py key i h e u in
    let (fi, (fp, fc)) = untouched-index py key i h' f v in
    let m = ap (contains separator) ec ∙ chain_hash-hex py i e.payload_hash e.prev_hash hex in
    let m' = ap (contains separator) fc ∙ chain_hash-hex py i f.payload_hash f.prev_hash hex in
    elim (Agree-from py key (suc i) e.chain_hash f.chain_hash es fs hex m m' (omega (arith, len))
      rest rest' last) [ inr x ↦ inr x | inl a ↦ heads-Agree py key i h h' e f es fs n n' u v a ]

-- Two chains of the same length that verify and have the same last hash agree, entry by entry, in the
-- index, the hash of the payload, the hash before and the chain's hash, or else two texts with the same
-- SHA-256 hash are at hand. A hash does not contain the separator.
pub last_hash-commits :
    (py : Python) (key : Text) (es fs : List ChainedBundleEntry)
    → ((a : Text) → contains separator (py.sha256 a) ≡ false)
    → length es ≡ length fs
    → tampered_indices py key 0 (py.sha256 genesis) es ≡ []
    → tampered_indices py key 0 (py.sha256 genesis) fs ≡ []
    → last_hash (py.sha256 genesis) es ≡ last_hash (py.sha256 genesis) fs
    → (map hashes es ≡ map hashes fs) ⊎ Collision py
unfolding Agree
last_hash-commits py key es fs hex len t t' last =
    let h = py.sha256 genesis in
    elim (Agree-from py key 0 h h es fs hex (hex genesis) (hex genesis) len t t' last) [
      | inl a ↦ inl a.1
      | inr x ↦ inr x
    ]
