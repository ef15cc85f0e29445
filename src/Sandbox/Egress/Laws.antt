-- ===== src/Sandbox/Egress/Laws.antt =====
-- A command reaches allowed hosts only, and what is blocked is on record.
use loom_unified_agentic_cod.Base.{
  ◌≡◌, refl, sym, ap, ◌∙◌, ◌⊎◌, inl, inr, Bool, true, false, Option, none, some, List, [], ◌∷◌,
  ◌++◌, map, append-nil, append_assoc, arith, Bool-cases, any_of,
}
use loom_unified_agentic_cod.Base.Text.{Text, same, same_sound, ends_with}
use loom_unified_agentic_cod.Sandbox.Tiers.{SandboxTier}
use loom_unified_agentic_cod.Sandbox.Egress.{
  normal, host_allowed, EgressViolation, EgressEnforcer, url_of, host_passes, is_allowed, violate,
  checked, check_egress, add_blocked, targets, check_targets, check_command_egress,
}

-- A text ends with another.
pub Ends : Text → Text → Type 0
Ends s t = (x : Text) × (t ≡ x ++ s)

ends_with-Ends : (s t : Text) → ends_with s t ≡ true → Ends s t
unfolding Ends
ends_with-Ends s [] h = ([], sym (same_sound s [] h))
ends_with-Ends s (c ∷ t) h = elim (Bool-cases (same s (c ∷ t))) [
  | inl e ↦ ([], sym (same_sound s (c ∷ t) e))
  | inr e ↦ (let (x, p) = ends_with-Ends s t (ground (arith, h, e)) in (c ∷ x, ap (◌∷◌ c) p))
]

-- The host is the entry or a subdomain of it, up to case and a dot at the end.
pub Covers : Text → Text → Type 0
unfolding Ends normal
Covers host entry = (normal host ≡ normal entry) ⊎ Ends (46 ∷ normal entry) (normal host)

allowed-Covers : (host entry : Text) → host_allowed host entry ≡ true → Covers host entry
unfolding Covers host_allowed
allowed-Covers host entry h = elim (Bool-cases (same (normal host) (normal entry))) [
  | inl e ↦ inl (same_sound (normal host) (normal entry) e)
  | inr e ↦ inr (ends_with-Ends (46 ∷ normal entry) (normal host) (ground (arith, h, e)))
]

-- An entry of a list covers the host.
pub Covered : Text → List Text → Type 0
unfolding Covers
Covered host hosts =
    (entry : Text) × (xs ys : List Text) × (hosts ≡ xs ++ entry ∷ ys) × Covers host entry

any-Covered :
    (host : Text) (hosts : List Text) → any_of (host_allowed host) hosts ≡ true → Covered host hosts
unfolding Covered
any-Covered host [] h = ground arith
any-Covered host (a ∷ hosts) h = elim (Bool-cases (host_allowed host a)) [
  | inl e ↦ (a, [], hosts, refl, allowed-Covers host a e)
  | inr e ↦
      (let (b, xs, ys, p, c) = any-Covered host hosts (ground (arith, h, e)) in
        (b, a ∷ xs, ys, ap (◌∷◌ a) p, c))
]

-- A target passes: its URL has a host that an entry covers, and that is how the check sees it.
pub Passes : (Text → Option Text) → List Text → Text → Type 0
unfolding Covered normal
Passes hostname hosts t =
    (found : Text) × (hostname (url_of t) ≡ some found) × Covered (normal found) hosts

-- A target is blocked: its URL can be read, and no entry allows its host.
pub Blocked : (Text → Option Text) → List Text → Text → Type 0
Blocked hostname hosts t =
    (found : Text) × (hostname (url_of t) ≡ some found) × (host_passes hosts found ≡ false)

-- The targets are told apart, in their order, into those that pass and those that are blocked.
pub data Sorted (hostname : Text → Option Text) (hosts : List Text)
    : List Text → List Text → Type 0 where
  done : Sorted hostname hosts [] []
  passes :
      {t : Text} {ts bs : List Text}
      → Passes hostname hosts t
      → Sorted hostname hosts ts bs
      → Sorted hostname hosts (t ∷ ts) bs
  blocks :
      {t : Text} {ts bs : List Text}
      → Blocked hostname hosts t
      → Sorted hostname hosts ts bs
      → Sorted hostname hosts (t ∷ ts) (t ∷ bs)

pub violation : Text → SandboxTier → Text → EgressViolation
violation command tier t = record { target = t; command = command; tier = tier }

module _ (hostname : Text → Option Text) (command : Text) (tier : SandboxTier) where
  -- The violations have grown by the blocked targets, in their order, and the list is the same.
  pub OnRecord : List Text → EgressEnforcer → EgressEnforcer → Type 0
  unfolding violation
  OnRecord bs e e' =
      (e'.violations ≡ e.violations ++ map (violation command tier) bs)
      × (e'.allowlist ≡ e.allowlist)

  -- An answer tells the blocked among all targets; without one, a target cannot be parsed, and the check went
  -- as far as that.
  pub Outcome : List Text → EgressEnforcer → Option (List Text) → EgressEnforcer → Type 0
  unfolding OnRecord
  Outcome ts e (some bs) e' = Sorted hostname e.allowlist ts bs × OnRecord bs e e'
  Outcome ts e none e' =
      (before : List Text) × (t : Text) × (behind : List Text) × (bs : List Text) × (ts
        ≡ before ++ t ∷ behind)
      × (hostname (url_of t) ≡ none)
      × Sorted hostname e.allowlist before bs
      × OnRecord bs e e'

  passes-Outcome :
      (t : Text) (ts : List Text) (e e' : EgressEnforcer) (o : Option (List Text))
      → Passes hostname e.allowlist t
      → Outcome ts e o e'
      → Outcome (t ∷ ts) e (add_blocked true t o) e'
  unfolding Outcome
  passes-Outcome t ts e e' (some bs) p (s, r) = (passes p s, r)
  passes-Outcome t ts e e' none p (before, x, behind, bs, q, h, s, r) =
      (t ∷ before, x, behind, bs, ap (◌∷◌ t) q, h, passes p s, r)

  violate-OnRecord :
      (t : Text) (bs : List Text) (e e' : EgressEnforcer)
      → OnRecord bs (violate (violation command tier t) e) e'
      → OnRecord (t ∷ bs) e e'
  unfolding OnRecord violate
  violate-OnRecord t bs e e' (q, a) = (
    q ∙ append_assoc e.violations (violation command tier t ∷ []) (map (violation command tier) bs),
    a,
  )

  blocks-Outcome :
      (t : Text) (ts : List Text) (e e' : EgressEnforcer) (o : Option (List Text))
      → Blocked hostname e.allowlist t
      → Outcome ts (violate (violation command tier t) e) o e'
      → Outcome (t ∷ ts) e (add_blocked false t o) e'
  unfolding Outcome violate
  blocks-Outcome t ts e e' (some bs) b (s, r) = (blocks b s, violate-OnRecord t bs e e' r)
  blocks-Outcome t ts e e' none b (before, x, behind, bs, q, h, s, r) =
      (t ∷ before, x, behind, t ∷ bs, ap (◌∷◌ t) q, h, blocks b s, violate-OnRecord t bs e e' r)

  -- The rest of the loop, behind the answer for a target.
  next : Option Bool → Text → List Text → EgressEnforcer → Option (List Text) × EgressEnforcer
  next a t ts e =
      let (answer, e1) = checked a (violation command tier t) e in
      let (blocked, e2) = check_targets hostname command tier ts e1 in
      elim answer [ none ↦ (none, e1) | some ok ↦ (add_blocked ok t blocked, e2) ]

  -- What an answer says of a target.
  pub Says : List Text → Text → Option Bool → Type 0
  unfolding Passes Blocked
  Says hosts t none = hostname (url_of t) ≡ none
  Says hosts t (some true) = Passes hostname hosts t
  Says hosts t (some false) = Blocked hostname hosts t

  found-Says :
      (hosts : List Text) (t found : Text) (b : Bool)
      → hostname (url_of t) ≡ some found
      → host_passes hosts found ≡ b
      → Says hosts t (some b)
  unfolding Says Passes Blocked host_passes
  found-Says hosts t found true h p =
      (found, h, any-Covered (normal found) hosts (ground (arith, p)))
  found-Says hosts t found false h p = (found, h, p)

  parsed-Says :
      (hosts : List Text) (t : Text) (o : Option Text)
      → hostname (url_of t) ≡ o
      → Says hosts t (elim o [ none ↦ none | some found ↦ some (host_passes hosts found) ])
  unfolding Says
  parsed-Says hosts t none h = h
  parsed-Says hosts t (some found) h = found-Says hosts t found (host_passes hosts found) h refl

  allowed-Says : (hosts : List Text) (t : Text) → Says hosts t (is_allowed hostname hosts t)
  unfolding Says is_allowed
  allowed-Says hosts t = parsed-Says hosts t (hostname (url_of t)) refl

  next-Outcome :
      (a : Option Bool) (t : Text) (ts : List Text) (e : EgressEnforcer)
      → Says e.allowlist t a
      → ((e1 : EgressEnforcer)
          → let r = check_targets hostname command tier ts e1 in Outcome ts e1 r.0 r.1)
      → let r = next a t ts e in Outcome (t ∷ ts) e r.0 r.1
  unfolding next checked Says Outcome OnRecord
  next-Outcome none t ts e h i =
      ([], t, ts, [], refl, h, done, (sym (append-nil e.violations), refl))
  next-Outcome (some true) t ts e p i =
      let r = check_targets hostname command tier ts e in passes-Outcome t ts e r.1 r.0 p (i e)
  next-Outcome (some false) t ts e b i =
      let e1 = violate (violation command tier t) e in
      let r = check_targets hostname command tier ts e1 in blocks-Outcome t ts e r.1 r.0 b (i e1)

  targets-Outcome :
      (ts : List Text) (e : EgressEnforcer)
      → let r = check_targets hostname command tier ts e in Outcome ts e r.0 r.1
  unfolding check_targets check_egress next violation Outcome OnRecord
  targets-Outcome [] e = (done, (sym (append-nil e.violations), refl))
  targets-Outcome (t ∷ ts) e =
      next-Outcome (is_allowed hostname e.allowlist t) t ts e (allowed-Says e.allowlist t)
        (targets-Outcome ts)

  -- Of the targets that a command names, an answer returns those that are blocked, in their order: the test
  -- of their host against the list of allowed hosts fails, and for every other target an entry of the list is
  -- its host or a domain above it, up to case and a dot at the end. Each that is blocked is on record with the command and the tier, behind
  -- the earlier violations. Where a target cannot be parsed there is no answer, and this holds of the targets
  -- before it. The list stays as it is.
  pub command-blocked :
      (e : EgressEnforcer)
      → let r = check_command_egress hostname command tier e in Outcome (targets command) e r.0 r.1
  unfolding check_command_egress
  command-blocked e = targets-Outcome (targets command) e
