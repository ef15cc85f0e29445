-- ===== src/Business/PathPolicy/Laws.antt =====
-- A patch that writes to a sensitive path does not pass.
use loom_unified_agentic_cod.Base.{
  ℕ, ◌≤◌, ◌≡◌, refl, sym, ap, subst, ◌∙◌, inl, inr, Bool, true, false, not, ◌||◌, Option, some,
  List, [], ◌∷◌, ◌++◌, arith, if_both, if_cases, Bool-cases, select, any_of, all_of,
}
use loom_unified_agentic_cod.Base.Text.{
  Text, codes, same, same_sound, same_refl, one_of, split_at, strip, rstrip, on_stripped, on_first,
  is_space, is_empty,
}
use loom_unified_agentic_cod.Business.PathPolicy.{
  replace, first_part, path_named, without_side, touched_path, add_touched, touched_from,
  extract_touched_paths, matches_sensitive_glob, globs_of, sensitive_paths_in_patch, security_hold,
  CommitGatewayDecision, decide_blocked, evaluate_commit_gateway, PatchApprovalPolicy,
  file_is_sensitive, classify_risk,
}

-- No blank is in the text.
abbrev pub no_blank : Text → Bool
no_blank p = all_of (λ c. not (is_space c)) p

replace-clean : (p : Text) → no_blank p ≡ true → replace 9 32 p ≡ p
replace-clean [] h = refl
replace-clean (c ∷ p) h = ground (arith, replace-clean p, h)

rstrip-clean : (p : Text) → no_blank p ≡ true → rstrip p ≡ p
rstrip-clean [] h = refl
rstrip-clean (c ∷ []) h = ground (arith, h)
rstrip-clean (c ∷ d ∷ p) h = ground (arith, rstrip-clean (d ∷ p), h)

split-clean : (p : Text) → no_blank p ≡ true → split_at 32 p ≡ p ∷ []
split-clean [] h = refl
split-clean (c ∷ p) h = ground (arith, split-clean p, h)

-- The line of a patch that names a path as written to.
abbrev pub written_line : Text → Text
written_line p = codes "+++ b/" ++ p

touched-written :
    (c : ℕ) (p : Text) → no_blank (c ∷ p) ≡ true → touched_path (written_line (c ∷ p)) ≡ c ∷ p
unfolding touched_path
touched-written c p h =
    let q = c ∷ p in
    ap (λ x. path_named (strip (98 ∷ 47 ∷ x))) (replace-clean q h)
    ∙ ap (λ x. path_named (on_stripped 98 (on_stripped 47 x))) (rstrip-clean q h)
    ∙ ap (λ w. without_side (first_part (on_first 98 (on_first 47 w)))) (split-clean q h)

one_of-append : (p : Text) (xs ys : List Text) → one_of p (xs ++ ys) ≡ (one_of p xs || one_of p ys)
one_of-append p [] ys = refl
one_of-append p (x ∷ xs) ys = ground (arith, one_of-append p xs ys)

add-keeps : (p x : Text) (ts : List Text) → one_of p ts ≡ true → one_of p (add_touched x ts) ≡ true
add-keeps p x ts h =
    if_both (λ t. one_of p t ≡ true) (is_empty x || one_of x ts) _ _ h
      (ground (arith, one_of-append p ts (x ∷ []), h))

add-has : (c : ℕ) (p : Text) (ts : List Text) → one_of (c ∷ p) (add_touched (c ∷ p) ts) ≡ true
add-has c p ts =
    if_cases (λ t. one_of (c ∷ p) t ≡ true) (one_of (c ∷ p) ts) _ _ (λ e. e)
      (λ e. ground (arith, one_of-append (c ∷ p) ts ((c ∷ p) ∷ []), same_refl (c ∷ p)))

from-keeps :
    (p : Text) (lines ts : List Text) → one_of p ts ≡ true → one_of p (touched_from lines ts) ≡ true
unfolding touched_from
from-keeps p [] ts h = h
from-keeps p (l ∷ lines) ts h =
    from-keeps p lines (add_touched (touched_path l) ts) (add-keeps p (touched_path l) ts h)

from-has :
    (c : ℕ) (p : Text) (before after ts : List Text)
    → no_blank (c ∷ p) ≡ true
    → one_of (c ∷ p) (touched_from (before ++ written_line (c ∷ p) ∷ after) ts) ≡ true
unfolding touched_from
from-has c p [] after ts h =
    from-keeps (c ∷ p) after (add_touched (touched_path (written_line (c ∷ p))) ts) (
      subst (λ x. one_of (c ∷ p) (add_touched x ts) ≡ true) (sym (touched-written c p h))
        (add-has c p ts))
from-has c p (l ∷ before) after ts h = from-has c p before after (add_touched (touched_path l) ts) h

select-has :
    (f : Text → Bool) (p : Text) (xs : List Text)
    → f p ≡ true
    → one_of p xs ≡ true
    → one_of p (select f xs) ≡ true
select-has f p [] h k = ground arith
select-has f p (x ∷ xs) h k = elim (Bool-cases (same p x)) [
  | inl e ↦ let e' = subst (λ y. f y ≡ true) (same_sound p x e) h in ground (arith, e, e')
  | inr e ↦ ground (arith, select-has f p xs h, e, k)
]

abbrev pub Held : Text → CommitGatewayDecision → Type 0
Held p d = (d.is_allowed ≡ false) × (d.status ≡ security_hold) × (one_of p d.blocked_paths ≡ true)

decide-Held : (p : Text) (ps : List Text) → one_of p ps ≡ true → Held p (decide_blocked false ps)
unfolding decide_blocked
decide-Held p [] h = ground arith
decide-Held p (q ∷ ps) h = (refl, refl, h)

module _ (fnmatch : Text → Text → Bool) where
  -- A patch of which any line is `+++ b/` and then a sensitive path without a blank is held by the commit
  -- gateway, which lists the path, unless the audit exception is given.
  pub gateway-Held :
      (org : Option (List Text)) (before after : List Text) (c : ℕ) (p : Text)
      → no_blank (c ∷ p) ≡ true
      → matches_sensitive_glob fnmatch (globs_of org) (c ∷ p) ≡ true
      → Held
          (c ∷ p)
          (evaluate_commit_gateway fnmatch false org (before ++ written_line (c ∷ p) ∷ after))
  unfolding evaluate_commit_gateway sensitive_paths_in_patch extract_touched_paths
  gateway-Held org before after c p h m = decide-Held (c ∷ p) _ (
      select-has (matches_sensitive_glob fnmatch (globs_of org)) (c ∷ p) _ m
        (from-has c p before after [] h))

  any_of-append :
      (f : Text → Bool) (xs ys : List Text) → any_of f (xs ++ ys) ≡ (any_of f xs || any_of f ys)
  any_of-append f [] ys = refl
  any_of-append f (x ∷ xs) ys = ground (arith, any_of-append f xs ys)

  -- A patch is of no lower risk where it has more lines, touches further files or is trusted less.
  pub risk_mono :
      (policy : PatchApprovalPolicy) (n n' : ℕ) (files more : List Text) (c c' : ℕ)
      → n ≤ n'
      → c' ≤ c
      → classify_risk fnmatch policy n files (some c) ≡ true
      → classify_risk fnmatch policy n' (files ++ more) (some c') ≡ true
  unfolding classify_risk
  risk_mono policy n n' files more c c' h k r = ground (
    arith,
    any_of-append (file_is_sensitive fnmatch policy.sensitive_path_globs) files more,
    h,
    k,
    r,
  )
