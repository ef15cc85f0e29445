-- ===== src/Business/PathPolicy/Tests.antt =====
-- The commit gateway at concrete patches, with the globs of stars and single characters.
use loom_unified_agentic_cod.Base.{
  ◌≡◌, refl, Bool, true, false, ◌&&◌, ◌||◌, none, some, [], ◌∷◌, ◌==◌, if◌then◌else◌,
}
use loom_unified_agentic_cod.Base.Text.{Text, codes}
use loom_unified_agentic_cod.Business.PathPolicy.{
  default_sensitive_globs, extract_touched_paths, matches_sensitive_glob, evaluate_commit_gateway,
  classify_risk, default_policy,
}
use loom_unified_agentic_cod.Business.PathPolicy.Laws.{written_line, Held, gateway-Held}

abbrev any_suffix : (Text → Bool) → Text → Bool
any_suffix f [] = f []
any_suffix f (c ∷ t) = f (c ∷ t) || any_suffix f t

abbrev glob_tail : Text → Text → Bool
glob_tail [] [] = true
glob_tail [] (c ∷ t) = false
glob_tail (g ∷ p) t =
    let rest = glob_tail p in
    if g == b'*'
    then any_suffix rest t
    else elim t [ [] ↦ false | c ∷ u ↦ (g == b'?' || g == c) && rest u ]

-- `fnmatch(path, pattern)`
abbrev fnmatch : Text → Text → Bool
fnmatch path pattern = glob_tail pattern path

sensitive : matches_sensitive_glob fnmatch default_sensitive_globs (codes "auth/a.py") ≡ true
unfolding matches_sensitive_glob
sensitive = refl

gateway-Held_example : Held (codes "auth/a.py") (
    evaluate_commit_gateway fnmatch false none
      (codes "--- a/auth/a.py" ∷ written_line (codes "auth/a.py") ∷ codes "@@ -1 +1 @@" ∷ []))
gateway-Held_example =
    gateway-Held fnmatch none (codes "--- a/auth/a.py" ∷ []) (codes "@@ -1 +1 @@" ∷ []) b'a'
      (codes "uth/a.py") refl sensitive

-- The removal of a file touches no path.
removed : extract_touched_paths (codes "--- a/auth/a.py" ∷ codes "+++ /dev/null" ∷ []) ≡ []
unfolding extract_touched_paths
removed = refl

-- A glob of the organisation that begins with a dot does not match.
dotted :
    matches_sensitive_glob fnmatch (codes ".github/**" ∷ []) (codes ".github/workflows/ci.yml")
    ≡ false
unfolding matches_sensitive_glob
dotted = refl

risky : classify_risk fnmatch default_policy 10 [] (some 50) ≡ true
unfolding classify_risk
risky = refl
