-- ===== src/Business/PathPolicy.antt =====
-- loom/business/path_policy.py: the sensitive paths that a patch touches, the commit gateway and the risk
-- of a patch. A patch is the list of its lines, as `splitlines` gives them, texts are ASCII codes, and
-- `fnmatch.fnmatch` is an argument.
pub mod Laws
mod Tests
use loom_unified_agentic_cod.Base.{
  ℕ, zero, suc, ◌+◌, ◌-◌, ◌*◌, ◌/◌, ◌%◌, ◌^◌, min, max, ◌≤◌, ◌<◌, ◌≡◌, refl, sym, ap, subst, ◌∙◌,
  ◌≢◌, ◌↔◌, ◌⊎◌, inl, inr, Bool, true, false, not, ◌&&◌, ◌||◌, Option, none, some, List, [], ◌∷◌,
  ◌++◌, map, append-nil, append_assoc, arith, ltb, leb, ◌==◌, if◌then◌else◌, ltb→lt, lt→ltb, leb→le,
  le→leb, ==_iff, tests, if_both, if_cases, Bool-cases, Option-cases, is_some, is_none, contains,
  Distinct, contains-append, Distinct-snoc, length, select, any_of, all_of, sum_of, All,
  length-append, length-select-le, sum_of-append, select-append,
}
use loom_unified_agentic_cod.Base.Text.{
  Text, codes, same, one_of, starts_with, drop, split_at, strip, is_empty,
}

abbrev pub default_sensitive_globs : List Text
default_sensitive_globs =
    codes "**/auth/**"
    ∷ codes "**/billing/**"
    ∷ codes "**/migrations/**"
    ∷ codes "**/secrets/**"
    ∷ codes "**/.env"
    ∷ codes "**/*.pem"
    ∷ []

-- `t.replace(a, b)` of a character
abbrev replace : ℕ → ℕ → Text → Text
replace a b [] = []
replace a b (c ∷ t) = (if c == a then b else c) ∷ replace a b t

-- `t.lstrip(chars)`
abbrev lstrip_of : Text → Text → Text
lstrip_of chars [] = []
lstrip_of chars (c ∷ t) = if contains c chars then lstrip_of chars t else c ∷ t

abbrev first_part : List Text → Text
first_part [] = []
first_part (w ∷ ws) = w

-- The path without the prefix of its side; none for an absolute one.
abbrev without_side : Text → Text
without_side p =
    if starts_with (codes "b/") p
    then drop 2 p
    else if starts_with (codes "a/") p
    then drop 2 p
    else if starts_with (codes "/") p
    then []
    else p

abbrev path_named : Text → Text
path_named path =
    if is_empty path || same path (codes "/dev/null")
    then []
    else without_side (first_part (split_at 32 path))

-- The path that one line touches; empty where it touches none.
pub touched_path : Text → Text
touched_path line =
    if starts_with (codes "+++ ") line then path_named (strip (replace 9 32 (drop 4 line))) else []

abbrev add_touched : Text → List Text → List Text
add_touched p touched = if is_empty p || one_of p touched then touched else touched ++ p ∷ []

pub touched_from : List Text → List Text → List Text
unfolding touched_path
touched_from [] touched = touched
touched_from (line ∷ lines) touched = touched_from lines (add_touched (touched_path line) touched)

pub extract_touched_paths : List Text → List Text
unfolding touched_from
extract_touched_paths patch = touched_from patch []

abbrev without_dot : Text → Text
without_dot p = if starts_with (codes "./") p then drop 2 p else p

pub data GatewayStatus : Type 0 where
  allowed audit_only security_hold : GatewayStatus

pub record CommitGatewayDecision : Type 0 where
  pub is_allowed : Bool
  pub blocked_paths : List Text
  pub status : GatewayStatus

decide_blocked : Bool → List Text → CommitGatewayDecision
decide_blocked allow_with_audit [] = record {
  is_allowed = true;
  blocked_paths = [];
  status = allowed;
}
decide_blocked true (p ∷ ps) = record {
  is_allowed = true;
  blocked_paths = p ∷ ps;
  status = audit_only;
}
decide_blocked false (p ∷ ps) = record {
  is_allowed = false;
  blocked_paths = p ∷ ps;
  status = security_hold;
}

-- The globs are those of the organisation, if one is given.
abbrev pub globs_of : Option (List Text) → List Text
globs_of none = default_sensitive_globs
globs_of (some globs) = globs

module _ (fnmatch : Text → Text → Bool) where
  abbrev glob_matches : Text → Text → Bool
  glob_matches path glob =
      let pattern = lstrip_of (codes "./") (replace b'\\' b'/' glob) in
      fnmatch path pattern
      || (contains b'/' pattern && fnmatch path (lstrip_of (codes "**/") pattern))

  pub matches_sensitive_glob : List Text → Text → Bool
  matches_sensitive_glob globs path =
      any_of (glob_matches (without_dot (replace b'\\' b'/' path))) globs

  pub sensitive_paths_in_patch : Option (List Text) → List Text → List Text
  unfolding matches_sensitive_glob extract_touched_paths
  sensitive_paths_in_patch org patch =
      select (matches_sensitive_glob (globs_of org)) (extract_touched_paths patch)

  pub evaluate_commit_gateway : Bool → Option (List Text) → List Text → CommitGatewayDecision
  unfolding sensitive_paths_in_patch decide_blocked
  evaluate_commit_gateway allow_with_audit org patch =
      decide_blocked allow_with_audit (sensitive_paths_in_patch org patch)

-- Confidences are in hundredths.
pub record PatchApprovalPolicy : Type 0 where
  pub max_autonomous_diff_lines : ℕ
  pub min_autonomous_confidence : ℕ
  pub require_human_signoff : Bool
  pub sensitive_path_globs : List Text

abbrev pub default_policy : PatchApprovalPolicy
default_policy = record {
  max_autonomous_diff_lines = 150;
  min_autonomous_confidence = 60;
  require_human_signoff = false;
  sensitive_path_globs = default_sensitive_globs;
}

abbrev pub enterprise_default : PatchApprovalPolicy
enterprise_default = record {
  max_autonomous_diff_lines = 75;
  min_autonomous_confidence = 85;
  require_human_signoff = true;
  sensitive_path_globs = default_sensitive_globs;
}

abbrev removeprefix : Text → Text → Text
removeprefix p t = if starts_with p t then drop 2 t else t

abbrev is_unsure : PatchApprovalPolicy → Option ℕ → Bool
is_unsure policy none = false
is_unsure policy (some c) = ltb c policy.min_autonomous_confidence

module _ (fnmatch : Text → Text → Bool) where
  abbrev file_is_sensitive : List Text → Text → Bool
  file_is_sensitive globs file =
      let clean = removeprefix (codes "a/") (removeprefix (codes "b/") (strip file)) in
      matches_sensitive_glob fnmatch globs clean || matches_sensitive_glob fnmatch globs file

  pub classify_risk : PatchApprovalPolicy → ℕ → List Text → Option ℕ → Bool
  unfolding matches_sensitive_glob
  classify_risk policy diff_size files confidence =
      any_of (file_is_sensitive policy.sensitive_path_globs) files
      || ltb policy.max_autonomous_diff_lines diff_size
      || is_unsure policy confidence
