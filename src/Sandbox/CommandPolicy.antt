-- ===== src/Sandbox/CommandPolicy.antt =====
-- loom/sandbox/command_policy.py: which commands the verification may run. A refusal is `none`, without
-- its message; texts are lists of ASCII codes.
pub mod Lexer
pub mod Laws
mod Tests
use loom_unified_agentic_cod.Base.{
  ℕ, zero, suc, ◌+◌, ◌-◌, ◌*◌, ◌/◌, ◌%◌, ◌^◌, min, max, ◌≤◌, ◌<◌, ◌≡◌, refl, sym, ap, subst, ◌∙◌,
  ◌≢◌, ◌↔◌, ◌⊎◌, inl, inr, Bool, true, false, not, ◌&&◌, ◌||◌, Option, none, some, List, [], ◌∷◌,
  ◌++◌, map, append-nil, append_assoc, arith, ltb, leb, ◌==◌, if◌then◌else◌, ltb→lt, lt→ltb, leb→le,
  le→leb, ==_iff, tests, if_both, if_cases, Bool-cases, Option-cases, is_some, is_none, contains,
  Distinct, contains-append, Distinct-snoc, length, select, any_of, all_of, sum_of, All,
  length-append, length-select-le, sum_of-append, select-append,
}
use loom_unified_agentic_cod.Base.Text.{
  Text, codes, same, one_of, starts_with, ends_with, drop, split_at, is_space, strip, is_empty,
}
use loom_unified_agentic_cod.Sandbox.CommandPolicy.Lexer.{shlex_split}

-- `_SHELL_META`
abbrev pub is_meta : ℕ → Bool
is_meta c = contains c (codes ";&|`$<>")

abbrev within : ℕ → ℕ → ℕ → Bool
within a b c = leb a c && leb c b

-- The class of `_SAFE_ARGUMENT`
abbrev pub is_safe : ℕ → Bool
is_safe c =
    within b'A' b'Z' c || within b'a' b'z' c || within b'0' b'9' c || contains c (codes "_./:@+%=-")

split_parsed : Option (List Text) → Option (List Text)
split_parsed none = none
split_parsed (some []) = none
split_parsed (some (w ∷ ws)) = some (w ∷ ws)

-- `_split`
pub split : Text → Option (List Text)
unfolding split_parsed
split command =
    if is_empty (strip command) || any_of is_meta command
    then none
    else split_parsed (shlex_split command)

-- `_safe_repo_path`; the parts of a `PurePosixPath` are those between the slashes.
pub safe_repo_path : Text → Bool
safe_repo_path value =
    not (starts_with (codes "/") value)
    && not (starts_with (codes "\\") value)
    && not (one_of (codes "..") (split_at b'/' value))
    && not (is_empty value)
    && all_of is_safe value

abbrev pub pytest_flags : List Text
pytest_flags = codes "-q" ∷ codes "-v" ∷ codes "-x" ∷ codes "--tb=short" ∷ codes "--maxfail=1" ∷ []

pytest_argument : Text → Bool
unfolding safe_repo_path
pytest_argument arg =
    one_of arg pytest_flags || (not (starts_with (codes "-") arg) && safe_repo_path arg)

-- `_validate_pytest`, of the arguments behind the executable
validate_pytest : List Text → Bool
unfolding pytest_argument
validate_pytest args = all_of pytest_argument args

-- `_validate_python`
validate_python : List Text → Bool
unfolding safe_repo_path
validate_python (a ∷ []) = safe_repo_path a && ends_with (codes ".py") a
validate_python (a ∷ b ∷ []) =
    same a (codes "-m") && one_of b (codes "pytest" ∷ codes "unittest" ∷ [])
validate_python _ = false

-- `_validate_npm`
validate_npm : List Text → Bool
validate_npm (a ∷ []) = same a (codes "test")
validate_npm (a ∷ b ∷ []) =
    same a (codes "run") && one_of b (codes "test" ∷ codes "lint" ∷ codes "build" ∷ [])
validate_npm _ = false

pub validate_parts : List Text → Bool
unfolding validate_pytest validate_python validate_npm
validate_parts [] = false
validate_parts (executable ∷ args) =
    if same executable (codes "pytest")
    then validate_pytest args
    else if same executable (codes "python")
    then validate_python args
    else if same executable (codes "npm")
    then validate_npm args
    else false

checked : Option (List Text) → Option (List Text)
unfolding validate_parts
checked none = none
checked (some parts) = if validate_parts parts then some parts else none

pub validate_verification_command : Text → Option (List Text)
unfolding split checked
validate_verification_command command = checked (split command)

-- The first refusal ends the loop.
pub validate_verification_commands : List Text → Option (List (List Text))
unfolding validate_verification_command
validate_verification_commands [] = some []
validate_verification_commands (c ∷ cs) =
    let rest = validate_verification_commands cs in
    elim (validate_verification_command c) [
      | none ↦ none
      | some parts ↦ elim rest [ none ↦ none | some all ↦ some (parts ∷ all) ]
    ]
