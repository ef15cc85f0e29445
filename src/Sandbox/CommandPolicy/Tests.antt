-- ===== src/Sandbox/CommandPolicy/Tests.antt =====
-- Commands that the policy accepts and refuses.
use loom_unified_agentic_cod.Base.{
  ◌≡◌, refl, ◌⊎◌, true, not, none, some, List, [], ◌∷◌, any_of, all_of,
}
use loom_unified_agentic_cod.Sandbox.CommandPolicy.Lexer.Words.{is_quoting, blank_words}
use loom_unified_agentic_cod.Base.Text.{Text, codes}
use loom_unified_agentic_cod.Sandbox.CommandPolicy.{is_meta, validate_verification_command}
use loom_unified_agentic_cod.Sandbox.CommandPolicy.Lexer.{shlex_split}
use loom_unified_agentic_cod.Sandbox.CommandPolicy.Laws.{Allowed, command-Allowed}

split_test :
    shlex_split (codes "pytest -q 'a b'\"c\\\"\" d\\ e")
    ≡ some (codes "pytest" ∷ codes "-q" ∷ codes "a bc\"" ∷ codes "d e" ∷ [])
unfolding shlex_split
split_test = refl

refused_test : validate_verification_command (codes "pytest ../x") ≡ none
unfolding validate_verification_command shlex_split
refused_test = refl

abbrev command : Text
command = codes "pytest -q tests/test_a.py"

abbrev parts : List Text
parts = codes "pytest" ∷ codes "-q" ∷ codes "tests/test_a.py" ∷ []

accepted : validate_verification_command command ≡ some parts
unfolding validate_verification_command shlex_split
accepted = refl

command-Allowed_example :
    (shlex_split command ≡ some parts)
    × ((any_of is_quoting command ≡ true) ⊎ (parts ≡ blank_words command))
    × Allowed parts
    × (all_of (all_of (λ c. not (is_meta c))) parts ≡ true)
command-Allowed_example = command-Allowed command parts accepted

-- A new line is a blank.
two_lines :
    validate_verification_command (codes "pytest\nnpm") ≡ some (codes "pytest" ∷ codes "npm" ∷ [])
unfolding validate_verification_command shlex_split
two_lines = refl
