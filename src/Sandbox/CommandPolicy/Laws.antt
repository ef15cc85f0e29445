-- ===== src/Sandbox/CommandPolicy/Laws.antt =====
-- What an accepted command can be.
use loom_unified_agentic_cod.Base.{
  ◌≡◌, refl, sym, subst, ◌↔◌, ◌⊎◌, inl, inr, true, false, not, ◌||◌, Option, none, some, List, [],
  ◌∷◌, arith, if_cases, Bool-cases, any_of, all_of, All,
}
use loom_unified_agentic_cod.Base.Text.{
  Text, codes, same, same_sound, one_of, starts_with, ends_with, is_empty, strip,
}
use loom_unified_agentic_cod.Sandbox.CommandPolicy.{
  is_meta, split, split_parsed, safe_repo_path, pytest_flags, pytest_argument, validate_pytest,
  validate_python, validate_npm, validate_parts, checked, validate_verification_command,
}
use loom_unified_agentic_cod.Sandbox.CommandPolicy.Lexer.{shlex_split, words-all}
use loom_unified_agentic_cod.Sandbox.CommandPolicy.Lexer.Words.{
  is_quoting, blank_words, shlex-words,
}

-- An argument of pytest: one of its flags, or a path in the repository that does not begin like a flag.
abbrev pub PytestArgument : Text → Type 0
PytestArgument a =
    (one_of a pytest_flags ≡ true)
    ⊎ ((starts_with (codes "-") a ≡ false) × (safe_repo_path a ≡ true))

-- The commands that the policy means to allow.
pub data Allowed : List Text → Type 0 where
  pytest_run : (args : List Text) → All PytestArgument args → Allowed (codes "pytest" ∷ args)
  python_file :
      (f : Text)
      → safe_repo_path f ≡ true
      → ends_with (codes ".py") f ≡ true
      → Allowed (codes "python" ∷ f ∷ [])
  python_pytest : Allowed (codes "python" ∷ codes "-m" ∷ codes "pytest" ∷ [])
  python_unittest : Allowed (codes "python" ∷ codes "-m" ∷ codes "unittest" ∷ [])
  npm_test : Allowed (codes "npm" ∷ codes "test" ∷ [])
  npm_run_test : Allowed (codes "npm" ∷ codes "run" ∷ codes "test" ∷ [])
  npm_run_lint : Allowed (codes "npm" ∷ codes "run" ∷ codes "lint" ∷ [])
  npm_run_build : Allowed (codes "npm" ∷ codes "run" ∷ codes "build" ∷ [])

argument_sound : (a : Text) → pytest_argument a ≡ true → PytestArgument a
unfolding pytest_argument
argument_sound a h = ground arith

arguments_sound : (args : List Text) → validate_pytest args ≡ true → All PytestArgument args
unfolding validate_pytest
arguments_sound [] h = tt
arguments_sound (a ∷ args) h =
    (argument_sound a (ground (arith, h)), arguments_sound args (ground (arith, h)))

-- One of two texts.
two_cases : (P : Text → Type 0) (s a b : Text) → one_of s (a ∷ b ∷ []) ≡ true → P a → P b → P s
two_cases P s a b h pa pb = elim (Bool-cases (same s a)) [
  | inl e ↦ subst P (sym (same_sound s a e)) pa
  | inr e ↦ subst P (sym (same_sound s b (ground (arith, h, e)))) pb
]

python_sound : (args : List Text) → validate_python args ≡ true → Allowed (codes "python" ∷ args)
unfolding validate_python
python_sound [] h = ground arith
python_sound (a ∷ []) h = python_file a (ground (arith, h)) (ground (arith, h))
python_sound (a ∷ b ∷ []) h =
    subst (λ x. Allowed (codes "python" ∷ x ∷ b ∷ []))
      (sym (same_sound a (codes "-m") (ground (arith, h))))
      (two_cases (λ x. Allowed (codes "python" ∷ codes "-m" ∷ x ∷ [])) b (codes "pytest")
        (codes "unittest") (ground (arith, h)) python_pytest python_unittest)
python_sound (a ∷ b ∷ c ∷ args) h = ground arith

npm_sound : (args : List Text) → validate_npm args ≡ true → Allowed (codes "npm" ∷ args)
unfolding validate_npm
npm_sound [] h = ground arith
npm_sound (a ∷ []) h =
    subst (λ x. Allowed (codes "npm" ∷ x ∷ [])) (sym (same_sound a (codes "test") h)) npm_test
npm_sound (a ∷ b ∷ []) h =
    let P = λ (x : Text). Allowed (codes "npm" ∷ codes "run" ∷ x ∷ []) in
    subst (λ x. Allowed (codes "npm" ∷ x ∷ b ∷ []))
      (sym (same_sound a (codes "run") (ground (arith, h))))
      (elim (Bool-cases (same b (codes "test"))) [
        | inl e ↦ subst P (sym (same_sound b (codes "test") e)) npm_run_test
        | inr e ↦
            two_cases P b (codes "lint") (codes "build") (ground (arith, h, e)) npm_run_lint
              npm_run_build
      ])
npm_sound (a ∷ b ∷ c ∷ args) h = ground arith

parts_sound : (parts : List Text) → validate_parts parts ≡ true → Allowed parts
unfolding validate_parts
parts_sound [] h = ground arith
parts_sound (x ∷ args) h = elim (Bool-cases (same x (codes "pytest"))) [
  | inl e ↦
      subst (λ y. Allowed (y ∷ args)) (sym (same_sound x (codes "pytest") e))
        (pytest_run args (arguments_sound args (ground (arith, h, e))))
  | inr e ↦ elim (Bool-cases (same x (codes "python"))) [
    | inl e' ↦
        subst (λ y. Allowed (y ∷ args)) (sym (same_sound x (codes "python") e'))
          (python_sound args (ground (arith, h, e, e')))
    | inr e' ↦ elim (Bool-cases (same x (codes "npm"))) [
      | inl e'' ↦
          subst (λ y. Allowed (y ∷ args)) (sym (same_sound x (codes "npm") e''))
            (npm_sound args (ground (arith, h, e, e', e'')))
      | inr e'' ↦ ground (arith, h, e, e', e'')
    ]
  ]
]

argument_complete : (a : Text) → PytestArgument a → pytest_argument a ≡ true
unfolding pytest_argument
argument_complete a (inl h) = ground (arith, h)
argument_complete a (inr (h, k)) = ground (arith, h, k)

arguments_complete : (args : List Text) → All PytestArgument args → validate_pytest args ≡ true
unfolding validate_pytest
arguments_complete [] h = refl
arguments_complete (a ∷ args) h =
    ground (arith, argument_complete a h.0, arguments_complete args h.1)

parts_complete : (parts : List Text) → Allowed parts → validate_parts parts ≡ true
unfolding validate_parts validate_python validate_npm
parts_complete _ (pytest_run args h) = arguments_complete args h
parts_complete _ (python_file f h k) = ground (arith, h, k)
parts_complete _ python_pytest = refl
parts_complete _ python_unittest = refl
parts_complete _ npm_test = refl
parts_complete _ npm_run_test = refl
parts_complete _ npm_run_lint = refl
parts_complete _ npm_run_build = refl

-- Parts are accepted exactly when they are an allowed run of pytest, of a Python file or module, or of npm.
pub parts_iff : (parts : List Text) → (validate_parts parts ≡ true) ↔ Allowed parts
parts_iff parts = (parts_sound parts, parts_complete parts)

no_meta : (t : Text) → any_of is_meta t ≡ false → all_of (λ c. not (is_meta c)) t ≡ true
no_meta [] h = refl
no_meta (c ∷ t) h = ground (arith, no_meta t)

split_parsed_sound :
    (o : Option (List Text)) (parts : List Text) → split_parsed o ≡ some parts → o ≡ some parts
unfolding split_parsed
split_parsed_sound none parts h = ground arith
split_parsed_sound (some []) parts h = ground arith
split_parsed_sound (some (w ∷ ws)) parts h = h

split_sound :
    (command : Text) (parts : List Text)
    → split command ≡ some parts
    → (any_of is_meta command ≡ false) × (shlex_split command ≡ some parts)
unfolding split
split_sound command parts =
    if_cases
      (λ o. o ≡ some parts → (any_of is_meta command ≡ false) × (shlex_split command ≡ some parts))
      (is_empty (strip command) || any_of is_meta command) _ _ (λ e h. ground arith)
      (λ e h. (ground (arith, e), split_parsed_sound (shlex_split command) parts h))

checked_sound :
    (o : Option (List Text)) (parts : List Text)
    → checked o ≡ some parts
    → (o ≡ some parts) × (validate_parts parts ≡ true)
unfolding checked
checked_sound none parts h = ground arith
checked_sound (some ws) parts h =
    if_cases (λ o. o ≡ some parts → (some ws ≡ some parts) × (validate_parts parts ≡ true))
      (validate_parts ws) _ _ (λ e k. (k, ground (arith, e, k))) (λ e k. ground arith) h

words_cases :
    (command : Text) (parts : List Text)
    → shlex_split command ≡ some parts
    → (any_of is_quoting command ≡ true) ⊎ (parts ≡ blank_words command)
words_cases command parts l = elim (Bool-cases (any_of is_quoting command)) [
  | inl e ↦ inl e
  | inr e ↦ inr (shlex-words command parts e l)
]

-- The words of a command that is accepted are those that `shlex.split` gives, which are the pieces between
-- the blanks, new lines included, unless the command has a quotation mark or a backslash; together they are
-- one of the allowed commands; and no word has one of the characters ; & | ` $ < and >.
pub command-Allowed :
    (command : Text) (parts : List Text)
    → validate_verification_command command ≡ some parts
    → (shlex_split command ≡ some parts)
      × ((any_of is_quoting command ≡ true) ⊎ (parts ≡ blank_words command))
      × Allowed parts
      × (all_of (all_of (λ c. not (is_meta c))) parts ≡ true)
unfolding validate_verification_command
command-Allowed command parts h =
    let (s, v) = checked_sound (split command) parts h in
    let (m, l) = split_sound command parts s in
    (
      l,
      words_cases command parts l,
      parts_sound parts v,
      words-all (λ c. not (is_meta c)) refl command parts (no_meta command m) l,
    )
