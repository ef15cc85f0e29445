-- ===== src/Sandbox/CommandPolicy/Lexer.antt =====
-- `shlex.split(command, posix=True)`, which loom/sandbox/command_policy.py calls: words between blanks,
-- with quotes and backslashes.
pub mod Words
use loom_unified_agentic_cod.Base.{
  ℕ, ◌≡◌, refl, sym, ap, ◌∙◌, Bool, true, ◌&&◌, ◌||◌, Option, none, some, List, [], ◌∷◌, ◌++◌,
  arith, ◌==◌, if◌then◌else◌, all_of,
}
use loom_unified_agentic_cod.Base.Text.{Text}

-- Between words, in one, in one between quotes, behind a backslash; the last says which quotes it is in.
pub data Lex : Type 0 where
  between word : Lex
  quoted : ℕ → Lex
  escaped : Option ℕ → Lex

abbrev pub is_blank : ℕ → Bool
is_blank c = c == 32 || c == 9 || c == 13 || c == 10

abbrev pub is_quote : ℕ → Bool
is_quote c = c == b'\'' || c == b'"'

-- One character: the state, the word so far and the word that ended.
step : Lex → Text → ℕ → Lex × Text × Option Text
step between t c =
    if is_blank c
    then (between, [], none)
    else if c == b'\\'
    then (escaped none, [], none)
    else if is_quote c
    then (quoted c, [], none)
    else (word, c ∷ [], none)
step word t c =
    if is_blank c
    then (between, [], some t)
    else if is_quote c
    then (quoted c, t, none)
    else if c == b'\\'
    then (escaped none, t, none)
    else (word, t ++ c ∷ [], none)
step (quoted q) t c =
    if c == q
    then (word, t, none)
    else if c == b'\\' && q == b'"'
    then (escaped (some q), t, none)
    else (quoted q, t ++ c ∷ [], none)
step (escaped none) t c = (word, t ++ c ∷ [], none)
step (escaped (some q)) t c =
    (quoted q, if c == b'\\' || c == q then t ++ c ∷ [] else t ++ b'\\' ∷ c ∷ [], none)

emit : Option Text → Option (List Text) → Option (List Text)
emit none r = r
emit (some w) none = none
emit (some w) (some ws) = some (w ∷ ws)

lex : Lex → Text → Text → Option (List Text)
unfolding step emit
lex between t [] = some []
lex word t [] = some (t ∷ [])
lex (quoted q) t [] = none
lex (escaped o) t [] = none
lex l t (c ∷ cs) = let (l', t', w) = step l t c in emit w (lex l' t' cs)

-- `none` where a quotation or an escape does not end.
unfoldable pub shlex_split : Text → Option (List Text)
unfolding lex
shlex_split command = lex between [] command

step_word : Option Text → (ℕ → Bool) → Bool
step_word none p = true
step_word (some w) p = all_of p w

module _ (p : ℕ → Bool) where
  all_of-snoc : (t : Text) (c : ℕ) → all_of p (t ++ c ∷ []) ≡ (all_of p t && p c)
  all_of-snoc [] c = ground arith
  all_of-snoc (d ∷ t) c = ground (arith, all_of-snoc t c)

  all_of-snoc_two : (t : Text) (b c : ℕ) → all_of p (t ++ b ∷ c ∷ []) ≡ (all_of p t && p b && p c)
  all_of-snoc_two [] b c = ground arith
  all_of-snoc_two (d ∷ t) b c = ground (arith, all_of-snoc_two t b c)

  module _ (backslash : p b'\\' ≡ true) where
    step-all :
        (l : Lex) (t : Text) (c : ℕ)
        → all_of p t ≡ true
        → p c ≡ true
        → (all_of p (step l t c).1 ≡ true) × (step_word (step l t c).2 p ≡ true)
    unfolding step step_word
    step-all between t c h k = ground arith
    step-all word t c h k = ground (arith, all_of-snoc t c)
    step-all (quoted q) t c h k = ground (arith, all_of-snoc t c)
    step-all (escaped none) t c h k = ground (arith, all_of-snoc t c)
    step-all (escaped (some q)) t c h k = ground (arith, all_of-snoc t c, all_of-snoc_two t b'\\' c)

    abbrev all_words : Option (List Text) → Bool
    all_words none = true
    all_words (some ws) = all_of (all_of p) ws

    emit-all :
        (w : Option Text) (r : Option (List Text))
        → step_word w p ≡ true
        → all_words r ≡ true
        → all_words (emit w r) ≡ true
    unfolding emit step_word
    emit-all none r h k = k
    emit-all (some w) none h k = refl
    emit-all (some w) (some ws) h k = ground (arith, h, k)

    lex-all :
        (l : Lex) (t cs : Text)
        → all_of p t ≡ true
        → all_of p cs ≡ true
        → all_words (lex l t cs) ≡ true
    unfolding lex
    lex-all between t [] h k = refl
    lex-all word t [] h k = ground (arith, h)
    lex-all (quoted q) t [] h k = refl
    lex-all (escaped o) t [] h k = refl
    lex-all l t (c ∷ cs) h k =
        let (a, b) = step-all l t c h (ground (arith, k)) in
        emit-all (step l t c).2 _ b (lex-all (step l t c).0 (step l t c).1 cs a (ground (arith, k)))

    -- What holds of the backslash and of every character of a command holds of every character of its
    -- words.
    pub words-all :
        (command : Text) (ws : List Text)
        → all_of p command ≡ true
        → shlex_split command ≡ some ws
        → all_of (all_of p) ws ≡ true
    unfolding shlex_split
    words-all command ws k e = ap all_words (sym e) ∙ lex-all between [] command refl k
