-- ===== src/Sandbox/CommandPolicy/Lexer/Words.antt =====
-- Without quotation marks and backslashes `shlex.split` cuts a command at its blanks.
use loom_unified_agentic_cod.Base.{
  ℕ, ◌≡◌, refl, sym, ap, ◌∙◌, inl, inr, Bool, true, false, not, ◌||◌, Option, none, some, List, [],
  ◌∷◌, ◌++◌, append-nil, append_assoc, arith, ◌==◌, if◌then◌else◌, Bool-cases, select, any_of,
}
use loom_unified_agentic_cod.Base.Text.{Text, is_empty, on_first}
use loom_unified_agentic_cod.Sandbox.CommandPolicy.Lexer.{
  Lex, between, word, is_blank, is_quote, step, emit, lex, shlex_split,
}

abbrev pub is_quoting : ℕ → Bool
is_quoting c = is_quote c || c == b'\\'

-- The pieces of a text between its blanks, the empty ones too.
abbrev pieces : Text → List Text
pieces [] = [] ∷ []
pieces (c ∷ t) = let ps = pieces t in if is_blank c then [] ∷ ps else on_first c ps

abbrev nonempty : List Text → List Text
nonempty ps = select (λ w. not (is_empty w)) ps

-- The pieces that are not empty.
pub blank_words : Text → List Text
blank_words t = nonempty (pieces t)

-- A text put before the first piece.
abbrev glue : Text → List Text → List Text
glue t [] = t ∷ []
glue t (p ∷ ps) = (t ++ p) ∷ ps

glue-first : (t : Text) (c : ℕ) (ps : List Text) → glue (t ++ c ∷ []) ps ≡ glue t (on_first c ps)
glue-first t c [] = refl
glue-first t c (p ∷ ps) = ap (λ x. x ∷ ps) (append_assoc t (c ∷ []) p)

glue_one : (c : ℕ) (ps : List Text) → glue (c ∷ []) ps ≡ on_first c ps
glue_one c [] = refl
glue_one c (p ∷ ps) = refl

between-step :
    (c : ℕ)
    → is_quoting c ≡ false
    → step between [] c ≡ (if is_blank c then (between, [], none) else (word, c ∷ [], none))
unfolding step
between-step c h = ground (arith, h)

word-step :
    (t : Text) (c : ℕ)
    → is_quoting c ≡ false
    → step word t c ≡ (if is_blank c then (between, [], some t) else (word, t ++ c ∷ [], none))
unfolding step
word-step t c h = ground (arith, h)

abbrev go_on : Text → Lex × Text × Option Text → Option (List Text)
go_on cs (l, t, w) = emit w (lex l t cs)

abbrev cut : Bool → ℕ → List Text → List Text
cut b c ps = if b then [] ∷ ps else on_first c ps

blank-between :
    (c : ℕ) (cs : Text)
    → is_blank c ≡ true
    → lex between [] cs ≡ some (nonempty (pieces cs))
    → go_on cs (if is_blank c then (between, [], none) else (word, c ∷ [], none))
      ≡ some (nonempty (pieces (c ∷ cs)))
unfolding emit
blank-between c cs e b =
    ap (λ x. go_on cs (if x then (between, [], none) else (word, c ∷ [], none))) e
    ∙ b
    ∙ ap (λ x. some (nonempty (cut x c (pieces cs)))) (sym e)

letter-between :
    (c : ℕ) (cs : Text)
    → is_blank c ≡ false
    → lex word (c ∷ []) cs ≡ some (nonempty (glue (c ∷ []) (pieces cs)))
    → go_on cs (if is_blank c then (between, [], none) else (word, c ∷ [], none))
      ≡ some (nonempty (pieces (c ∷ cs)))
unfolding emit
letter-between c cs e b =
    ap (λ x. go_on cs (if x then (between, [], none) else (word, c ∷ [], none))) e
    ∙ b
    ∙ ap (λ x. some (nonempty x)) (glue_one c (pieces cs))
    ∙ ap (λ x. some (nonempty (cut x c (pieces cs)))) (sym e)

blank-word :
    (c : ℕ) (cs : Text) (d : ℕ) (t : Text)
    → is_blank c ≡ true
    → lex between [] cs ≡ some (nonempty (pieces cs))
    → go_on cs (if is_blank c then (between, [], some (d ∷ t)) else (word, (d ∷ t) ++ c ∷ [], none))
      ≡ some (nonempty (glue (d ∷ t) (pieces (c ∷ cs))))
unfolding emit
blank-word c cs d t e b =
    ap (λ x. go_on cs (if x then (between, [], some (d ∷ t)) else (word, (d ∷ t) ++ c ∷ [], none)))
      e
    ∙ ap (emit (some (d ∷ t))) b
    ∙ ap (λ x. some ((d ∷ x) ∷ nonempty (pieces cs))) (sym (append-nil t))
    ∙ ap (λ x. some (nonempty (glue (d ∷ t) (cut x c (pieces cs))))) (sym e)

letter-word :
    (c : ℕ) (cs : Text) (d : ℕ) (t : Text)
    → is_blank c ≡ false
    → lex word ((d ∷ t) ++ c ∷ []) cs ≡ some (nonempty (glue ((d ∷ t) ++ c ∷ []) (pieces cs)))
    → go_on cs (if is_blank c then (between, [], some (d ∷ t)) else (word, (d ∷ t) ++ c ∷ [], none))
      ≡ some (nonempty (glue (d ∷ t) (pieces (c ∷ cs))))
unfolding emit
letter-word c cs d t e b =
    ap (λ x. go_on cs (if x then (between, [], some (d ∷ t)) else (word, (d ∷ t) ++ c ∷ [], none)))
      e
    ∙ b
    ∙ ap (λ x. some (nonempty x)) (glue-first (d ∷ t) c (pieces cs))
    ∙ ap (λ x. some (nonempty (glue (d ∷ t) (cut x c (pieces cs))))) (sym e)

-- The words of a text, from between words and from inside one.
Cut : Text → Type 0
Cut cs =
    (lex between [] cs ≡ some (nonempty (pieces cs)))
    × ((d : ℕ) (t : Text) → lex word (d ∷ t) cs ≡ some (nonempty (glue (d ∷ t) (pieces cs))))

lex-Cut : (cs : Text) → any_of is_quoting cs ≡ false → Cut cs
unfolding Cut lex
lex-Cut [] h = (refl, λ d t. ap (λ x. some ((d ∷ x) ∷ [])) (sym (append-nil t)))
lex-Cut (c ∷ cs) h =
    let (b, w) = lex-Cut cs (ground (arith, h)) in
    let q : is_quoting c ≡ false = ground (arith, h) in
    elim (Bool-cases (is_blank c)) [
      | inl e ↦ (
        ap (go_on cs) (between-step c q) ∙ blank-between c cs e b,
        λ d t. ap (go_on cs) (word-step (d ∷ t) c q) ∙ blank-word c cs d t e b,
      )
      | inr e ↦ (
        ap (go_on cs) (between-step c q) ∙ letter-between c cs e (w c []),
        λ d t. ap (go_on cs) (word-step (d ∷ t) c q) ∙ letter-word c cs d t e (w d (t ++ c ∷ [])),
      )
    ]

pub shlex-words :
    (command : Text) (parts : List Text)
    → any_of is_quoting command ≡ false
    → shlex_split command ≡ some parts
    → parts ≡ blank_words command
unfolding shlex_split Cut blank_words
shlex-words command parts q e =
    let p : some parts ≡ some (blank_words command) = sym e ∙ (lex-Cut command q).0 in cc p
