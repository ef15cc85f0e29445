-- ===== src/Business/PostMerge/Hunks.antt =====
-- loom/business/post_merge.py: the regular expression of a hunk header. Its match is a prefix of the line
-- without line ends, so that stripping them first changes nothing.
use loom_unified_agentic_cod.Base.{
  ℕ, ◌≡◌, refl, ap, ◌∙◌, Bool, true, false, ◌&&◌, Option, none, some, [], ◌∷◌, ◌++◌, arith, leb,
  ◌==◌, if◌then◌else◌, all_of,
}
use loom_unified_agentic_cod.Base.Text.{Text, codes}

abbrev pub is_digit : ℕ → Bool
is_digit c = leb b'0' c && leb c b'9'

-- The groups of the match, in digits.
pub record HunkHeader : Type 0 where
  pub old_start : Text
  pub old_len : Option Text
  pub new_start : Text
  pub new_len : Option Text

abbrev push : ℕ → Text × Text → Text × Text
push c (ds, rest) = (c ∷ ds, rest)

-- `\d*`, greedily
span_digits : Text → Text × Text
span_digits [] = ([], [])
span_digits (c ∷ t) = let r = span_digits t in if is_digit c then push c r else ([], c ∷ t)

nonempty : Text × Text → Option (Text × Text)
nonempty ([], rest) = none
nonempty (d ∷ ds, rest) = some (d ∷ ds, rest)

-- A literal
pub literal : Text → Text → Option Text
literal [] t = some t
literal (c ∷ s) [] = none
literal (c ∷ s) (d ∷ t) = let r = literal s t in if c == d then r else none

with_length : Text → Text → Option (Text × Text) → Option (Text × Option Text × Text)
with_length start rest none = some (start, none, rest)
with_length start rest (some (len, rest')) = some (start, some len, rest')

-- `(?:,(\d+))?`
opt_length : Text → Text → Option (Text × Option Text × Text)
unfolding span_digits nonempty with_length
opt_length start [] = some (start, none, [])
opt_length start (c ∷ t) =
    if c == b','
    then with_length start (c ∷ t) (nonempty (span_digits t))
    else some (start, none, c ∷ t)

from_start : Option (Text × Text) → Option (Text × Option Text × Text)
unfolding opt_length
from_start none = none
from_start (some (start, rest)) = opt_length start rest

-- `(\d+)(?:,(\d+))?`
range : Text → Option (Text × Option Text × Text)
unfolding from_start nonempty span_digits
range t = from_start (nonempty (span_digits t))

range_behind : Option Text → Option (Text × Option Text × Text)
unfolding range
range_behind none = none
range_behind (some t) = range t

header_of : Text → Option Text → Option (Text × Option Text × Text) → Option HunkHeader
unfolding literal
header_of os ol none = none
header_of os ol (some (ns, nl, t)) = elim (literal (codes " @@") t) [
  | none ↦ none
  | some _ ↦ some record { old_start = os; old_len = ol; new_start = ns; new_len = nl }
]

new_range : Option (Text × Option Text × Text) → Option HunkHeader
unfolding range_behind header_of
new_range none = none
new_range (some (os, ol, t)) = header_of os ol (range_behind (literal (codes " +") t))

-- `_HUNK_RE.match`
unfoldable pub parse_hunk : Text → Option HunkHeader
unfolding new_range
parse_hunk l = new_range (range_behind (literal (codes "@@ -") l))

-- `old_len or "1"`
abbrev pub or_one : Option Text → Text
or_one none = codes "1"
or_one (some len) = len

abbrev pub header_line : Text → Text → Text → Text → Text
header_line os ol ns nl =
    codes "@@ -" ++ (os ++ (b',' ∷ (ol ++ (codes " +" ++ (ns ++ (b',' ∷ (nl ++ codes " @@\n")))))))

-- A length, where it is written.
abbrev pub len_part : Option Text → Text
len_part none = []
len_part (some len) = b',' ∷ len

-- A header with optional lengths, and what stands behind it on its line.
abbrev pub written_header : Text → Option Text → Text → Option Text → Text → Text
written_header os ol ns nl heading =
    codes "@@ -"
    ++ (os ++ (len_part ol ++ (codes " +" ++ (ns ++ (len_part nl ++ (codes " @@" ++ heading))))))

abbrev pub line_end : Text
line_end = codes "\n"

unfoldable pub inverted_header : HunkHeader → Text
inverted_header h = header_line h.new_start (or_one h.new_len) h.old_start (or_one h.old_len)

-- Digits, at least one.
abbrev pub all_digits : Text → Bool
all_digits [] = false
all_digits (c ∷ t) = is_digit c && all_of is_digit t

literal-append : (s t : Text) → literal s (s ++ t) ≡ some t
unfolding literal
literal-append [] t = refl
literal-append (c ∷ s) t = ground (arith, literal-append s t)

span-append :
    (ds : Text) (c : ℕ) (rest : Text)
    → all_of is_digit ds ≡ true
    → is_digit c ≡ false
    → span_digits (ds ++ c ∷ rest) ≡ (ds, c ∷ rest)
unfolding span_digits
span-append [] c rest h k = ground (arith, k)
span-append (d ∷ ds) c rest h k =
    rw (span-append ds c rest (ground (arith, h)) k) (ground (arith, h))

nonempty-append :
    (ds : Text) (c : ℕ) (rest : Text)
    → all_digits ds ≡ true
    → is_digit c ≡ false
    → nonempty (span_digits (ds ++ c ∷ rest)) ≡ some (ds, c ∷ rest)
unfolding nonempty
nonempty-append [] c rest h k = ground (arith, h)
nonempty-append (d ∷ ds) c rest h k = ap nonempty (span-append (d ∷ ds) c rest h k)

abbrev pub opt_digits : Option Text → Bool
opt_digits none = true
opt_digits (some len) = all_digits len

range-append :
    (start : Text) (len : Option Text) (c : ℕ) (rest : Text)
    → all_digits start ≡ true
    → opt_digits len ≡ true
    → is_digit c ≡ false
    → (c == b',') ≡ false
    → range (start ++ (len_part len ++ (c ∷ rest))) ≡ some (start, len, c ∷ rest)
unfolding range from_start opt_length with_length
range-append start none c rest h k n m =
    ap from_start (nonempty-append start c rest h n) ∙ ground (arith, m)
range-append start (some len) c rest h k n m =
    ap from_start (nonempty-append start b',' (len ++ (c ∷ rest)) h refl)
    ∙ ap (with_length start (b',' ∷ (len ++ (c ∷ rest)))) (nonempty-append len c rest k n)

behind_literal :
    (s start : Text) (len : Option Text) (rest : Text)
    → all_digits start ≡ true
    → opt_digits len ≡ true
    → range_behind (literal s (s ++ (start ++ (len_part len ++ (32 ∷ rest)))))
      ≡ some (start, len, 32 ∷ rest)
unfolding range_behind
behind_literal s start len rest h k =
    ap range_behind (literal-append s (start ++ (len_part len ++ (32 ∷ rest))))
    ∙ range-append start len 32 rest h k refl refl

-- A header that is written is read back.
pub parse-header :
    (os : Text) (ol : Option Text) (ns : Text) (nl : Option Text) (heading : Text)
    → all_digits os ≡ true
    → opt_digits ol ≡ true
    → all_digits ns ≡ true
    → opt_digits nl ≡ true
    → parse_hunk (written_header os ol ns nl heading)
      ≡ some record { old_start = os; old_len = ol; new_start = ns; new_len = nl }
unfolding parse_hunk new_range header_of literal
parse-header os ol ns nl heading a b c d =
    ap new_range (
      behind_literal (codes "@@ -") os ol (b'+' ∷ (ns ++ (len_part nl ++ (codes " @@" ++ heading))))
        a b)
    ∙ ap (header_of os ol) (behind_literal (codes " +") ns nl (codes "@@" ++ heading) c d)

-- A line that does not begin with `@` is no header.
pub no-header : (c : ℕ) (t : Text) → (b'@' == c) ≡ false → parse_hunk (c ∷ t) ≡ none
unfolding parse_hunk new_range range_behind literal
no-header c t h = ground (arith, h)
