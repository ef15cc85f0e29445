-- ===== src/Business/PostMerge.antt =====
-- loom/business/post_merge.py: the rollback after a merge and the reversal of a patch. A patch is the list
-- of its lines with their ends, as `splitlines(keepends=True)` gives them, in ASCII codes; a malformed one
-- is `none`.
pub mod Hunks
pub mod Laws
pub mod Twice
pub mod Monitor
mod Tests
use loom_unified_agentic_cod.Base.{
  ℕ, zero, suc, ◌+◌, ◌-◌, ◌*◌, ◌/◌, ◌%◌, ◌^◌, min, max, ◌≤◌, ◌<◌, ◌≡◌, refl, sym, ap, subst, ◌∙◌,
  ◌≢◌, ◌↔◌, ◌⊎◌, inl, inr, Bool, true, false, not, ◌&&◌, ◌||◌, Option, none, some, List, [], ◌∷◌,
  ◌++◌, map, append-nil, append_assoc, arith, ltb, leb, ◌==◌, if◌then◌else◌, ltb→lt, lt→ltb, leb→le,
  le→leb, ==_iff, tests, if_both, if_cases, Bool-cases, Option-cases, is_some, is_none, contains,
  Distinct, contains-append, Distinct-snoc, length, select, any_of, all_of, sum_of, All,
  length-append, length-select-le, sum_of-append, select-append,
}
use loom_unified_agentic_cod.Base.Text.{Text, codes, starts_with, drop, is_empty}
use loom_unified_agentic_cod.Business.PostMerge.Hunks.{HunkHeader, parse_hunk, inverted_header}

-- Where the loop stands: outside a hunk, inside one, or behind a `--- ` line, whose text it keeps.
pub data Place : Type 0 where
  outside inside : Place
  behind_old : Text → Place

-- The marker of a line inside a hunk flipped, and whether there was one.
pub flip_line : Text → Text × Bool
flip_line [] = ([], false)
flip_line (c ∷ t) =
    if c == b'+' then (b'-' ∷ t, true) else if c == b'-' then (b'+' ∷ t, true) else (c ∷ t, false)

-- A line that is no header of a file or a hunk.
plain_line : Place → Text → Place × List Text × Bool
unfolding flip_line
plain_line inside l =
    let (l', changed) = flip_line l in
    if starts_with (codes "+++ ") l then (outside, l ∷ [], false) else (inside, l' ∷ [], changed)
plain_line _ l = (outside, l ∷ [], false)

other_line : Place → Text → Option HunkHeader → Place × List Text × Bool
unfolding plain_line
other_line p l none = plain_line p l
other_line p l (some h) = (inside, inverted_header h ∷ [], false)

-- One line: the next place, the lines written and whether a marker was flipped.
step : Place → Text → Option (Place × List Text × Bool)
unfolding other_line
step (behind_old o) l =
    if starts_with (codes "+++ ") l
    then some (outside, (codes "--- " ++ drop 4 l) ∷ (codes "+++ " ++ drop 4 o) ∷ [], false)
    else none
step p l =
    if starts_with (codes "--- ") l
    then some (behind_old l, [], false)
    else some (other_line p l (parse_hunk l))

extend : List Text → Bool → Option (List Text × Bool) → Option (List Text × Bool)
extend out changed none = none
extend out changed (some (rest, c)) = some (out ++ rest, changed || c)

after :
    (Place → Option (List Text × Bool))
    → Option (Place × List Text × Bool)
    → Option (List Text × Bool)
unfolding extend
after rest none = none
after rest (some (p, out, changed)) = extend out changed (rest p)

at_end : Place → Option (List Text × Bool)
at_end (behind_old o) = none
at_end _ = some ([], false)

pub revert_lines : Place → List Text → Option (List Text × Bool)
unfolding step after at_end
revert_lines p [] = at_end p
revert_lines p (l ∷ ls) = after (λ p'. revert_lines p' ls) (step p l)

if_changed : Option (List Text × Bool) → Option (List Text)
if_changed none = none
if_changed (some (out, changed)) = some (if changed then out else [])

pub generate_revert_patch : List Text → Option (List Text)
unfolding revert_lines if_changed
generate_revert_patch lines = if_changed (revert_lines outside lines)
