-- ===== src/Business/PostMerge/Twice.antt =====
-- Reversing the reversal of a patch gives the patch back.
use loom_unified_agentic_cod.Base.{
  ◌≡◌, refl, ap, ◌∙◌, Bool, true, Option, none, some, List, [], ◌∷◌, arith, if◌then◌else◌, any_of,
}
use loom_unified_agentic_cod.Base.Text.{Text}
use loom_unified_agentic_cod.Business.PostMerge.Hunks.{or_one, line_end, opt_digits}
use loom_unified_agentic_cod.Business.PostMerge.{generate_revert_patch}
use loom_unified_agentic_cod.Business.PostMerge.Laws.{
  Mark, context, added, removed, opposite, Hunk, FileDiff, diff_lines, swap_body, swap_hunks, swap,
  body_ok, hunks_ok, diff_ok, is_change, hunks_change, has_change, revert-swap,
}

opposite_twice : (m : Mark) → opposite (opposite m) ≡ m
opposite_twice context = refl
opposite_twice added = refl
opposite_twice removed = refl

body_twice : (b : List (Mark × Text)) → swap_body (swap_body b) ≡ b
body_twice [] = refl
body_twice ((m, t) ∷ b) = cc (opposite_twice m, body_twice b)

-- The lengths written out, and nothing behind a header.
abbrev pub full_hunks : List Hunk → List Hunk
full_hunks [] = []
full_hunks (h ∷ hs) =
    record h {
      old_len = some (or_one h.old_len);
      new_len = some (or_one h.new_len);
      heading = line_end;
    }
    ∷ full_hunks hs

abbrev pub full : List FileDiff → List FileDiff
full [] = []
full (f ∷ fs) = record f { hunks = full_hunks f.hunks } ∷ full fs

abbrev with_body : Hunk → List (Mark × Text) → Hunk
with_body h b = record h {
  old_len = some (or_one h.old_len);
  new_len = some (or_one h.new_len);
  heading = line_end;
  body = b;
}

hunks_twice : (hs : List Hunk) → swap_hunks (swap_hunks hs) ≡ full_hunks hs
hunks_twice [] = refl
hunks_twice (h ∷ hs) = cc (ap (with_body h) (body_twice h.body), hunks_twice hs)

abbrev with_hunks : FileDiff → List Hunk → FileDiff
with_hunks f hs = record f { hunks = hs }

swap_twice : (fs : List FileDiff) → swap (swap fs) ≡ full fs
swap_twice [] = refl
swap_twice (f ∷ fs) = cc (ap (with_hunks f) (hunks_twice f.hunks), swap_twice fs)

one-digits : (len : Option Text) → opt_digits (some (or_one len)) ≡ opt_digits len
one-digits none = refl
one-digits (some len) = refl

body-ok : (b : List (Mark × Text)) → body_ok (swap_body b) ≡ body_ok b
body-ok [] = refl
body-ok ((m, t) ∷ b) = ground (arith, body-ok b)

hunks-ok : (hs : List Hunk) → hunks_ok (swap_hunks hs) ≡ hunks_ok hs
hunks-ok [] = refl
hunks-ok (h ∷ hs) =
    ground (arith, hunks-ok hs, body-ok h.body, one-digits h.old_len, one-digits h.new_len)

swap-ok : (fs : List FileDiff) → diff_ok (swap fs) ≡ diff_ok fs
swap-ok [] = refl
swap-ok (f ∷ fs) = ground (arith, swap-ok fs, hunks-ok f.hunks)

change-opposite : (m : Mark) (t : Text) → is_change (opposite m, t) ≡ is_change (m, t)
change-opposite context t = refl
change-opposite added t = refl
change-opposite removed t = refl

body-change : (b : List (Mark × Text)) → any_of is_change (swap_body b) ≡ any_of is_change b
body-change [] = refl
body-change ((m, t) ∷ b) = ground (arith, body-change b, change-opposite m t)

hunks-change : (hs : List Hunk) → hunks_change (swap_hunks hs) ≡ hunks_change hs
hunks-change [] = refl
hunks-change (h ∷ hs) = ground (arith, hunks-change hs, body-change h.body)

swap-change : (fs : List FileDiff) → has_change (swap fs) ≡ has_change fs
swap-change [] = refl
swap-change (f ∷ fs) = ground (arith, swap-change fs, hunks-change f.hunks)

-- Take a diff of files, each with its two headers and its hunks, whose ranges are numbers, with a length or
-- without, and whose bodies have no line that looks like the header of a file; and let it add or remove a
-- line. It is reversed to the diff with its sides exchanged, and the reversal of that is the diff itself,
-- line for line, but for the headers of its hunks, which then have each length and no heading.
pub revert-twice :
    (fs : List FileDiff)
    → diff_ok fs ≡ true
    → has_change fs ≡ true
    → (generate_revert_patch (diff_lines fs) ≡ some (diff_lines (swap fs)))
      × (generate_revert_patch (diff_lines (swap fs)) ≡ some (diff_lines (full fs)))
revert-twice fs k c =
    let pick = λ (gs : List FileDiff) (b : Bool). some (if b then diff_lines gs else []) in
    (
      revert-swap fs k ∙ ap (pick (swap fs)) c,
      revert-swap (swap fs) (swap-ok fs ∙ k)
          ∙ ap (pick (swap (swap fs))) (swap-change fs ∙ c)
          ∙ ap (λ gs. some (diff_lines gs)) (swap_twice fs),
    )
