-- ===== src/Business/PostMerge/Laws.antt =====
-- The reversal of a patch is the patch with its sides exchanged.
use loom_unified_agentic_cod.Base.{
  ℕ, ◌≡◌, refl, sym, ap, ◌∙◌, Bool, true, false, not, ◌&&◌, ◌||◌, Option, some, List, [], ◌∷◌, ◌++◌,
  append_assoc, arith, if◌then◌else◌, any_of, all_of,
}
use loom_unified_agentic_cod.Base.Text.{Text, codes, starts_with}
use loom_unified_agentic_cod.Business.PostMerge.Hunks.{
  parse_hunk, no-header, or_one, written_header, line_end, inverted_header, all_digits, opt_digits,
  parse-header,
}
use loom_unified_agentic_cod.Business.PostMerge.{
  Place, outside, inside, behind_old, flip_line, plain_line, other_line, step, extend, after,
  at_end, revert_lines, if_changed, generate_revert_patch,
}

pub data Mark : Type 0 where
  context added removed : Mark

abbrev pub opposite : Mark → Mark
opposite context = context
opposite added = removed
opposite removed = added

-- A length is left out, or written; `heading` is the rest of the header's line, with its end.
pub record Hunk : Type 0 where
  pub old_start : Text
  pub old_len : Option Text
  pub new_start : Text
  pub new_len : Option Text
  pub heading : Text
  pub body : List (Mark × Text)

-- The changes to a file: the names behind `--- ` and `+++ `, with the end of the line.
pub record FileDiff : Type 0 where
  pub old_name : Text
  pub new_name : Text
  pub hunks : List Hunk

abbrev pub mark_char : Mark → ℕ
mark_char context = b' '
mark_char added = b'+'
mark_char removed = b'-'

abbrev pub body_lines : List (Mark × Text) → List Text
body_lines [] = []
body_lines ((m, t) ∷ body) = (mark_char m ∷ t) ∷ body_lines body

abbrev pub hunk_lines : List Hunk → List Text
hunk_lines [] = []
hunk_lines (h ∷ hs) =
    written_header h.old_start h.old_len h.new_start h.new_len h.heading
    ∷ (body_lines h.body ++ hunk_lines hs)

-- The lines of a diff.
abbrev pub diff_lines : List FileDiff → List Text
diff_lines [] = []
diff_lines (f ∷ fs) =
    (codes "--- " ++ f.old_name)
    ∷ (codes "+++ " ++ f.new_name)
    ∷ (hunk_lines f.hunks ++ diff_lines fs)

abbrev pub swap_body : List (Mark × Text) → List (Mark × Text)
swap_body [] = []
swap_body ((m, t) ∷ body) = (opposite m, t) ∷ swap_body body

abbrev pub swap_hunks : List Hunk → List Hunk
swap_hunks [] = []
swap_hunks (h ∷ hs) =
    record {
      old_start = h.new_start;
      old_len = some (or_one h.new_len);
      new_start = h.old_start;
      new_len = some (or_one h.old_len);
      heading = line_end;
      body = swap_body h.body;
    }
    ∷ swap_hunks hs

-- The old side and the new side exchanged; a length left out is 1 and is written, and a header ends its
-- line.
abbrev pub swap : List FileDiff → List FileDiff
swap [] = []
swap (f ∷ fs) =
    record { old_name = f.new_name; new_name = f.old_name; hunks = swap_hunks f.hunks } ∷ swap fs

-- No line of the body looks like the header of a file, on either side.
abbrev pub body_ok : List (Mark × Text) → Bool
body_ok [] = true
body_ok ((m, t) ∷ body) =
    not (starts_with (codes "++ ") t) && not (starts_with (codes "-- ") t) && body_ok body

abbrev pub hunks_ok : List Hunk → Bool
hunks_ok [] = true
hunks_ok (h ∷ hs) =
    all_digits h.old_start
    && opt_digits h.old_len
    && all_digits h.new_start
    && opt_digits h.new_len
    && body_ok h.body
    && hunks_ok hs

abbrev pub diff_ok : List FileDiff → Bool
diff_ok fs = all_of (λ (f : FileDiff). hunks_ok f.hunks) fs

abbrev pub is_change : Mark × Text → Bool
is_change (context, t) = false
is_change (m, t) = true

abbrev pub hunks_change : List Hunk → Bool
hunks_change hs = any_of (λ (h : Hunk). any_of is_change h.body) hs

-- The diff adds or removes a line.
abbrev pub has_change : List FileDiff → Bool
has_change fs = any_of (λ (f : FileDiff). hunks_change f.hunks) fs

body-step :
    (m : Mark) (t : Text)
    → starts_with (codes "++ ") t ≡ false
    → starts_with (codes "-- ") t ≡ false
    → step inside (mark_char m ∷ t)
      ≡ some (inside, (mark_char (opposite m) ∷ t) ∷ [], is_change (m, t))
unfolding step other_line plain_line flip_line
body-step context t h k = ap (λ o. some (other_line inside (b' ' ∷ t) o)) (no-header b' ' t refl)
body-step added t h k =
    ap (λ o. some (other_line inside (b'+' ∷ t) o)) (no-header b'+' t refl) ∙ ground (arith, h)
body-step removed t h k =
    ap
      (λ b.
        if b
        then some (behind_old (b'-' ∷ t), [], false)
        else some (other_line inside (b'-' ∷ t) (parse_hunk (b'-' ∷ t))))
      k
    ∙ ap (λ o. some (other_line inside (b'-' ∷ t) o)) (no-header b'-' t refl)

-- The lines are reversed to `out` from outside and from inside a hunk.
abbrev Reverses : List Text → List Text → Bool → Type 0
Reverses lines out changed =
    (revert_lines outside lines ≡ some (out, changed))
    × (revert_lines inside lines ≡ some (out, changed))

or_assoc : (a b c : Bool) → (a || (b || c)) ≡ ((a || b) || c)
or_assoc a b c = ground arith

body-Reverses :
    (body : List (Mark × Text)) (rest out : List Text) (c : Bool)
    → body_ok body ≡ true
    → Reverses rest out c
    → revert_lines inside (body_lines body ++ rest)
      ≡ some (body_lines (swap_body body) ++ out, any_of is_change body || c)
unfolding revert_lines after extend
body-Reverses [] rest out c h r = r.1
body-Reverses ((m, t) ∷ body) rest out c h r =
    let new = mark_char (opposite m) ∷ t in
    let next = λ (p : Place). revert_lines p (body_lines body ++ rest) in
    ap (after next) (body-step m t (ground (arith, h)) (ground (arith, h)))
    ∙ ap (extend (new ∷ []) (is_change (m, t)))
        (body-Reverses body rest out c (ground (arith, h)) r)
    ∙ ap (λ b. some (new ∷ (body_lines (swap_body body) ++ out), b))
        (or_assoc (is_change (m, t)) (any_of is_change body) c)

module _ (h : Hunk) where
  abbrev header : Text
  header = written_header h.old_start h.old_len h.new_start h.new_len h.heading

  header-step :
      (p : Place)
      → hunks_ok (h ∷ []) ≡ true
      → some (other_line p header (parse_hunk header))
        ≡ some (
          inside,
          written_header h.new_start
                (some (or_one h.new_len))
                h.old_start
                (some (or_one h.old_len))
                line_end
              ∷ [],
          false,
        )
  unfolding other_line inverted_header
  header-step p k =
      ap (λ o. some (other_line p header o))
        (parse-header h.old_start h.old_len h.new_start h.new_len h.heading (ground (arith, k))
          (ground (arith, k)) (ground (arith, k)) (ground (arith, k)))

hunks-Reverses :
    (hs : List Hunk) (rest out : List Text) (c : Bool)
    → hunks_ok hs ≡ true
    → Reverses rest out c
    → Reverses (hunk_lines hs ++ rest) (hunk_lines (swap_hunks hs) ++ out) (hunks_change hs || c)
unfolding revert_lines after extend step
hunks-Reverses [] rest out c k r = r
hunks-Reverses (h ∷ hs) rest out c k r =
    let more = hunks-Reverses hs rest out c (ground (arith, k)) r in
    let new =
      written_header h.new_start (some (or_one h.new_len)) h.old_start (some (or_one h.old_len))
        line_end in
    let next = λ (p : Place). revert_lines p (body_lines h.body ++ hunk_lines hs ++ rest) in
    let b =
      ap (revert_lines inside) (append_assoc (body_lines h.body) (hunk_lines hs) rest)
      ∙ body-Reverses h.body (hunk_lines hs ++ rest) (hunk_lines (swap_hunks hs) ++ out)
          (hunks_change hs || c) (ground (arith, k)) more
      ∙ ap (λ x. some (x, any_of is_change h.body || (hunks_change hs || c)))
          (sym (append_assoc (body_lines (swap_body h.body)) (hunk_lines (swap_hunks hs)) out)) in
    let e =
      ap (extend (new ∷ []) false) b
      ∙ ap
          (λ x.
            some
              ((new ∷ ((body_lines (swap_body h.body) ++ hunk_lines (swap_hunks hs)) ++ out), x)))
          (or_assoc (any_of is_change h.body) (hunks_change hs) c) in
    (
      ap (after next) (header-step h outside (ground (arith, k))) ∙ e,
      ap (after next) (header-step h inside (ground (arith, k))) ∙ e,
    )

diff-Reverses :
    (fs : List FileDiff)
    → diff_ok fs ≡ true
    → Reverses (diff_lines fs) (diff_lines (swap fs)) (has_change fs)
unfolding revert_lines after extend step at_end
diff-Reverses [] k = (refl, refl)
diff-Reverses (f ∷ fs) k =
    let r =
      hunks-Reverses f.hunks (diff_lines fs) (diff_lines (swap fs)) (has_change fs)
        (ground (arith, k)) (diff-Reverses fs (ground (arith, k))) in
    let e =
      ap
        (λ x.
          extend [] false
            (extend ((codes "--- " ++ f.new_name) ∷ (codes "+++ " ++ f.old_name) ∷ []) false x))
        r.0 in
    (e, e)

-- A diff is reversed to the diff with its sides exchanged: the names, the ranges and the markers. Where it
-- changes no line the result is empty.
pub revert-swap :
    (fs : List FileDiff)
    → diff_ok fs ≡ true
    → generate_revert_patch (diff_lines fs)
      ≡ some (if has_change fs then diff_lines (swap fs) else [])
unfolding generate_revert_patch if_changed
revert-swap fs k = ap if_changed (diff-Reverses fs k).0
