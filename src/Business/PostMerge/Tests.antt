-- ===== src/Business/PostMerge/Tests.antt =====
-- The reversal of a small diff.
use loom_unified_agentic_cod.Base.{◌≡◌, refl, none, some, List, [], ◌∷◌}
use loom_unified_agentic_cod.Base.Text.{codes}
use loom_unified_agentic_cod.Business.PostMerge.Hunks.{parse_hunk}
use loom_unified_agentic_cod.Business.PostMerge.{generate_revert_patch}
use loom_unified_agentic_cod.Business.PostMerge.Laws.{added, removed, FileDiff, diff_lines, swap}
use loom_unified_agentic_cod.Business.PostMerge.Twice.{full, revert-twice}

abbrev diff : List FileDiff
diff =
    record {
      old_name = codes "a/x.py\n";
      new_name = codes "b/x.py\n";
      hunks =
          record {
            old_start = codes "1";
            old_len = none;
            new_start = codes "1";
            new_len = none;
            heading = codes " def f():\n";
            body = (removed, codes "old\n") ∷ (added, codes "new\n") ∷ [];
          }
          ∷ [];
    }
    ∷ []

revert-twice_example :
    (generate_revert_patch (diff_lines diff) ≡ some (diff_lines (swap diff)))
    × (generate_revert_patch (diff_lines (swap diff)) ≡ some (diff_lines (full diff)))
revert-twice_example = revert-twice diff refl refl

-- A removed line that begins with two dashes is taken for the header of a file.
misread :
    generate_revert_patch (
      codes "--- a/q.sql\n"
      ∷ codes "+++ b/q.sql\n"
      ∷ codes "@@ -1,2 +1 @@\n"
      ∷ codes "--- a comment\n"
      ∷ codes " x\n"
      ∷ [])
    ≡ none
unfolding generate_revert_patch parse_hunk
misread = refl
