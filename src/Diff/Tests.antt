-- ===== src/Diff/Tests.antt =====
-- Comparisons of concrete texts.
use lang_orch.Base.{◌≤◌, [], ◌∷◌, String, ◌≡◌, refl, split_on, item}
use lang_orch.Diff.{compute_line_diff}
use lang_orch.Diff.Laws.{old_lines, new_lines, equal_count, compute_line_diff-lines}
use lang_orch.Diff.Optimal.{
  Script, nothing, delete, insert, keep, kept, compute_line_diff-keeps_most,
}

abbrev before : String
before = "a\nb\nc"

abbrev after : String
after = "b\nc\nd"

compute_line_diff-lines_example :
    (old_lines (compute_line_diff before after) ≡ "a" ∷ "b" ∷ "c" ∷ [])
    × (new_lines (compute_line_diff before after) ≡ "b" ∷ "c" ∷ "d" ∷ [])
unfolding split_on
compute_line_diff-lines_example = compute_line_diff-lines before after

-- The script that keeps `b` and `c`.
abbrev shift : Script (split_on 10 before) (split_on 10 after) 3 3
unfolding split_on item
shift = insert (keep (keep (delete nothing) refl) refl)

compute_line_diff-keeps_most_example :
    kept (split_on 10 before) (split_on 10 after) shift
    ≤ equal_count (compute_line_diff before after)
unfolding split_on
compute_line_diff-keeps_most_example = compute_line_diff-keeps_most before after shift
