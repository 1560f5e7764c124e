-- ===== src/Tests/Edits.antt =====
-- Runs of the edit tool's searches and of its diff on small texts.
use yac.Common.{◌+◌, false, ℕ, length, map, ◌≤◌, ◌≡◌, refl, List, [], ◌∷◌, some}
use yac.Common.Text.{codes}
use yac.Edits.{Bytes, ok, throws, multiple_matches}
use yac.Edits.Find.{begins_with, index, find, splice}
use yac.Edits.Replace.{simple_replacer, replace_all, replace_rounds}
use yac.Edits.Replace.Single.{Search, simple_replacer-Search}
use yac.Edits.Replace.Pieces.{Replacement, replace_all-Replacement}
use yac.Edits.Lines.{lines_from, split_lines_with_offsets}
use yac.Edits.Windows.{
  trim_right, collapse_from, collapse_whitespace_runs, window_matches, windows_from,
  find_line_window_matches, replace_single_match, line_trimmed_replacer,
  whitespace_normalized_replacer,
}
use yac.Edits.Windows.Edited.{Edited, line_trimmed_replacer-Edited}
use yac.Edits.Diff.{
  DiffOp, added, removed, kept, diff_ops, diff_lines, dp_table, dp_row, walk, changed_from,
  add_ranges, add_range, shown, diff_line, is_too_large,
}
use yac.Edits.Diff.Script.{IsScript, diff_ops-IsScript, changes, old_of, new_of}
use yac.Edits.Diff.Counts.{additions, deletions, diff_lines-changes-le}
use yac.Edits.Diff.Near.{beside_changes, diff_lines-near}

abbrev source : Bytes
source = codes "int a;  \nint b;\n"

replaces_once :
    simple_replacer source (codes "b") (codes "cc") ≡ ok (some (codes "int a;  \nint cc;\n"))
unfolding simple_replacer find index begins_with splice
replaces_once = refl

refuses_two : simple_replacer source (codes "int") [] ≡ throws multiple_matches
unfolding simple_replacer find index begins_with splice
refuses_two = refl

replaces_all : replace_all source (codes "int") (codes "u") ≡ ok (codes "u a;  \nu b;\n")
unfolding replace_all replace_rounds find index begins_with
replaces_all = refl

trims : line_trimmed_replacer source (codes "int a;\n") [] ≡ ok (some (codes "int b;\n"))
unfolding line_trimmed_replacer replace_single_match find_line_window_matches windows_from
    window_matches trim_right split_lines_with_offsets lines_from splice
trims = refl

normalizes :
    whitespace_normalized_replacer source (codes "int   b;") (codes "x")
    ≡ ok (some (codes "int a;  \nx\n"))
unfolding whitespace_normalized_replacer replace_single_match find_line_window_matches windows_from
    window_matches collapse_whitespace_runs collapse_from split_lines_with_offsets lines_from splice
normalizes = refl

simple_replacer-Search_example :
    Search source (codes "b") (codes "cc") (simple_replacer source (codes "b") (codes "cc"))
simple_replacer-Search_example = simple_replacer-Search source (codes "b") (codes "cc")

replace_all-Replacement_example :
    Replacement source (codes "int") (codes "u") (replace_all source (codes "int") (codes "u"))
replace_all-Replacement_example = replace_all-Replacement source (codes "int") (codes "u")

line_trimmed_replacer-Edited_example :
    Edited trim_right source (codes "int a;\n") [] (codes "int b;\n")
line_trimmed_replacer-Edited_example =
    line_trimmed_replacer-Edited source (codes "int a;\n") [] trims

abbrev line : ℕ → Bytes
line n = n ∷ []

abbrev before_edit : List Bytes
before_edit = line 1 ∷ line 2 ∷ line 3 ∷ line 4 ∷ line 5 ∷ line 6 ∷ []

abbrev after_edit : List Bytes
after_edit = line 7 ∷ line 2 ∷ line 3 ∷ line 4 ∷ line 5 ∷ line 6 ∷ []

abbrev script : List DiffOp
script =
    record { kind = removed; content = line 1 }
    ∷ record { kind = added; content = line 2 }
    ∷ record { kind = kept; content = line 3 }
    ∷ []

diff_ops-IsScript_example : IsScript before_edit after_edit (diff_ops before_edit after_edit)
diff_ops-IsScript_example = diff_ops-IsScript before_edit after_edit

script_small : is_too_large (length (old_of script)) (length (new_of script)) ≡ false
unfolding old_of new_of
script_small = refl

diff_lines-changes-le_example :
    additions (diff_lines (old_of script) (new_of script))
      + deletions (diff_lines (old_of script) (new_of script))
    ≤ changes script
diff_lines-changes-le_example = diff_lines-changes-le script script_small

diff_lines-near_example :
    diff_lines before_edit after_edit
    ≡ map diff_line (beside_changes (diff_ops before_edit after_edit))
diff_lines-near_example = diff_lines-near before_edit after_edit refl

-- The last two of the six lines are too far from the change to be shown.
shows_five : length (diff_lines before_edit after_edit) ≡ 5
unfolding diff_lines diff_ops dp_table dp_row walk changed_from add_ranges add_range shown
shows_five = refl
