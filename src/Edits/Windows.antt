-- ===== src/Edits/Windows.antt =====
-- The searches by whole lines of src/tool_call/edit_replacers.cpp: `FindLineWindowMatches`, which
-- compares lines after a normalization, and the two replacers that use it. `IsWhitespace` is
-- std::isspace of the C locale, and `trim_right` is `TrimRightSv` of src/util/string_util.hpp.
pub mod Heads
pub mod Places
pub mod Edited
use yac.Common.{
  ℕ, ◌+◌, ◌-◌, Bool, true, false, ◌&&◌, ◌||◌, Option, none, some, List, [], ◌∷◌, ◌++◌, ◌==◌, leb,
  ltb, if◌then◌else◌, length, get_or,
}
use yac.Common.Text.{same}
use yac.Edits.{Bytes, Result, ok, throws, multiple_matches}
use yac.Edits.Find.{splice}
use yac.Edits.Lines.{LineInfo, split_lines_with_offsets}

pub record MatchRange : Type 0 where
  pub start : ℕ
  pub end : ℕ

abbrev pub is_whitespace : ℕ → Bool
is_whitespace ch = (leb 9 ch && leb ch 13) || ch == 32

-- `normalized` from a byte of the text on.
unfoldable pub collapse_from : Bool → Bytes → Bytes
collapse_from in_whitespace [] = []
collapse_from in_whitespace (ch ∷ text) = elim (is_whitespace ch) [
  | true ↦ (if in_whitespace then [] else 32 ∷ []) ++ collapse_from true text
  | false ↦ ch ∷ collapse_from false text
]

unfoldable pub collapse_whitespace_runs : Bytes → Bytes
collapse_whitespace_runs text = collapse_from false text

-- A byte stays if it is no space, or if one that is none follows.
unfoldable pub trim_right : Bytes → Bytes
trim_right [] = []
trim_right (ch ∷ text) = elim (trim_right text) [
  | [] ↦ if is_whitespace ch then [] else ch ∷ []
  | c ∷ kept ↦ ch ∷ c ∷ kept
]

-- `matched` after the loop over `old_lines`.
unfoldable pub window_matches : (Bytes → Bytes) → List LineInfo → List LineInfo → Bool
window_matches normalize content_lines [] = true
window_matches normalize [] (old_line ∷ old_lines) = false
window_matches normalize (line ∷ content_lines) (old_line ∷ old_lines) =
    same (normalize line.text) (normalize old_line.text)
    && window_matches normalize content_lines old_lines

-- The range of a window of `count` lines at the head of the lines.
abbrev pub match_range : LineInfo → List LineInfo → ℕ → Bool → MatchRange
match_range first rest count old_has_trailing_newline =
    let last = get_or (first ∷ rest) (count - 1) first in
    record {
      start = first.start;
      end = if old_has_trailing_newline then last.end_with_newline else last.end;
    }

-- The loop, from a line of the content on.
unfoldable pub windows_from :
    (Bytes → Bytes) → List LineInfo → Bool → List LineInfo → List MatchRange
windows_from normalize old_lines trailing [] = []
windows_from normalize old_lines trailing (line ∷ content_lines) =
    let rest = windows_from normalize old_lines trailing content_lines in
    if leb (length old_lines) (length (line ∷ content_lines))
    then if window_matches normalize (line ∷ content_lines) old_lines
      then match_range line content_lines (length old_lines) trailing ∷ rest
      else rest
    else []

abbrev pub ends_in_newline : Bytes → Bool
ends_in_newline [] = false
ends_in_newline (c ∷ []) = c == 10
ends_in_newline (c ∷ d ∷ text) = ends_in_newline (d ∷ text)

unfoldable pub find_line_window_matches : (Bytes → Bytes) → Bytes → Bytes → List MatchRange
find_line_window_matches normalize content old_string =
    let content_lines = split_lines_with_offsets content in
    let old_lines = split_lines_with_offsets old_string in
    if length old_lines == 0 || ltb (length content_lines) (length old_lines)
    then []
    else windows_from normalize old_lines (ends_in_newline old_string) content_lines

unfoldable pub replace_single_match : Bytes → List MatchRange → Bytes → Result (Option Bytes)
replace_single_match content [] new_string = ok none
replace_single_match content (m ∷ []) new_string =
    ok (some (splice content m.start (m.end - m.start) new_string))
replace_single_match content (m ∷ m' ∷ matches) new_string = throws multiple_matches

abbrev pub window_replacer : (Bytes → Bytes) → Bytes → Bytes → Bytes → Result (Option Bytes)
window_replacer normalize content old_string new_string =
    replace_single_match content (find_line_window_matches normalize content old_string) new_string

unfoldable pub line_trimmed_replacer : Bytes → Bytes → Bytes → Result (Option Bytes)
line_trimmed_replacer = window_replacer trim_right

unfoldable pub whitespace_normalized_replacer : Bytes → Bytes → Bytes → Result (Option Bytes)
whitespace_normalized_replacer = window_replacer collapse_whitespace_runs
