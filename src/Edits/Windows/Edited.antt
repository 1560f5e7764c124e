-- ===== src/Edits/Windows/Edited.antt =====
-- What `LineTrimmedReplacer` and `WhitespaceNormalizedReplacer` make of a content.
use yac.Common.{◌-◌, ◌≤◌, ◌≡◌, sym, ap, ◌∙◌, some, List, [], ◌∷◌, ◌++◌, arith, length}
use yac.Edits.{Bytes, ok}
use yac.Edits.Find.{splice, splice-parts}
use yac.Edits.Lines.{split_lines}
use yac.Edits.Windows.{
  MatchRange, ends_in_newline, trim_right, collapse_whitespace_runs, find_line_window_matches,
  replace_single_match, line_trimmed_replacer, whitespace_normalized_replacer,
}
use yac.Edits.Windows.Heads.{AtLineStart, Window}
use yac.Edits.Windows.Places.{Place, All, find-Places}

abbrev pub InBounds : Bytes → MatchRange → Type 0
InBounds content m = (m.start ≤ m.end) × (m.end ≤ length content)

-- A content in which one window of whole lines, alike to the old ones, is replaced.
pub record Edited (normalize : Bytes → Bytes) (content old_string new_string result : Bytes)
    : Type 0 where
  pub before : Bytes
  pub middle : Bytes
  pub after : Bytes
  pub split : content ≡ before ++ (middle ++ after)
  pub starts_line : AtLineStart before
  pub window : Window normalize (ends_in_newline old_string) (split_lines old_string) middle after
  pub edited : result ≡ before ++ (new_string ++ after)

module _ (normalize : Bytes → Bytes) (content old_string new_string : Bytes) where
  Place-splice :
      {m : MatchRange}
      → (p : Place normalize content old_string m)
      → splice content m.start (m.end - m.start) new_string ≡ p.before ++ (new_string ++ p.after)
  Place-splice {m} p =
      let count : m.end - m.start ≡ length p.middle = omega (arith, p.starts, p.ends) in
      rw (count, p.starts)
        (ap (λ t. splice t (length p.before) (length p.middle) new_string) p.split
          ∙ splice-parts p.before p.middle p.after new_string)

  Edited-of_Places :
      (ms : List MatchRange) (r : Bytes)
      → All (Place normalize content old_string) ms
      → replace_single_match content ms new_string ≡ ok (some r)
      → Edited normalize content old_string new_string r
  unfolding replace_single_match
  Edited-of_Places [] r h e = ground arith
  Edited-of_Places (m ∷ []) r (p, _) e =
      let same : splice content m.start (m.end - m.start) new_string ≡ r = ground arith in
      record {
        before = p.before;
        middle = p.middle;
        after = p.after;
        split = p.split;
        starts_line = p.starts_line;
        window = p.window;
        edited = sym same ∙ Place-splice p;
      }
  Edited-of_Places (m ∷ m' ∷ ms) r h e = ground arith

-- A result of `LineTrimmedReplacer` is the content with one run of whole lines replaced, which
-- without the space at the ends of the lines are those of the old text; the rest is unchanged.
pub line_trimmed_replacer-Edited :
    (content old_string new_string : Bytes) {r : Bytes}
    → line_trimmed_replacer content old_string new_string ≡ ok (some r)
    → Edited trim_right content old_string new_string r
unfolding line_trimmed_replacer
line_trimmed_replacer-Edited content old_string new_string {r} e =
    Edited-of_Places trim_right content old_string new_string
      (find_line_window_matches trim_right content old_string) r
      (find-Places trim_right content old_string) e

-- A result of `WhitespaceNormalizedReplacer` is the content with one run of whole lines replaced,
-- which are those of the old text up to the amount of space within a line; the rest is unchanged.
pub whitespace_normalized_replacer-Edited :
    (content old_string new_string : Bytes) {r : Bytes}
    → whitespace_normalized_replacer content old_string new_string ≡ ok (some r)
    → Edited collapse_whitespace_runs content old_string new_string r
unfolding whitespace_normalized_replacer
whitespace_normalized_replacer-Edited content old_string new_string {r} e =
    Edited-of_Places collapse_whitespace_runs content old_string new_string
      (find_line_window_matches collapse_whitespace_runs content old_string) r
      (find-Places collapse_whitespace_runs content old_string) e
