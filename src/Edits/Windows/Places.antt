-- ===== src/Edits/Windows/Places.antt =====
-- Where the windows that `FindLineWindowMatches` of src/tool_call/edit_replacers.cpp finds lie.
use yac.Common.{
  ℕ, suc, ◌+◌, ◌-◌, ◌≡◌, refl, sym, ap, ◌∙◌, inl, inr, Bool, true, false, ◌||◌, List, [], ◌∷◌, ◌++◌,
  append_assoc, arith, ◌==◌, ltb, if◌then◌else◌, length, get_or, length-append,
}
use yac.Edits.{Bytes}
use yac.Edits.Lines.{
  LineInfo, Tiles, done, last, more, split_lines_with_offsets, split_lines, texts,
  split_lines_with_offsets-Tiles, texts-split_lines_with_offsets,
}
use yac.Edits.Windows.{
  MatchRange, window_matches, match_range, windows_from, ends_in_newline, find_line_window_matches,
}
use yac.Edits.Windows.Heads.{AtLineStart, Window, Head, Head-of_matches}

-- A range of the content: what it covers is a window.
pub record Place (normalize : Bytes → Bytes) (content old_string : Bytes) (m : MatchRange)
    : Type 0 where
  pub before : Bytes
  pub middle : Bytes
  pub after : Bytes
  pub split : content ≡ before ++ (middle ++ after)
  pub starts : m.start ≡ length before
  pub ends : m.end ≡ length before + length middle
  pub starts_line : AtLineStart before
  pub window : Window normalize (ends_in_newline old_string) (split_lines old_string) middle after

abbrev pub All : (MatchRange → Type 0) → List MatchRange → Type 0
All P [] = Unit {0}
All P (m ∷ ms) = P m × All P ms

All-found :
    (P : MatchRange → Type 0) (within matched : Bool) (m : MatchRange) (rest : List MatchRange)
    → (matched ≡ true → P m)
    → All P rest
    → All P (if within then if matched then m ∷ rest else rest else [])
All-found P true true m rest h t = (h refl, t)
All-found P true false m rest h t = t
All-found P false matched m rest h t = tt

last_of_window :
    (line : LineInfo) (lines os : List LineInfo)
    → get_or (line ∷ lines) (suc (length os) - 1) line ≡ get_or (line ∷ lines) (length os) line
last_of_window line lines os = ap (λ k. get_or (line ∷ lines) k line) (omega arith)

module _ (normalize : Bytes → Bytes) (content old_string : Bytes) where
  Place-Head :
      {pos end : ℕ} {text : Bytes} (before : Bytes)
      → content ≡ before ++ text
      → pos ≡ length before
      → AtLineStart before
      → Head normalize (ends_in_newline old_string) pos end text (split_lines old_string)
      → Place normalize content old_string (record { start = pos; end = end })
  Place-Head before e at fresh p = record {
    before = before;
    middle = p.middle;
    after = p.after;
    split = e ∙ ap (λ t. before ++ t) p.split;
    starts = at;
    ends = omega (arith, p.ends);
    starts_line = fresh;
    window = p.window;
  }

  Place-match :
      {text : Bytes} {l : LineInfo} {ls : List LineInfo} (o : LineInfo) (os : List LineInfo)
      (before : Bytes)
      → texts (o ∷ os) ≡ split_lines old_string
      → (t : Tiles l.start text (l ∷ ls)) → content ≡ before ++ text
      → l.start ≡ length before
      → AtLineStart before
      → window_matches normalize (l ∷ ls) (o ∷ os) ≡ true
      → Place normalize content old_string
          (match_range l ls (length (o ∷ os)) (ends_in_newline old_string))
  Place-match {l} {ls} o os before old t e at fresh h = rw (last_of_window l ls os) (
      Place-Head before e at fresh
        (rw (sym old) (Head-of_matches normalize (ends_in_newline old_string) o os l t h)))

  abbrev AllPlaces : List LineInfo → List LineInfo → Type 0
  AllPlaces olds ls =
      All (Place normalize content old_string)
        (windows_from normalize olds (ends_in_newline old_string) ls)

  Place-windows :
      {pos : ℕ} {text : Bytes} {ls : List LineInfo} (o : LineInfo) (os : List LineInfo)
      (before : Bytes)
      → texts (o ∷ os) ≡ split_lines old_string
      → (t : Tiles pos text ls) → content ≡ before ++ text
      → pos ≡ length before
      → AtLineStart before
      → AllPlaces (o ∷ os) ls
  unfolding windows_from
  Place-windows o os before old done e at fresh = tt
  Place-windows o os before old (last i j) e at fresh =
      All-found (Place normalize content old_string) _ _ _ _
        (Place-match o os before old (last i j) e at fresh) tt
  Place-windows {pos} o os before old (more {next} {line} {rest} i j n t) e at fresh =
      All-found (Place normalize content old_string) _ _ _ _
        (Place-match o os before old (more i j n t) e at fresh)
        (Place-windows {pos = next} o os (before ++ (line ++ (10 ∷ []))) old t
          (e
            ∙ ap (λ x. before ++ x) (sym (append_assoc line (10 ∷ []) rest))
            ∙ sym (append_assoc before (line ++ (10 ∷ [])) rest))
          (omega (arith, length-append before (line ++ (10 ∷ [])), length-append line (10 ∷ [])))
          (inr (before ++ line, sym (append_assoc before line (10 ∷ [])))))

  All-guarded :
      (olds : List LineInfo) (tiles : Tiles 0 content (split_lines_with_offsets content))
      → texts olds ≡ split_lines old_string
      → (short : Bool)
      → All (Place normalize content old_string) (
          if length olds == 0 || short
          then []
          else windows_from normalize olds
              (ends_in_newline old_string)
              (split_lines_with_offsets content))
  All-guarded [] tiles e short = tt
  All-guarded (o ∷ os) tiles e true = grind arith
  All-guarded (o ∷ os) tiles e false =
      grind (arith, Place-windows o os [] e tiles refl refl (inl refl))

  pub find-Places :
      All
        (Place normalize content old_string)
        (find_line_window_matches normalize content old_string)
  unfolding find_line_window_matches
  find-Places =
      All-guarded (split_lines_with_offsets old_string) (split_lines_with_offsets-Tiles content)
        (texts-split_lines_with_offsets old_string)
        (ltb (length (split_lines_with_offsets content))
          (length (split_lines_with_offsets old_string)))
