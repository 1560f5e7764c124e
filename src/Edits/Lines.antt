-- ===== src/Edits/Lines.antt =====
-- `SplitLinesWithOffsets` and `SplitLines` of src/tool_call/edit_replacers.cpp. The loops carry the
-- current line, which is text.substr(line_start, i - line_start), and what is left of the text.
use yac.Common.{
  ℕ, ◌+◌, ◌≡◌, refl, ap, inl, inr, true, false, List, [], ◌∷◌, ◌++◌, map, append_assoc, append-nil,
  arith, ◌==◌, subst, ltb, if◌then◌else◌, length, length-append, Bool-cases,
}
use yac.Common.Text.{IsLine, IsLine-snoc}
use yac.Edits.{Bytes}

pub record LineInfo : Type 0 where
  pub text : Bytes
  pub start : ℕ
  pub end : ℕ
  pub end_with_newline : ℕ

-- What the code after the loop adds; `i` is the size of the text.
abbrev pub last_line : Bytes → ℕ → ℕ → List LineInfo
last_line line line_start i =
    if ltb line_start i
    then record { text = line; start = line_start; end = i; end_with_newline = i } ∷ []
    else []

unfoldable pub lines_from : Bytes → ℕ → ℕ → Bytes → List LineInfo
lines_from line line_start i [] = last_line line line_start i
lines_from line line_start i (c ∷ rest) = elim (c == 10) [
  | true ↦
      record { text = line; start = line_start; end = i; end_with_newline = i + 1 }
      ∷ lines_from [] (i + 1) (i + 1) rest
  | false ↦ lines_from (line ++ c ∷ []) line_start (i + 1) rest
]

unfoldable pub split_lines_with_offsets : Bytes → List LineInfo
split_lines_with_offsets text = lines_from [] 0 0 text

-- There is a last line if line_start < text.size(), that is if some of it has been read.
abbrev pub last_text : Bytes → List Bytes
last_text [] = []
last_text (c ∷ line) = (c ∷ line) ∷ []

unfoldable pub texts_from : Bytes → Bytes → List Bytes
texts_from line [] = last_text line
texts_from line (c ∷ rest) = elim (c == 10) [
  | true ↦ line ∷ texts_from [] rest
  | false ↦ texts_from (line ++ c ∷ []) rest
]

unfoldable pub split_lines : Bytes → List Bytes
split_lines text = texts_from [] text

-- Lines that lie one behind the other, from a position on, and make up a text.
pub data Tiles : ℕ → Bytes → List LineInfo → Type 0 where
  done : {pos : ℕ} → Tiles pos [] []
  last :
      {pos end : ℕ} {line : Bytes}
      → IsLine line
      → end ≡ pos + length line
      → Tiles pos line (record { text = line; start = pos; end = end; end_with_newline = end } ∷ [])
  more :
      {pos end next : ℕ} {line rest : Bytes} {lines : List LineInfo}
      → IsLine line
      → end ≡ pos + length line
      → next ≡ end + 1
      → Tiles next rest lines
      → Tiles pos
          (line ++ (10 ∷ rest))
          (record { text = line; start = pos; end = end; end_with_newline = next } ∷ lines)

last_line-Tiles :
    (line : Bytes) (pos i : ℕ)
    → IsLine line
    → i ≡ pos + length line
    → Tiles pos line (last_line line pos i)
last_line-Tiles [] pos i h e = let stop : ltb pos i ≡ false = ground arith in rw (stop) done
last_line-Tiles (l ∷ line) pos i h e =
    let go : ltb pos i ≡ true = ground arith in rw (go) (last h e)

lines_from-Tiles :
    (line : Bytes) (pos i : ℕ) (rest : Bytes)
    → IsLine line
    → i ≡ pos + length line
    → Tiles pos (line ++ rest) (lines_from line pos i rest)
unfolding lines_from
lines_from-Tiles line pos i [] h e = rw (append-nil line) (last_line-Tiles line pos i h e)
lines_from-Tiles line pos i (c ∷ rest) h e = elim (Bool-cases (c == 10)) [
  | inl newline ↦
      let nl : c ≡ 10 = ground arith in
      rw (newline, nl, lines_from)
        (more h e refl (lines_from-Tiles [] (i + 1) (i + 1) rest tt (omega arith)))
  | inr go ↦
      let longer : i + 1 ≡ pos + length (line ++ c ∷ []) =
        omega (arith, e, length-append line (c ∷ [])) in
      rw (go, lines_from)
        (subst (λ t. Tiles pos t (lines_from (line ++ c ∷ []) pos (i + 1) rest))
          (append_assoc line (c ∷ []) rest)
          (lines_from-Tiles (line ++ c ∷ []) pos (i + 1) rest (IsLine-snoc line c h go) longer))
]

-- `SplitLinesWithOffsets` cuts a text into its lines: they lie one behind the other, a newline
-- between each two, none inside of one, from the start of the text to its end.
pub split_lines_with_offsets-Tiles : (text : Bytes) → Tiles 0 text (split_lines_with_offsets text)
unfolding split_lines_with_offsets
split_lines_with_offsets-Tiles text = lines_from-Tiles [] 0 0 text tt refl

abbrev pub texts : List LineInfo → List Bytes
texts lines = map (λ l. l.text) lines

texts-last_line :
    (line : Bytes) (pos i : ℕ)
    → i ≡ pos + length line
    → texts (last_line line pos i) ≡ last_text line
texts-last_line [] pos i e = let stop : ltb pos i ≡ false = ground arith in rw (stop) refl
texts-last_line (l ∷ line) pos i e = let go : ltb pos i ≡ true = ground arith in rw (go) refl

texts-lines_from :
    (line : Bytes) (pos i : ℕ) (rest : Bytes)
    → i ≡ pos + length line
    → texts (lines_from line pos i rest) ≡ texts_from line rest
unfolding lines_from texts_from
texts-lines_from line pos i [] e = texts-last_line line pos i e
texts-lines_from line pos i (c ∷ rest) e = elim (Bool-cases (c == 10)) [
  | inl newline ↦
      rw (newline, lines_from, texts_from)
        (ap (λ ls. line ∷ ls) (texts-lines_from [] (i + 1) (i + 1) rest (omega arith)))
  | inr go ↦
      rw (go, lines_from, texts_from)
        (texts-lines_from (line ++ c ∷ []) pos (i + 1) rest
          (omega (arith, e, length-append line (c ∷ []))))
]

-- The two functions that split a text agree on the lines.
pub texts-split_lines_with_offsets :
    (text : Bytes) → texts (split_lines_with_offsets text) ≡ split_lines text
unfolding split_lines_with_offsets split_lines
texts-split_lines_with_offsets text = texts-lines_from [] 0 0 text refl
