-- ===== src/Files/Text.antt =====
-- The functions on file texts of src/tool_call/workspace_filesystem.cpp. The lines and columns of a
-- position are integers in the source; `max(1, _)` of a negative one is 1, as it is of 0 here.
use yac.Common.{
  ℕ, zero, suc, ◌+◌, ◌-◌, ◌≤◌, min, max, ◌≡◌, refl, sym, ap, ◌∙◌, inl, inr, Bool, true, false, ◌&&◌,
  ◌||◌, not, Option, none, some, [], ◌∷◌, ◌++◌, arith, ltb, leb, ◌==◌, if◌then◌else◌, length, take,
  get_or, Bool-cases, Option-cases,
}
use yac.Edits.{Bytes}
use yac.Edits.Lines.{texts_from, last_text, split_lines}
use yac.Edits.Find.{find, find-fits}

abbrev pub max_content_preview_bytes : ℕ
max_content_preview_bytes = 4000

-- std::count of newlines
unfoldable pub newlines : Bytes → ℕ
newlines [] = 0
newlines (c ∷ text) = (if c == 10 then 1 else 0) + newlines text

abbrev pub last_byte : ℕ → Bytes → ℕ
last_byte d [] = d
last_byte d (c ∷ text) = last_byte c text

unfoldable pub count_lines : Bytes → ℕ
count_lines [] = 0
count_lines (c ∷ text) = newlines (c ∷ text) + (if last_byte c text == 10 then 0 else 1)

-- What is read of the last line after a text, if `line` had been read before it.
line_after : Bytes → Bytes → Bytes
line_after line [] = line
line_after line (c ∷ text) = line_after (if c == 10 then [] else line ++ c ∷ []) text

unfoldable pub preview_text : Bytes → Bytes
preview_text text =
    if leb (length text) max_content_preview_bytes
    then text
    else take max_content_preview_bytes text ++ (10 ∷ 46 ∷ 46 ∷ 46 ∷ [])

-- The rounds that go to the start of a line; nothing if there are not that many lines.
unfoldable pub line_offset : Bytes → ℕ → ℕ → Option ℕ
line_offset text zero offset = some offset
line_offset text (suc rounds) offset =
    if ltb offset (length text)
    then elim (find text (10 ∷ []) offset) [
      | none ↦ none
      | some newline ↦ line_offset text rounds (newline + 1)
    ]
    else some offset

-- The bytes of a UTF-8 sequence and its UTF-16 code units, by the first byte.
abbrev pub sequence : ℕ → ℕ × ℕ
sequence lead =
    if leb 0xf0 lead
    then (4, 2)
    else if leb 0xe0 lead
    then (3, 1)
    else if leb 0xc0 lead
    then (2, 1)
    else (1, 1)

-- The walk along a line, a round for each code unit that is left at most.
unfoldable pub walk_units : ℕ → Bytes → ℕ → ℕ → ℕ
walk_units zero text cursor remaining_units = cursor
walk_units (suc f) text cursor remaining_units =
    let lead = get_or text cursor 0 in
    let (byte_len, code_units) = sequence lead in
    let next =
      walk_units f text (cursor + min byte_len (length text - cursor))
        (remaining_units - min code_units remaining_units) in
    if not (ltb 0 remaining_units && ltb cursor (length text)) || lead == 10 then cursor else next

abbrev pub offset_in_line : Bytes → ℕ → Option ℕ → ℕ
offset_in_line text character none = length text
offset_in_line text character (some offset) =
    let remaining_units = max 1 character - 1 in
    min (length text) (walk_units remaining_units text offset remaining_units)

unfoldable pub offset_for_line_character : Bytes → ℕ → ℕ → ℕ
offset_for_line_character text line character =
    offset_in_line text character (line_offset text (max 1 line - 1) 0)

length-last_text : (line : Bytes) (c : ℕ) → length (last_text (line ++ c ∷ [])) ≡ 1
length-last_text [] c = refl
length-last_text (l ∷ line) c = refl

line_after-last_byte :
    (line : Bytes) (c : ℕ) (text : Bytes)
    → length (last_text (line_after line (c ∷ text))) ≡ (if last_byte c text == 10 then 0 else 1)
unfolding line_after
line_after-last_byte line c [] = elim (Bool-cases (c == 10)) [
  | inl e ↦ rw (e) refl
  | inr e ↦ rw (e) (length-last_text line c)
]
line_after-last_byte line c (d ∷ text) =
    line_after-last_byte (if c == 10 then [] else line ++ c ∷ []) d text

texts_from-newlines :
    (line text : Bytes)
    → length (texts_from line text) ≡ newlines text + length (last_text (line_after line text))
unfolding texts_from newlines line_after
texts_from-newlines line [] = omega arith
texts_from-newlines line (c ∷ text) = elim (Bool-cases (c == 10)) [
  | inl e ↦ rw (e, texts_from, newlines, line_after) (omega (arith, texts_from-newlines [] text))
  | inr e ↦
      rw (e, texts_from, newlines, line_after)
        (omega (arith, texts_from-newlines (line ++ c ∷ []) text))
]

-- The number of lines that the tools report for a text is that of the lines into which the diff
-- cuts it.
pub count_lines-split_lines : (text : Bytes) → count_lines text ≡ length (split_lines text)
unfolding count_lines split_lines newlines texts_from
count_lines-split_lines [] = refl
count_lines-split_lines (c ∷ text) = sym (
    texts_from-newlines [] (c ∷ text)
    ∙ ap (λ n. newlines (c ∷ text) + n) (line_after-last_byte [] c text))

abbrev Between : ℕ → ℕ → ℕ → Type 0
Between lo hi n = (lo ≤ n) × (n ≤ hi)

either-Between :
    {lo hi x y : ℕ} (b : Bool)
    → Between lo hi x
    → Between lo hi y
    → Between lo hi (if b then x else y)
either-Between true p q = p
either-Between false p q = q

-- The walk goes on from where it starts, and stays in the text.
walk_units-Between :
    (f : ℕ) (text : Bytes) (cursor remaining : ℕ)
    → cursor ≤ length text
    → Between cursor (length text) (walk_units f text cursor remaining)
unfolding walk_units
walk_units-Between zero text cursor remaining h = omega arith
walk_units-Between (suc f) text cursor remaining h =
    let (byte_len, code_units) = sequence (get_or text cursor 0) in
    let (lo, hi) =
      walk_units-Between f text (cursor + min byte_len (length text - cursor))
        (remaining - min code_units remaining) (omega arith) in
    either-Between (not (ltb 0 remaining && ltb cursor (length text)) || get_or text cursor 0 == 10)
      (omega arith) (omega (arith, lo), hi)

sequence-positive : (lead : ℕ) → (1 ≤ (sequence lead).0) × (1 ≤ (sequence lead).1)
sequence-positive lead = ground arith

-- A round for each code unit is enough: another one changes nothing.
pub walk_units_enough :
    (f : ℕ) (text : Bytes) (cursor remaining : ℕ)
    → remaining ≤ f
    → walk_units (suc f) text cursor remaining ≡ walk_units f text cursor remaining
unfolding walk_units
walk_units_enough zero text cursor remaining h = ground arith
walk_units_enough (suc f) text cursor remaining h =
    let (byte_len, code_units) = sequence (get_or text cursor 0) in
    elim (Bool-cases (ltb 0 remaining)) [
      | inl go ↦
          ap
            (λ next.
              if not (ltb 0 remaining && ltb cursor (length text)) || get_or text cursor 0 == 10
              then cursor
              else next)
            (walk_units_enough f text (cursor + min byte_len (length text - cursor))
              (remaining - min code_units remaining)
              (ground (arith, sequence-positive (get_or text cursor 0))))
      | inr stop ↦ rw (stop) refl
    ]

line_offset-le :
    (text : Bytes) (rounds offset : ℕ) {start : ℕ}
    → offset ≤ length text
    → line_offset text rounds offset ≡ some start
    → start ≤ length text
unfolding line_offset
line_offset-le text zero offset h e = ground (arith, h, e)
line_offset-le text (suc rounds) offset {start} h e = elim (Bool-cases (ltb offset (length text))) [
  | inl go ↦ elim (Option-cases (find text (10 ∷ []) offset)) [
    | inl none_left ↦ absurd (ground (arith, e, go, none_left))
    | inr (newline, found) ↦
        line_offset-le text rounds (newline + 1) (find-fits text 10 [] offset found)
          (ground (arith, e, go, found))
  ]
  | inr stop ↦ let at : offset ≡ start = ground (arith, e, stop) in omega (arith, at)
]

-- The offset of a position lies between the start of its line and the end of the text.
pub offset_for_line_character-Between :
    (text : Bytes) (line character : ℕ) {start : ℕ}
    → line_offset text (max 1 line - 1) 0 ≡ some start
    → Between start (length text) (offset_for_line_character text line character)
unfolding offset_for_line_character
offset_for_line_character-Between text line character {start} e =
    let remaining = max 1 character - 1 in
    let within = line_offset-le text (max 1 line - 1) 0 (omega arith) e in
    rw (e) (omega (arith, walk_units-Between remaining text start remaining within))
