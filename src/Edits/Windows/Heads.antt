-- ===== src/Edits/Windows/Heads.antt =====
-- A window at the head of a text: whole lines that are the old lines once normalized, for
-- `FindLineWindowMatches` of src/tool_call/edit_replacers.cpp.
use yac.Common.{
  ℕ, ◌+◌, ◌≡◌, refl, sym, ap, ◌∙◌, ◌⊎◌, inl, inr, Bool, true, List, [], ◌∷◌, ◌++◌, map,
  append_assoc, append-nil, arith, if◌then◌else◌, length, get_or, length-append, Bool-cases,
}
use yac.Common.Text.{IsLine, same, same_iff}
use yac.Edits.{Bytes}
use yac.Edits.Lines.{LineInfo, Tiles, done, last, more, texts}
use yac.Edits.Replace.Pieces.{join}
use yac.Edits.Windows.{window_matches}

-- Where a range that ends with this line ends.
abbrev pub end_of : Bool → LineInfo → ℕ
end_of trailing line = if trailing then line.end_with_newline else line.end

-- A text that stands at the end of a line: nothing, or something that starts with a newline.
abbrev pub AtLineEnd : Bytes → Type 0
AtLineEnd [] = Unit {0}
AtLineEnd (c ∷ text) = c ≡ 10

-- A text behind which a line starts: nothing, or something that ends with a newline.
abbrev pub AtLineStart : Bytes → Type 0
AtLineStart before = (before ≡ []) ⊎ ((text : Bytes) × (before ≡ text ++ (10 ∷ [])))

abbrev pub AreLines : List Bytes → Type 0
AreLines [] = Unit {0}
AreLines (line ∷ lines) = IsLine line × AreLines lines

module _ (normalize : Bytes → Bytes) (trailing : Bool) where
  -- The window is `middle`, in front of `after`: whole lines, joined by newlines, and the newline at
  -- its end if the old text has one there.
  pub record Window (old_lines : List Bytes) (middle after : Bytes) : Type 0 where
    pub line : Bytes
    pub lines : List Bytes
    pub are_lines : AreLines (line ∷ lines)
    pub alike : map normalize (line ∷ lines) ≡ map normalize old_lines
    pub covers :
        ((middle ≡ join (10 ∷ []) line lines) × AtLineEnd after)
        ⊎ ((trailing ≡ true) × (middle ≡ join (10 ∷ []) line lines ++ (10 ∷ [])))

  -- A window at the head of a text.
  pub record Head (pos end : ℕ) (text : Bytes) (old_lines : List Bytes) : Type 0 where
    pub middle : Bytes
    pub after : Bytes
    pub split : text ≡ middle ++ after
    pub ends : end ≡ pos + length middle
    pub window : Window old_lines middle after

  one_line :
      (line : Bytes) (o : LineInfo)
      → same (normalize line) (normalize o.text) ≡ true
      → normalize line ≡ normalize o.text
  one_line line o h = (same_iff (normalize line) (normalize o.text)).0 h

  Head-one :
      {pos : ℕ} {text : Bytes} {l : LineInfo} {ls : List LineInfo} (o : LineInfo)
      → (t : Tiles pos text (l ∷ ls)) → same (normalize l.text) (normalize o.text) ≡ true
      → Head pos (end_of trailing l) text (o.text ∷ [])
  unfolding join
  Head-one {text} o (last {line} is_line e) h = record {
    middle = line;
    after = [];
    split = sym (append-nil line);
    ends = elim (Bool-cases trailing) [ inl b ↦ rw (b) e | inr b ↦ rw (b) e ];
    window = record {
      line = line;
      lines = [];
      are_lines = (is_line, tt);
      alike = ap (λ l. l ∷ []) (one_line line o h);
      covers = inl (refl, tt);
    };
  }
  Head-one {pos} o (more {next} {line} {rest} is_line e n t) h = elim (Bool-cases trailing) [
    | inl b ↦ record {
      middle = line ++ (10 ∷ []);
      after = rest;
      split = sym (append_assoc line (10 ∷ []) rest);
      ends = rw (b) (omega (arith, length-append line (10 ∷ [])));
      window = record {
        line = line;
        lines = [];
        are_lines = (is_line, tt);
        alike = ap (λ l. l ∷ []) (one_line line o h);
        covers = inr (b, refl);
      };
    }
    | inr b ↦ record {
      middle = line;
      after = 10 ∷ rest;
      split = refl;
      ends = rw (b) e;
      window = record {
        line = line;
        lines = [];
        are_lines = (is_line, tt);
        alike = ap (λ l. l ∷ []) (one_line line o h);
        covers = inl (refl, refl);
      };
    }
  ]

  Head-more :
      {pos next last_end : ℕ} (line : Bytes) {rest : Bytes} (o : LineInfo) (os : List Bytes)
      → IsLine line
      → next ≡ pos + length line + 1
      → same (normalize line) (normalize o.text) ≡ true
      → Head next last_end rest os
      → Head pos last_end (line ++ (10 ∷ rest)) (o.text ∷ os)
  unfolding join
  Head-more line o os is_line e h p = record {
    middle = line ++ (10 ∷ p.middle);
    after = p.after;
    split = ap (λ r. line ++ (10 ∷ r)) p.split ∙ sym (append_assoc line (10 ∷ p.middle) p.after);
    ends = omega (arith, p.ends, length-append line (10 ∷ p.middle));
    window = record {
      line = line;
      lines = p.window.line ∷ p.window.lines;
      are_lines = (is_line, p.window.are_lines);
      alike = rw (one_line line o h) (ap (λ l. normalize o.text ∷ l) p.window.alike);
      covers = elim p.window.covers [
        | inl (c, at_end) ↦ inl (rw (c) refl, at_end)
        | inr (b, c) ↦ inr (
          b,
          rw (c) (
              sym (append_assoc line (10 ∷ join (10 ∷ []) p.window.line p.window.lines) (10 ∷ []))),
        )
      ];
    };
  }

  pub Head-of_matches :
      {pos : ℕ} {text : Bytes} {ls : List LineInfo} (o : LineInfo) (os : List LineInfo)
      (d : LineInfo)
      → (t : Tiles pos text ls) → window_matches normalize ls (o ∷ os) ≡ true
      → Head pos (end_of trailing (get_or ls (length os) d)) text (texts (o ∷ os))
  unfolding window_matches
  Head-of_matches o [] d done h = ground arith
  Head-of_matches o [] d (last i e) h = Head-one o (last i e) (ground arith)
  Head-of_matches o [] d (more i e n t) h = Head-one o (more i e n t) (ground arith)
  Head-of_matches o (o' ∷ os) d done h = ground arith
  Head-of_matches o (o' ∷ os) d (last i e) h = ground arith
  Head-of_matches {pos} o (o' ∷ os) d (more {next} {line} i e n t) h =
      Head-more line o (texts (o' ∷ os)) i (omega arith) (ground arith)
        (Head-of_matches {pos = next} o' os d t (ground arith))
