-- ===== src/Edits/Replace/Pieces.antt =====
-- What `ReplaceAll` returns: the pieces between the matches, joined by the new text.
use yac.Common.{
  ℕ, zero, suc, ◌+◌, ◌-◌, ◌≤◌, ◌≡◌, refl, sym, ap, ◌∙◌, subst, inl, inr, none, some, List, [], ◌∷◌,
  ◌++◌, append_assoc, arith, length, take, drop, length-append, Option-cases,
}
use yac.Edits.{Bytes, Result, ok, throws, old_string_not_found}
use yac.Edits.Find.{
  find, index, begins_with, Contains, First, First-of_index, find-suffix, find-start, index-none,
  take-append, drop-append,
}
use yac.Edits.Replace.{replace_rounds, replace_all}

-- The pieces with a separator between each two of them.
unfoldable pub join : Bytes → Bytes → List Bytes → Bytes
join separator piece [] = piece
join separator piece (next ∷ pieces) = piece ++ (separator ++ join separator next pieces)

abbrev pub Free : Bytes → List Bytes → Type 0
Free old [] = Unit {0}
Free old (piece ∷ pieces) = (¬ Contains piece old) × Free old pieces

-- `text` and `out` have the same pieces, none of which contains `old`.
pub record Joined (old new_string text out : Bytes) : Type 0 where
  pub piece : Bytes
  pub pieces : List Bytes
  pub free : Free old (piece ∷ pieces)
  pub source : text ≡ join old piece pieces
  pub target : out ≡ join new_string piece pieces

module _ (o : ℕ) (old new_string : Bytes) where
  abbrev sought : Bytes
  sought = o ∷ old

  -- The rounds that are left once `before` is done with and `text` is not.
  abbrev rounds : ℕ → Bytes → Bytes → Bytes
  rounds f before text =
      replace_rounds f (before ++ text) sought new_string (length before)
        (find (before ++ text) sought (length before))

  rounds-last :
      (f : ℕ) (before text : Bytes) → index text sought ≡ none → rounds f before text ≡ text
  unfolding replace_rounds
  rounds-last zero before text h = drop-append before text
  rounds-last (suc f) before text h =
      rw (find-suffix before text sought, h) (drop-append before text)

  rounds-next :
      (f : ℕ) (before piece after : Bytes)
      → index (piece ++ (sought ++ after)) sought ≡ some (length piece)
      → rounds (suc f) before (piece ++ (sought ++ after))
        ≡ piece ++ (new_string ++ rounds f (before ++ (piece ++ sought)) after)
  unfolding replace_rounds
  rounds-next f before piece after h =
      let text = piece ++ (sought ++ after) in
      let done = before ++ (piece ++ sought) in
      let cut : take (length before + length piece - length before)
            (drop (length before) (before ++ text))
          ≡ piece =
        ap (λ k. take k (drop (length before) (before ++ text))) (omega arith)
        ∙ ap (take (length piece)) (drop-append before text)
        ∙ take-append piece (sought ++ after) in
      let next : length before + length piece + length sought ≡ length done =
        omega (arith, length-append before (piece ++ sought), length-append piece sought) in
      let whole : before ++ text ≡ done ++ after =
        ap (λ l. before ++ l) (sym (append_assoc piece sought after))
        ∙ sym (append_assoc before (piece ++ sought) after) in
      rw (find-suffix before text sought, h, cut, next, whole) refl

  last-Joined :
      (f : ℕ) (before text : Bytes)
      → index text sought ≡ none
      → Joined sought new_string text (rounds f before text)
  unfolding join
  last-Joined f before text e = record {
    piece = text;
    pieces = [];
    free = (index-none text o old e, tt);
    source = refl;
    target = rounds-last f before text e;
  }

  next-Joined :
      (f : ℕ) (before text : Bytes) {n : ℕ}
      → index text sought ≡ some n
      → (p : First text sought n)
      → Joined sought new_string p.after (rounds f (before ++ (p.before ++ sought)) p.after)
      → Joined sought new_string text (rounds (suc f) before text)
  unfolding join
  next-Joined f before text e p rest = record {
    piece = p.before;
    pieces = rest.piece ∷ rest.pieces;
    free = (index-none p.before o old p.earliest, rest.free);
    source = p.found ∙ ap (λ l. p.before ++ (sought ++ l)) rest.source;
    target =
        subst
          (λ t.
            rounds (suc f) before t
            ≡ p.before ++ (new_string ++ rounds f (before ++ (p.before ++ sought)) p.after))
          (sym p.found) (rounds-next f before p.before p.after at)
        ∙ ap (λ l. p.before ++ (new_string ++ l)) rest.target;
  }
    where
      at : index (p.before ++ (sought ++ p.after)) sought ≡ some (length p.before)
      at = ap (λ t. index t sought) (sym p.found) ∙ e ∙ ap some (sym p.position)

  -- The rounds replace every match in what is left.
  rounds-Joined :
      (f : ℕ) (before text : Bytes)
      → length text ≤ f
      → Joined sought new_string text (rounds f before text)
  unfolding index begins_with
  rounds-Joined zero before [] small = last-Joined zero before [] refl
  rounds-Joined zero before (c ∷ text) small = absurd (omega arith)
  rounds-Joined (suc f) before text small = elim (Option-cases (index text sought)) [
    | inl e ↦ last-Joined (suc f) before text e
    | inr (n, e) ↦
        let p = First-of_index text o old e in
        let shorter : length p.after ≤ f = omega (
          arith,
          ap length p.found,
          length-append p.before (sought ++ p.after),
          length-append sought p.after,
        ) in
        next-Joined f before text e p
          (rounds-Joined f (before ++ (p.before ++ sought)) p.after shorter)
  ]

-- The ways in which a replacement of all matches ends.
pub data Replacement (content old new_string : Bytes) : Result Bytes → Type 0 where
  no_text : old ≡ [] → Replacement content old new_string (throws old_string_not_found)
  absent : ¬ Contains content old → Replacement content old new_string (throws old_string_not_found)
  replaced :
      {out : Bytes}
      → Contains content old
      → Joined old new_string content out
      → Replacement content old new_string (ok out)

-- `ReplaceAll` throws where the old text is empty or does not stand in the content; else it cuts the
-- content at the old text into pieces that do not contain it, and joins the same pieces by the new one.
pub replace_all-Replacement :
    (content old new_string : Bytes)
    → Replacement content old new_string (replace_all content old new_string)
unfolding replace_all
replace_all-Replacement content [] new_string = no_text refl
replace_all-Replacement content (o ∷ old) new_string =
    let joined = rounds-Joined o old new_string (length content) [] content (omega arith) in
    elim (Option-cases (index content (o ∷ old))) [
      | inl e ↦ rw (find-start content (o ∷ old), e) (absent (index-none content o old e))
      | inr (n, e) ↦
          let p = First-of_index content o old e in
          let found : find content (o ∷ old) 0 ≡ some n = find-start content (o ∷ old) ∙ e in
          rw (found) (
            replaced (p.before, p.after, p.found)
              (subst
                (λ r.
                  Joined (o ∷ old) new_string content
                    (replace_rounds (length content) content (o ∷ old) new_string 0 r))
                found joined))
    ]
