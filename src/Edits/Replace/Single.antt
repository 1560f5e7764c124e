-- ===== src/Edits/Replace/Single.antt =====
-- What `SimpleReplacer` returns: a text that stands once is replaced where it stands.
use yac.Common.{
  ℕ, ◌+◌, ◌≡◌, refl, sym, subst, Option, none, some, [], ◌∷◌, ◌++◌, length, Option-cases,
  length-append, append_assoc, inl, inr,
}
use yac.Edits.{Bytes, Result, ok, throws, multiple_matches}
use yac.Edits.Find.{
  find, index, shifted, Contains, First, First-of_index, find-suffix, find-start, index-none,
  splice-parts,
}
use yac.Edits.Replace.{second_round, first_round, simple_replacer}

-- The three ways in which a search for `old` ends. A match that overlaps an earlier one does not
-- count: `after` starts behind the first match.
pub data Search (content old new_string : Bytes) : Result (Option Bytes) → Type 0 where
  empty : old ≡ [] → Search content old new_string (ok none)
  absent : ¬ Contains content old → Search content old new_string (ok none)
  once :
      (before after : Bytes)
      → content ≡ before ++ (old ++ after)
      → ¬ Contains before old
      → ¬ Contains after old
      → Search content old new_string (ok (some (before ++ (new_string ++ after))))
  twice :
      (before after : Bytes)
      → content ≡ before ++ (old ++ after)
      → Contains after old
      → Search content old new_string (throws multiple_matches)

module _ (before after : Bytes) (o : ℕ) (old : Bytes) where
  abbrev text : Bytes
  text = before ++ ((o ∷ old) ++ after)

  -- The second round searches what follows the first match.
  find-after :
      find text (o ∷ old) (length before + length (o ∷ old))
      ≡ shifted (length before + length (o ∷ old)) (index after (o ∷ old))
  find-after =
      let both = before ++ (o ∷ old) in
      let long : length both ≡ length before + length (o ∷ old) = length-append before (o ∷ old) in
      let whole : both ++ after ≡ text = append_assoc before (o ∷ old) after in
      subst (λ k. find text (o ∷ old) k ≡ shifted k (index after (o ∷ old))) long
        (subst (λ t. find t (o ∷ old) (length both) ≡ shifted (length both) (index after (o ∷ old)))
          whole (find-suffix both after (o ∷ old)))

  Search-second :
      (new_string : Bytes)
      → ¬ Contains before (o ∷ old)
      → Search text (o ∷ old) new_string (
          second_round text
            (o ∷ old)
            new_string
            (length before)
            (find text (o ∷ old) (length before + length (o ∷ old))))
  Search-second new_string earliest = elim (Option-cases (index after (o ∷ old))) [
    | inl e ↦
        rw (find-after, e, splice-parts before (o ∷ old) after new_string)
          (once before after refl earliest (index-none after o old e))
    | inr (n, e) ↦
        let p = First-of_index after o old e in
        rw (find-after, e) (twice before after refl (p.before, p.after, p.found))
  ]

Search-First :
    (content : Bytes) (o : ℕ) (old new_string : Bytes) {n : ℕ}
    → First content (o ∷ old) n
    → Search content (o ∷ old) new_string (first_round content (o ∷ old) new_string (some n))
Search-First content o old new_string {n} p =
    subst (λ t. Search t (o ∷ old) new_string (first_round t (o ∷ old) new_string (some n)))
      (sym p.found)
      (rw (sym p.position)
        (Search-second p.before p.after o old new_string (index-none p.before o old p.earliest)))

-- `SimpleReplacer` leaves a text alone in which `old` does not stand, replaces the one match, the
-- rest of the text unchanged, and throws if `old` stands again behind its first match.
pub simple_replacer-Search :
    (content old new_string : Bytes)
    → Search content old new_string (simple_replacer content old new_string)
unfolding simple_replacer
simple_replacer-Search content [] new_string = empty refl
simple_replacer-Search content (o ∷ old) new_string =
    elim (Option-cases (index content (o ∷ old))) [
      | inl e ↦ rw (find-start content (o ∷ old), e) (absent (index-none content o old e))
      | inr (n, e) ↦
          rw (find-start content (o ∷ old), e)
            (Search-First content o old new_string (First-of_index content o old e))
    ]
