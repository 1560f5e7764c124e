-- ===== src/Edits/Replace.antt =====
-- `SimpleReplacer` and `ReplaceAll` of src/tool_call/edit_replacers.cpp. The rounds of the loop of
-- `SimpleReplacer` are written out: it throws in the second one. The loop of `ReplaceAll` has a
-- round of fuel for every byte of the content, and each round takes at least one byte of it.
pub mod Single
pub mod Pieces
use yac.Common.{
  ℕ, zero, suc, ◌+◌, ◌-◌, ◌≤◌, ◌<◌, ◌≡◌, refl, sym, ap, ◌∙◌, Bool, true, false, Option, none, some,
  List, [], ◌∷◌, ◌++◌, arith, if◌then◌else◌, length, take, drop, Option-cases, inl, inr,
}
use yac.Edits.{Bytes, Result, ok, throws, multiple_matches, old_string_not_found}
use yac.Edits.Find.{
  find, splice, index, shifted, Contains, First, First-of_index, find-suffix, find-start,
  index-none, splice-parts,
}

abbrev pub second_round : Bytes → Bytes → Bytes → ℕ → Option ℕ → Result (Option Bytes)
second_round content old new_string at none = ok (some (splice content at (length old) new_string))
second_round content old new_string at (some again) = throws multiple_matches

abbrev pub first_round : Bytes → Bytes → Bytes → Option ℕ → Result (Option Bytes)
first_round content old new_string none = ok none
first_round content old new_string (some at) =
    second_round content old new_string at (find content old (at + length old))

unfoldable pub simple_replacer : Bytes → Bytes → Bytes → Result (Option Bytes)
simple_replacer content [] new_string = ok none
simple_replacer content (o ∷ old) new_string =
    first_round content (o ∷ old) new_string (find content (o ∷ old) 0)

-- `replaced` from a round of the loop on.
unfoldable pub replace_rounds : ℕ → Bytes → Bytes → Bytes → ℕ → Option ℕ → Bytes
replace_rounds zero content old new_string search_pos found = drop search_pos content
replace_rounds (suc f) content old new_string search_pos none = drop search_pos content
replace_rounds (suc f) content old new_string search_pos (some at) =
    let next = at + length old in
    take (at - search_pos) (drop search_pos content)
    ++ (new_string ++ replace_rounds f content old new_string next (find content old next))

abbrev pub replace_from : Bytes → Bytes → Bytes → Option ℕ → Result Bytes
replace_from content old new_string none = throws old_string_not_found
replace_from content old new_string (some at) =
    ok (replace_rounds (length content) content old new_string 0 (some at))

unfoldable pub replace_all : Bytes → Bytes → Bytes → Result Bytes
replace_all content [] new_string = throws old_string_not_found
replace_all content (o ∷ old) new_string =
    replace_from content (o ∷ old) new_string (find content (o ∷ old) 0)
