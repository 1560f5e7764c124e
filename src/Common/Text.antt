-- ===== src/Common/Text.antt =====
-- Text in two forms: the native `String` for names, ids and messages, which the program only
-- compares and joins, and lists of bytes where it walks the text.
pub mod Decimal
use Prim.Native.Nat.{ℕ, zero, suc, ◌/◌, ◌%◌}
use Prim.Native.Char.{code}
use Prim.Native.String.{String}
use Prim.Native.String
use mathlib.Core.Bool.{Bool, true, false, ◌&&◌}
use mathlib.Core.List.{List, [], ◌∷◌, ◌++◌}
use mathlib.Core.Path.{◌≡◌, refl}
use mathlib.Core.Logic.{◌↔◌}
use native.Mathlib.Omega.{arith}
use yac.Common.Tests.{◌==◌, if◌then◌else◌}

-- The code points of a text: its bytes, if it is ASCII.
abbrev pub codes : String → List ℕ
codes String.[] = []
codes (String.◌∷◌ c s) = code c ∷ codes s

-- `==` of two byte strings.
abbrev pub same : List ℕ → List ℕ → Bool
same [] [] = true
same [] (y ∷ ys) = false
same (x ∷ xs) [] = false
same (x ∷ xs) (y ∷ ys) = x == y && same xs ys

pub same_iff : (xs ys : List ℕ) → (same xs ys ≡ true) ↔ (xs ≡ ys)
same_iff [] [] = (λ _. refl, λ _. refl)
same_iff [] (y ∷ ys) = ground arith
same_iff (x ∷ xs) [] = ground arith
same_iff (x ∷ xs) (y ∷ ys) = ground (arith, same_iff xs ys)

pub same_refl : (xs : List ℕ) → same xs xs ≡ true
same_refl xs = (same_iff xs xs).1 refl

-- A line has no newline.
abbrev pub IsLine : List ℕ → Type 0
IsLine [] = Unit {0}
IsLine (c ∷ cs) = (c == 10 ≡ false) × IsLine cs

pub IsLine-snoc : (xs : List ℕ) (c : ℕ) → IsLine xs → c == 10 ≡ false → IsLine (xs ++ c ∷ [])
IsLine-snoc [] c h e = (e, tt)
IsLine-snoc (x ∷ xs) c (h, hs) e = (h, IsLine-snoc xs c hs e)

digit : ℕ → String
digit d =
    if d == 0
    then "0"
    else if d == 1
    then "1"
    else if d == 2
    then "2"
    else if d == 3
    then "3"
    else if d == 4
    then "4"
    else if d == 5
    then "5"
    else if d == 6
    then "6"
    else if d == 7
    then "7"
    else if d == 8
    then "8"
    else "9"

-- The digits of a number, on fuel; a number has at most as many digits as its value and one.
digits : ℕ → ℕ → String
digits zero n = ""
digits (suc f) n =
    let rest = digits f (n / 10) in String.◌++◌ (if n / 10 == 0 then "" else rest) (digit (n % 10))

-- std::to_string of an unsigned number.
unfoldable pub to_string : ℕ → String
unfolding digit digits
to_string n = digits (suc n) n

to_string_ten : to_string 1024 ≡ "1024"
unfolding to_string
to_string_ten = refl
