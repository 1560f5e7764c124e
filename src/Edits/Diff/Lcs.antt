-- ===== src/Edits/Diff/Lcs.antt =====
-- The table `dp` of `ComputeDiff`: it holds the lengths of longest common subsequences.
use yac.Common.{
  ℕ, zero, suc, ◌+◌, ◌≤◌, max, ◌≡◌, refl, List, [], ◌∷◌, arith, if◌then◌else◌, length, get_or, drop,
  replicate,
}
use yac.Common.Text.{same}
use yac.Edits.{Bytes}
use yac.Edits.Diff.{dp_row, dp_table}

-- The length of a longest common subsequence.
unfoldable pub lcs : List Bytes → List Bytes → ℕ
lcs [] ys = 0
lcs (x ∷ xs) [] = 0
lcs (x ∷ xs) (y ∷ ys) = if same x y then 1 + lcs xs ys else max (lcs xs (y ∷ ys)) (lcs (x ∷ xs) ys)

-- A row of the table holds the values of `lcs` at the rest of the new lines.
abbrev pub IsRow : List Bytes → List Bytes → List ℕ → Type 0
IsRow xs ys row = (j : ℕ) → get_or row j 0 ≡ lcs xs (drop j ys)

next-IsRow :
    (xs : List Bytes) (y : Bytes) (ys : List Bytes) (below : List ℕ)
    → IsRow xs (y ∷ ys) below
    → IsRow xs ys (drop 1 below)
next-IsRow xs y ys [] h j = h (suc j)
next-IsRow xs y ys (d ∷ below) h j = h (suc j)

dp_row-IsRow :
    (x : Bytes) (xs ys : List Bytes) (below : List ℕ)
    → IsRow xs ys below
    → IsRow (x ∷ xs) ys (dp_row x ys below)
unfolding dp_row lcs
dp_row-IsRow x xs [] below h zero = refl
dp_row-IsRow x xs [] below h (suc j) = refl
dp_row-IsRow x xs (y ∷ ys) below h zero =
    let right = dp_row-IsRow x xs ys (drop 1 below) (next-IsRow xs y ys below h) 0 in
    rw (h 0, h 1, right) refl
dp_row-IsRow x xs (y ∷ ys) below h (suc j) =
    dp_row-IsRow x xs ys (drop 1 below) (next-IsRow xs y ys below h) j

zeros-IsRow : (n : ℕ) (ys : List Bytes) → IsRow [] ys (replicate n 0)
unfolding lcs
zeros-IsRow zero ys j = refl
zeros-IsRow (suc n) ys zero = refl
zeros-IsRow (suc n) ys (suc j) = zeros-IsRow n ys j

-- The table holds `lcs` of what is left of the two texts, everywhere.
pub dp_table-IsRow :
    (i : ℕ) (xs ys : List Bytes) → IsRow (drop i xs) ys (get_or (dp_table xs ys) i [])
unfolding dp_table lcs
dp_table-IsRow zero [] ys = zeros-IsRow (length ys + 1) ys
dp_table-IsRow (suc i) [] ys = λ j. refl
dp_table-IsRow zero (x ∷ xs) ys = dp_row-IsRow x xs ys _ (dp_table-IsRow 0 xs ys)
dp_table-IsRow (suc i) (x ∷ xs) ys = dp_table-IsRow i xs ys

pub lcs-none : (xs : List Bytes) → lcs xs [] ≡ 0
unfolding lcs
lcs-none [] = refl
lcs-none (x ∷ xs) = refl

-- One more line is worth at most one more match, and costs none.
abbrev pub Grows : List Bytes → List Bytes → Bytes → Bytes → Type 0
Grows xs ys x y =
    (lcs xs ys ≤ lcs (x ∷ xs) ys)
    × (lcs (x ∷ xs) ys ≤ lcs xs ys + 1)
    × (lcs xs ys ≤ lcs xs (y ∷ ys))
    × (lcs xs (y ∷ ys) ≤ lcs xs ys + 1)

pub lcs-Grows : (xs ys : List Bytes) (x y : Bytes) → Grows xs ys x y
unfolding lcs
lcs-Grows [] [] x y = omega arith
lcs-Grows [] (y' ∷ ys) x y = ground (arith, lcs-Grows [] ys x y')
lcs-Grows (x' ∷ xs) [] x y = ground (arith, lcs-Grows xs [] x' y, lcs-none xs)
lcs-Grows (x' ∷ xs) (y' ∷ ys) x y =
    ground (arith, lcs-Grows (x' ∷ xs) ys x y', lcs-Grows xs (y' ∷ ys) x' y)
