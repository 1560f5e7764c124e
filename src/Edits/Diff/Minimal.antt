-- ===== src/Edits/Diff/Minimal.antt =====
-- No script between two texts has fewer changes than the operations of a diff.
use yac.Common.{
  ℕ, ◌+◌, ◌*◌, ◌≤◌, ◌<◌, leb→le, max, ◌≡◌, refl, sym, ap, ◌∙◌, inl, inr, true, false, List, [], ◌∷◌,
  map, arith, leb, length, drop, Bool-cases,
}
use yac.Common.Text.{same, same_refl}
use yac.Edits.{Bytes}
use yac.Edits.Find.{drop-drop}
use yac.Edits.Diff.Lcs.{lcs, dp_table-IsRow, lcs-Grows}
use yac.Edits.Diff.{DiffOpType, added, removed, kept, DiffOp, dp_table, cell, walk, diff_ops}
use yac.Edits.Diff.Script.{old_of, new_of, changes, walk-same, walk_down, walk_right}

-- A script keeps no more lines than a longest common subsequence has.
abbrev Bounded : List DiffOp → Type 0
Bounded ops =
    length (old_of ops) + length (new_of ops) ≤ changes ops + 2 * lcs (old_of ops) (new_of ops)

Bounded-step :
    (k : DiffOpType) (c : Bytes) (ops : List DiffOp)
    → Bounded ops
    → Bounded (record { kind = k; content = c } ∷ ops)
unfolding old_of new_of changes lcs
Bounded-step added c ops h = omega (arith, h, lcs-Grows (old_of ops) (new_of ops) c c)
Bounded-step removed c ops h = omega (arith, h, lcs-Grows (old_of ops) (new_of ops) c c)
Bounded-step kept c ops h = rw (same_refl c) (omega (arith, h))

Bounded-all : (ops : List DiffOp) → Bounded ops
unfolding old_of new_of changes lcs
Bounded-all [] = omega arith
Bounded-all (op ∷ ops) = Bounded-step op.kind op.content ops (Bounded-all ops)

changes-added :
    (ys : List Bytes) → changes (map (λ l. record { kind = added; content = l }) ys) ≡ length ys
unfolding changes
changes-added [] = refl
changes-added (y ∷ ys) = omega (arith, changes-added ys)

changes-removed :
    (xs : List Bytes) → changes (map (λ l. record { kind = removed; content = l }) xs) ≡ length xs
unfolding changes
changes-removed [] = refl
changes-removed (x ∷ xs) = omega (arith, changes-removed xs)

drop-next {ℓ} :
    {A : Type ℓ} (i : ℕ) (x : A) (xs all : List A) → drop i all ≡ x ∷ xs → drop (i + 1) all ≡ xs
drop-next i x xs all e = sym (drop-drop i 1 all) ∙ ap (drop 1) e

lcs-same :
    (x : Bytes) (xs : List Bytes) (y : Bytes) (ys : List Bytes)
    → same x y ≡ true
    → lcs (x ∷ xs) (y ∷ ys) ≡ 1 + lcs xs ys
unfolding lcs
lcs-same x xs y ys e = rw (e, lcs) refl

lcs_differ :
    (x : Bytes) (xs : List Bytes) (y : Bytes) (ys : List Bytes)
    → same x y ≡ false
    → lcs (x ∷ xs) (y ∷ ys) ≡ max (lcs xs (y ∷ ys)) (lcs (x ∷ xs) ys)
unfolding lcs
lcs_differ x xs y ys e = rw (e, lcs) refl

module _ (old_lines new_lines : List Bytes) where
  abbrev dp : List (List ℕ)
  dp = dp_table old_lines new_lines

  abbrev Exact : List Bytes → List Bytes → ℕ → ℕ → Type 0
  Exact xs ys i j = changes (walk dp xs ys i j) + 2 * lcs xs ys ≡ length xs + length ys

  cell-lcs :
      (i j : ℕ) {xs ys : List Bytes}
      → drop i old_lines ≡ xs
      → drop j new_lines ≡ ys
      → cell dp i j ≡ lcs xs ys
  cell-lcs i j hx hy = rw (sym hx, sym hy) (dp_table-IsRow i old_lines new_lines j)

  walk-Exact :
      (xs ys : List Bytes) (i j : ℕ)
      → drop i old_lines ≡ xs
      → drop j new_lines ≡ ys
      → Exact xs ys i j
  unfolding walk changes lcs
  walk-Exact [] ys i j hx hy = omega (arith, changes-added ys)
  walk-Exact (x ∷ xs) [] i j hx hy = omega (arith, changes-removed (x ∷ xs))
  walk-Exact (x ∷ xs) (y ∷ ys) i j hx hy =
      let hx' = drop-next i x xs old_lines hx in
      let hy' = drop-next j y ys new_lines hy in
      let below = cell-lcs (i + 1) j hx' hy in
      let right = cell-lcs i (j + 1) hx hy' in
      elim (Bool-cases (same x y)) [
        | inl e ↦ omega (
          arith,
          ap changes (walk-same dp x xs y ys i j e),
          lcs-same x xs y ys e,
          walk-Exact xs ys (i + 1) (j + 1) hx' hy',
        )
        | inr e ↦ elim (Bool-cases (leb (cell dp i (j + 1)) (cell dp (i + 1) j))) [
          | inl down ↦
              let le = leb→le (cell dp i (j + 1)) (cell dp (i + 1) j) down in
              omega (
                arith,
                below,
                right,
                le,
                lcs_differ x xs y ys e,
                ap changes (walk_down dp x xs y ys i j e down),
                walk-Exact xs (y ∷ ys) (i + 1) j hx' hy,
              )
          | inr up ↦
              let gt : cell dp (i + 1) j < cell dp i (j + 1) = ground arith in
              omega (
                arith,
                below,
                right,
                gt,
                lcs_differ x xs y ys e,
                ap changes (walk_right dp x xs y ys i j e up),
                walk-Exact (x ∷ xs) ys i (j + 1) hx hy',
              )
        ]
      ]

-- No script from the old lines to the new ones adds and removes fewer lines than the operations.
pub diff_ops-changes-le :
    (ops : List DiffOp) → changes (diff_ops (old_of ops) (new_of ops)) ≤ changes ops
unfolding diff_ops
diff_ops-changes-le ops = omega (
  arith,
  walk-Exact (old_of ops) (new_of ops) (old_of ops) (new_of ops) 0 0 refl refl,
  Bounded-all ops,
)
