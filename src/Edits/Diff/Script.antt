-- ===== src/Edits/Diff/Script.antt =====
-- The operations of a diff: they turn the old lines into the new ones.
use yac.Common.{
  ℕ, ◌+◌, ◌≡◌, refl, sym, ap, ◌∙◌, subst, inl, inr, true, false, List, [], ◌∷◌, map, leb,
  Bool-cases,
}
use yac.Common.Text.{same, same_iff}
use yac.Edits.{Bytes}
use yac.Edits.Diff.{DiffOpType, added, removed, kept, DiffOp, dp_table, cell, walk, diff_ops}

-- The lines of the two texts that a script speaks of, and how many it keeps and changes.
unfoldable pub old_of : List DiffOp → List Bytes
old_of [] = []
old_of (op ∷ ops) = elim op.kind [
  | added ↦ old_of ops
  | removed ↦ op.content ∷ old_of ops
  | kept ↦ op.content ∷ old_of ops
]

unfoldable pub new_of : List DiffOp → List Bytes
new_of [] = []
new_of (op ∷ ops) = elim op.kind [
  | added ↦ op.content ∷ new_of ops
  | removed ↦ new_of ops
  | kept ↦ op.content ∷ new_of ops
]

abbrev pub change_of : DiffOpType → ℕ
change_of kept = 0
change_of _ = 1

unfoldable pub changes : List DiffOp → ℕ
changes [] = 0
changes (op ∷ ops) = change_of op.kind + changes ops

old_of-added : (ys : List Bytes) → old_of (map (λ l. record { kind = added; content = l }) ys) ≡ []
unfolding old_of
old_of-added [] = refl
old_of-added (y ∷ ys) = old_of-added ys

new_of-added : (ys : List Bytes) → new_of (map (λ l. record { kind = added; content = l }) ys) ≡ ys
unfolding new_of
new_of-added [] = refl
new_of-added (y ∷ ys) = ap (λ l. y ∷ l) (new_of-added ys)

old_of-removed :
    (xs : List Bytes) → old_of (map (λ l. record { kind = removed; content = l }) xs) ≡ xs
unfolding old_of
old_of-removed [] = refl
old_of-removed (x ∷ xs) = ap (λ l. x ∷ l) (old_of-removed xs)

new_of-removed :
    (xs : List Bytes) → new_of (map (λ l. record { kind = removed; content = l }) xs) ≡ []
unfolding new_of
new_of-removed [] = refl
new_of-removed (x ∷ xs) = new_of-removed xs

-- A script from the one text to the other.
abbrev pub IsScript : List Bytes → List Bytes → List DiffOp → Type 0
IsScript xs ys ops = (old_of ops ≡ xs) × (new_of ops ≡ ys)

module _ (dp : List (List ℕ)) (x : Bytes) (xs : List Bytes) (y : Bytes) (ys : List Bytes)
    (i j : ℕ) where
  pub walk-same :
      same x y ≡ true
      → walk dp (x ∷ xs) (y ∷ ys) i j
        ≡ record { kind = kept; content = x } ∷ walk dp xs ys (i + 1) (j + 1)
  unfolding walk
  walk-same e = rw (e, walk) refl

  pub walk_down :
      same x y ≡ false
      → leb (cell dp i (j + 1)) (cell dp (i + 1) j) ≡ true
      → walk dp (x ∷ xs) (y ∷ ys) i j
        ≡ record { kind = removed; content = x } ∷ walk dp xs (y ∷ ys) (i + 1) j
  unfolding walk
  walk_down e down = rw (e, down, walk) refl

  pub walk_right :
      same x y ≡ false
      → leb (cell dp i (j + 1)) (cell dp (i + 1) j) ≡ false
      → walk dp (x ∷ xs) (y ∷ ys) i j
        ≡ record { kind = added; content = y } ∷ walk dp (x ∷ xs) ys i (j + 1)
  unfolding walk
  walk_right e right = rw (e, right, walk) refl

walk-IsScript :
    (dp : List (List ℕ)) (xs ys : List Bytes) (i j : ℕ) → IsScript xs ys (walk dp xs ys i j)
unfolding walk old_of new_of
walk-IsScript dp [] ys i j = (old_of-added ys, new_of-added ys)
walk-IsScript dp (x ∷ xs) [] i j = (old_of-removed (x ∷ xs), new_of-removed (x ∷ xs))
walk-IsScript dp (x ∷ xs) (y ∷ ys) i j = elim (Bool-cases (same x y)) [
  | inl e ↦
      let (old, fresh) = walk-IsScript dp xs ys (i + 1) (j + 1) in
      subst (IsScript (x ∷ xs) (y ∷ ys)) (sym (walk-same dp x xs y ys i j e))
        (ap (λ l. x ∷ l) old, ap (λ l. x ∷ l) fresh ∙ ap (λ l. l ∷ ys) ((same_iff x y).0 e))
  | inr e ↦ elim (Bool-cases (leb (cell dp i (j + 1)) (cell dp (i + 1) j))) [
    | inl down ↦
        let (old, fresh) = walk-IsScript dp xs (y ∷ ys) (i + 1) j in
        subst (IsScript (x ∷ xs) (y ∷ ys)) (sym (walk_down dp x xs y ys i j e down))
          (ap (λ l. x ∷ l) old, fresh)
    | inr right ↦
        let (old, fresh) = walk-IsScript dp (x ∷ xs) ys i (j + 1) in
        subst (IsScript (x ∷ xs) (y ∷ ys)) (sym (walk_right dp x xs y ys i j e right))
          (old, ap (λ l. y ∷ l) fresh)
  ]
]

-- The operations turn the old lines into the new ones: the lines kept and removed are the old
-- lines, in order, and the lines kept and added are the new ones.
pub diff_ops-IsScript :
    (old_lines new_lines : List Bytes) → IsScript old_lines new_lines (diff_ops old_lines new_lines)
unfolding diff_ops
diff_ops-IsScript old_lines new_lines =
    walk-IsScript (dp_table old_lines new_lines) old_lines new_lines 0 0
