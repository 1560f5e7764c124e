-- ===== src/Edits/Diff/Near.antt =====
-- Which operations a diff shows: those within three places of a change.
use yac.Common.{
  ℕ, ◌+◌, ◌≡◌, refl, sym, ap, ◌∙◌, inl, inr, Bool-cases, Bool, true, false, ◌&&◌, ◌||◌, not,
  if◌then◌else◌, List, [], ◌∷◌, map, arith, leb, length,
}
use yac.Edits.{Bytes}
use yac.Edits.Diff.{DiffOpType, added, removed, kept, DiffOp, is_context, changed_from}
use yac.Edits.Diff.Shown.{pick, pick_cong}
use yac.Edits.Diff.{diff_line, is_too_large, diff_lines, diff_ops}
use yac.Edits.Diff.Ranges.{near, near_changes, diff_lines-near_changes}

-- What is added or removed is a change.
unfoldable pub is_change : DiffOpType → Bool
is_change added = true
is_change removed = true
is_change kept = false

-- One of the operations, the first of which stands at `index`, is a change at most three places from
-- `k`.
unfoldable pub beside_change : ℕ → List DiffOp → ℕ → Bool
beside_change index [] k = false
beside_change index (op ∷ ops) k =
    (is_change op.kind && (leb index (k + 3) && leb k (index + 3)))
    || beside_change (index + 1) ops k

unfoldable pub has_change : List DiffOp → Bool
has_change [] = false
has_change (op ∷ ops) = is_change op.kind || has_change ops

-- The operations at most three places from a change, or all of them if there is none.
unfoldable pub beside_changes : List DiffOp → List DiffOp
beside_changes ops = if has_change ops then pick (beside_change 0 ops) 0 ops else ops

change_context : (k : DiffOpType) → is_context k ≡ not (is_change k)
unfolding is_change
change_context added = refl
change_context removed = refl
change_context kept = refl

near-beside :
    (index : ℕ) (ops : List DiffOp) (k : ℕ)
    → near (changed_from index ops) k ≡ beside_change index ops k
unfolding near changed_from beside_change
near-beside index [] k = refl
near-beside index (op ∷ ops) k =
    let rest = near-beside (index + 1) ops k in
    elim (Bool-cases (is_change op.kind)) [
      | inl e ↦ rw (change_context op.kind, e, near, rest) refl
      | inr e ↦ rw (change_context op.kind, e, near, rest) refl
    ]

changed-has :
    (index : ℕ) (ops : List DiffOp)
    → (has_change ops ≡ false → changed_from index ops ≡ [])
      × (changed_from index ops ≡ [] → has_change ops ≡ false)
unfolding changed_from has_change
changed-has index [] = (λ _. refl, λ _. refl)
changed-has index (op ∷ ops) =
    let rest = changed-has (index + 1) ops in
    elim (Bool-cases (is_change op.kind)) [
      | inl e ↦ rw (change_context op.kind, e) (λ c. ground (arith, c), λ c. ground (arith, c))
      | inr e ↦ rw (change_context op.kind, e) rest
    ]

near-beside_changes :
    (ops : List DiffOp) → near_changes ops (changed_from 0 ops) ≡ beside_changes ops
unfolding beside_changes near_changes
near-beside_changes ops = go (changed_from 0 ops) refl
  where
    go : (is : List ℕ) → is ≡ changed_from 0 ops → near_changes ops is ≡ beside_changes ops
    go [] e = rw ((changed-has 0 ops).1 (sym e)) refl
    go (i ∷ is) e = elim (Bool-cases (has_change ops)) [
      | inl c ↦ rw c (
          pick_cong (near (i ∷ is)) (beside_change 0 ops) 0 ops
            (λ k lo hi. ap (λ l. near l k) e ∙ near-beside 0 ops k))
      | inr c ↦ absurd (ground (arith, e ∙ (changed-has 0 ops).0 c))
    ]

-- Unless the texts are too large, a diff shows the operations that lie at most three places from
-- one that adds or removes a line, each once and in order, and all of them if none does.
pub diff_lines-near :
    (old_lines new_lines : List Bytes)
    → is_too_large (length old_lines) (length new_lines) ≡ false
    → diff_lines old_lines new_lines ≡ map diff_line (beside_changes (diff_ops old_lines new_lines))
diff_lines-near old_lines new_lines small =
    diff_lines-near_changes old_lines new_lines small
    ∙ ap (map diff_line) (near-beside_changes (diff_ops old_lines new_lines))
