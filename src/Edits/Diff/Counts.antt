-- ===== src/Edits/Diff/Counts.antt =====
-- The numbers of lines that a diff adds and removes, as src/tool_call/edit_tool_executor.cpp
-- counts them for the result of the edit tool.
use yac.Common.{
  ℕ, ◌+◌, ◌≤◌, ◌≡◌, refl, subst, inl, inr, Bool, true, false, List, [], ◌∷◌, map, arith,
  if◌then◌else◌, length, Bool-cases,
}
use yac.Edits.{Bytes}
use yac.Chat.Block.{DiffLineType, add, remove}
use yac.Edits.Diff.{
  DiffOpType, added, removed, kept, DiffOp, DiffTextLine, is_context, changed_from, coarse_diff,
  diff_line, diff_ops, diff_lines, is_too_large,
}
use yac.Edits.Diff.Script.{old_of, new_of, changes, diff_ops-IsScript}
use yac.Edits.Diff.Minimal.{diff_ops-changes-le}
use yac.Edits.Diff.Shown.{pick}
use yac.Edits.Diff.Ranges.{near, near_changes, diff_lines-near_changes}

abbrev pub adds_one : DiffLineType → ℕ
adds_one add = 1
adds_one _ = 0

abbrev pub removes_one : DiffLineType → ℕ
removes_one remove = 1
removes_one _ = 0

-- `additions` and `deletions` after the loop over the diff.
unfoldable pub additions : List DiffTextLine → ℕ
additions [] = 0
additions (line ∷ lines) = adds_one line.kind + additions lines

unfoldable pub deletions : List DiffTextLine → ℕ
deletions [] = 0
deletions (line ∷ lines) = removes_one line.kind + deletions lines

-- The difference of the two numbers is that of the numbers of lines.
Balanced : List DiffTextLine → ℕ → ℕ → Type 0
Balanced lines old_size new_size = additions lines + old_size ≡ deletions lines + new_size

script-step :
    (k : DiffOpType) (c : Bytes) (ops : List DiffOp)
    → Balanced (map diff_line ops) (length (old_of ops)) (length (new_of ops))
    → Balanced
        (map diff_line (record { kind = k; content = c } ∷ ops))
        (length (old_of (record { kind = k; content = c } ∷ ops)))
        (length (new_of (record { kind = k; content = c } ∷ ops)))
unfolding Balanced additions deletions old_of new_of
script-step added c ops h = omega arith
script-step removed c ops h = omega arith
script-step kept c ops h = omega arith

script-Balanced :
    (ops : List DiffOp) → Balanced (map diff_line ops) (length (old_of ops)) (length (new_of ops))
unfolding Balanced additions deletions old_of new_of
script-Balanced [] = refl
script-Balanced (op ∷ ops) = script-step op.kind op.content ops (script-Balanced ops)

-- A test that picks all changes.
AllPicked : (ℕ → Bool) → List ℕ → Type 0
AllPicked p [] = Unit {0}
AllPicked p (i ∷ is) = (p i ≡ true) × AllPicked p is

AllPicked-weaken :
    (p q : ℕ → Bool) (is : List ℕ)
    → ((k : ℕ) → p k ≡ true → q k ≡ true)
    → AllPicked p is
    → AllPicked q is
unfolding AllPicked
AllPicked-weaken p q [] f h = tt
AllPicked-weaken p q (i ∷ is) f (a, h) = (f i a, AllPicked-weaken p q is f h)

near-AllPicked : (is : List ℕ) → AllPicked (near is) is
unfolding AllPicked near
near-AllPicked [] = tt
near-AllPicked (i ∷ is) = (
  ground arith,
  AllPicked-weaken (near is) (near (i ∷ is)) is (λ k e. ground (arith, e)) (near-AllPicked is),
)

-- What is not picked is context, which counts as neither.
SameCounts : List DiffOp → List DiffOp → Type 0
SameCounts xs ys =
    (additions (map diff_line xs) ≡ additions (map diff_line ys))
    × (deletions (map diff_line xs) ≡ deletions (map diff_line ys))

SameCounts-step :
    (k : DiffOpType) (c : Bytes) (b : Bool) (xs ys : List DiffOp)
    → (is_context k ≡ false → b ≡ true)
    → SameCounts xs ys
    → SameCounts
        (if b then record { kind = k; content = c } ∷ xs else xs)
        (record { kind = k; content = c } ∷ ys)
unfolding SameCounts additions deletions
SameCounts-step k c true xs ys h (a, d) = (omega (arith, a), omega (arith, d))
SameCounts-step added c false xs ys h (a, d) = absurd (ground (arith, h refl))
SameCounts-step removed c false xs ys h (a, d) = absurd (ground (arith, h refl))
SameCounts-step kept c false xs ys h (a, d) = (omega arith, omega arith)

picked-head :
    (p : ℕ → Bool) (k : ℕ) (c : Bool) (rest : List ℕ)
    → AllPicked p (if c then rest else k ∷ rest)
    → (c ≡ false → p k ≡ true) × AllPicked p rest
unfolding AllPicked
picked-head p k true rest h = (λ e. ground (arith, e), h)
picked-head p k false rest (a, h) = (λ e. a, h)

pick-SameCounts :
    (p : ℕ → Bool) (k : ℕ) (ops : List DiffOp)
    → AllPicked p (changed_from k ops)
    → SameCounts (pick p k ops) ops
unfolding changed_from pick SameCounts
pick-SameCounts p k [] h = (refl, refl)
pick-SameCounts p k (op ∷ ops) h =
    let (head, tail) = picked-head p k (is_context op.kind) (changed_from (k + 1) ops) h in
    SameCounts-step op.kind op.content (p k) (pick p (k + 1) ops) ops head
      (pick-SameCounts p (k + 1) ops tail)

near_changes-SameCounts :
    (ops : List DiffOp) → SameCounts (near_changes ops (changed_from 0 ops)) ops
unfolding near_changes SameCounts
near_changes-SameCounts ops = go (changed_from 0 ops) refl
  where
    go : (is : List ℕ) → is ≡ changed_from 0 ops → SameCounts (near_changes ops is) ops
    go [] e = (refl, refl)
    go (i ∷ is) e =
        pick-SameCounts (near (i ∷ is)) 0 ops
          (subst (AllPicked (near (i ∷ is))) e (near-AllPicked (i ∷ is)))

coarse-Balanced : (xs ys : List Bytes) → Balanced (coarse_diff xs ys) (length xs) (length ys)
unfolding Balanced additions deletions
coarse-Balanced [] [] = refl
coarse-Balanced [] (y ∷ ys) = omega (arith, coarse-Balanced [] ys)
coarse-Balanced (x ∷ xs) ys = omega (arith, coarse-Balanced xs ys)

diff_lines-coarse :
    (old_lines new_lines : List Bytes)
    → is_too_large (length old_lines) (length new_lines) ≡ true
    → diff_lines old_lines new_lines ≡ coarse_diff old_lines new_lines
unfolding diff_lines
diff_lines-coarse old_lines new_lines e = rw (e) refl

shown-Balanced :
    (ops : List DiffOp)
    → Balanced
        (map diff_line (near_changes ops (changed_from 0 ops)))
        (length (old_of ops))
        (length (new_of ops))
unfolding Balanced SameCounts
shown-Balanced ops = let (a, d) = near_changes-SameCounts ops in rw (a, d) (script-Balanced ops)

-- The lines that a diff adds, less those that it removes, are those that the new text has more than
-- the old one: no change is lost between the ranges, and the coarse diff counts alike.
pub diff_lines-Balanced :
    (old_lines new_lines : List Bytes)
    → additions (diff_lines old_lines new_lines) + length old_lines
      ≡ deletions (diff_lines old_lines new_lines) + length new_lines
unfolding Balanced
diff_lines-Balanced old_lines new_lines =
    elim (Bool-cases (is_too_large (length old_lines) (length new_lines))) [
      | inl e ↦ rw (diff_lines-coarse old_lines new_lines e) (coarse-Balanced old_lines new_lines)
      | inr e ↦
          let ops = diff_ops old_lines new_lines in
          let (old, fresh) = diff_ops-IsScript old_lines new_lines in
          rw (diff_lines-near_changes old_lines new_lines e) (
            subst
              (λ l.
                Balanced (map diff_line (near_changes ops (changed_from 0 ops))) (length l)
                  (length new_lines))
              old
              (subst
                (λ l.
                  Balanced (map diff_line (near_changes ops (changed_from 0 ops)))
                    (length (old_of ops)) (length l))
                fresh (shown-Balanced ops)))
    ]

counts-step :
    (k : DiffOpType) (c : Bytes) (ops : List DiffOp)
    → additions (map diff_line ops) + deletions (map diff_line ops) ≡ changes ops
    → additions (map diff_line (record { kind = k; content = c } ∷ ops))
        + deletions (map diff_line (record { kind = k; content = c } ∷ ops))
      ≡ changes (record { kind = k; content = c } ∷ ops)
unfolding additions deletions changes
counts-step added c ops h = omega (arith, h)
counts-step removed c ops h = omega (arith, h)
counts-step kept c ops h = omega (arith, h)

counts-changes :
    (ops : List DiffOp)
    → additions (map diff_line ops) + deletions (map diff_line ops) ≡ changes ops
unfolding additions deletions changes
counts-changes [] = refl
counts-changes (op ∷ ops) = counts-step op.kind op.content ops (counts-changes ops)

-- Unless the texts are too large, the lines that a diff shows as added or removed are no more than
-- any script that makes the new lines of the old ones adds and removes.
pub diff_lines-changes-le :
    (ops : List DiffOp)
    → is_too_large (length (old_of ops)) (length (new_of ops)) ≡ false
    → additions (diff_lines (old_of ops) (new_of ops))
        + deletions (diff_lines (old_of ops) (new_of ops))
      ≤ changes ops
unfolding SameCounts
diff_lines-changes-le ops small =
    let found = diff_ops (old_of ops) (new_of ops) in
    let (a, d) = near_changes-SameCounts found in
    rw (diff_lines-near_changes (old_of ops) (new_of ops) small)
      (omega (arith, a, d, counts-changes found, diff_ops-changes-le ops))
