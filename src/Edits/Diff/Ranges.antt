-- ===== src/Edits/Diff/Ranges.antt =====
-- The ranges that `ComputeDiff` of src/tool_call/edit_replacers.cpp shows, against the places near a
-- changed index.
use yac.Common.{
  ℕ, ◌+◌, ◌-◌, ◌≤◌, ◌<◌, ◌≡◌, refl, ap, ◌∙◌, inl, inr, Bool-cases, Bool, true, false, ◌&&◌, ◌||◌,
  List, [], ◌∷◌, map, arith, leb, length,
}
use yac.Edits.{Bytes}
use yac.Edits.Diff.{DiffOp, is_context, changed_from, add_range, add_ranges, shown}
use yac.Edits.Diff.Shown.{pick, pick_cong, covered, Apart, shown-pick}
use yac.Edits.Diff.{context_lines, diff_line, show_changes, is_too_large, diff_lines, diff_ops}

-- A place is near a change if at most three places lie between them.
unfoldable pub near : List ℕ → ℕ → Bool
near [] k = false
near (index ∷ indices) k =
    (leb index (k + context_lines) && leb k (index + context_lines)) || near indices k

-- The changes from a place on, in order.
Ascending : ℕ → ℕ → List ℕ → Type 0
Ascending size from [] = Unit {0}
Ascending size from (i ∷ is) = (from ≤ i) × (i < size) × Ascending size (i + 1) is

Ascending-weaken :
    (size : ℕ) {m n : ℕ} (is : List ℕ) → m ≤ n → Ascending size n is → Ascending size m is
unfolding Ascending
Ascending-weaken size [] le h = tt
Ascending-weaken size (i ∷ is) le (a, b, c) = (omega arith, b, c)

changed_from-Ascending :
    (from : ℕ) (ops : List DiffOp) (size : ℕ)
    → from + length ops ≤ size
    → Ascending size from (changed_from from ops)
unfolding changed_from Ascending
changed_from-Ascending from [] size h = tt
changed_from-Ascending from (op ∷ ops) size h =
    let rest = changed_from-Ascending (from + 1) ops size (omega arith) in
    elim (Bool-cases (is_context op.kind)) [
      | inl e ↦ rw (e) (Ascending-weaken size (changed_from (from + 1) ops) (omega arith) rest)
      | inr e ↦ rw (e) (omega arith, omega arith, rest)
    ]

-- The ranges after a round: they lie apart, and the last starts no later than the next one will.
Ready : ℕ → ℕ → List (ℕ × ℕ) → Type 0
Ready size from [] = Unit {0}
Ready size from ((start, end) ∷ rs) =
    (start ≤ from - context_lines) × Apart size ((start, end) ∷ rs)

add_range-Ready :
    (size index : ℕ) (rs : List (ℕ × ℕ))
    → index < size
    → Ready size index rs
    → Ready size (index + 1) (add_range size rs index)
unfolding add_range Ready Apart
add_range-Ready size index [] h r = ground arith
add_range-Ready size index ((start, end) ∷ rs) h r = ground arith

add_range-covered :
    (size index : ℕ) (rs : List (ℕ × ℕ)) (k : ℕ)
    → index < size
    → k < size
    → Ready size index rs
    → covered (add_range size rs index) k
      ≡ ((leb index (k + context_lines) && leb k (index + context_lines)) || covered rs k)
unfolding add_range Ready Apart covered
add_range-covered size index [] k h hk r = ground arith
add_range-covered size index ((start, end) ∷ rs) k h hk r = ground arith

Ready-weaken : (size : ℕ) {m n : ℕ} (rs : List (ℕ × ℕ)) → m ≤ n → Ready size m rs → Ready size n rs
unfolding Ready
Ready-weaken size [] le h = tt
Ready-weaken size ((start, end) ∷ rs) le (a, b) = (omega arith, b)

Apart-of_Ready : (size from : ℕ) (rs : List (ℕ × ℕ)) → Ready size from rs → Apart size rs
unfolding Ready Apart
Apart-of_Ready size from [] h = tt
Apart-of_Ready size from ((start, end) ∷ rs) (a, b) = b

next-Ready :
    (size i : ℕ) {from : ℕ} (rs : List (ℕ × ℕ))
    → from ≤ i
    → i < size
    → Ready size from rs
    → Ready size (i + 1) (add_range size rs i)
next-Ready size i rs lo hi r = add_range-Ready size i rs hi (Ready-weaken size rs lo r)

or_swap : (a b c : Bool) → a || (b || c) ≡ (b || a) || c
or_swap true true c = refl
or_swap true false c = refl
or_swap false true c = refl
or_swap false false c = refl

add_ranges-covered :
    (size from : ℕ) (rs : List (ℕ × ℕ)) (is : List ℕ) (k : ℕ)
    → k < size
    → Ascending size from is
    → Ready size from rs
    → covered (add_ranges size rs is) k ≡ (near is k || covered rs k)
unfolding add_ranges Ascending near
add_ranges-covered size from rs [] k hk a r = refl
add_ranges-covered size from rs (i ∷ is) k hk (lo, hi, a) r =
    add_ranges-covered size (i + 1) (add_range size rs i) is k hk a (next-Ready size i rs lo hi r)
    ∙ ap (λ b. near is k || b) (add_range-covered size i rs k hi hk (Ready-weaken size rs lo r))
    ∙ or_swap (near is k) (leb i (k + context_lines) && leb k (i + context_lines)) (covered rs k)

add_ranges-Apart :
    (size from : ℕ) (rs : List (ℕ × ℕ)) (is : List ℕ)
    → Ascending size from is
    → Ready size from rs
    → Apart size (add_ranges size rs is)
unfolding add_ranges Ascending
add_ranges-Apart size from rs [] a r = Apart-of_Ready size from rs r
add_ranges-Apart size from rs (i ∷ is) (lo, hi, a) r =
    add_ranges-Apart size (i + 1) (add_range size rs i) is a (next-Ready size i rs lo hi r)

-- The operations within three places of a change, or all if there is none.
unfoldable pub near_changes : List DiffOp → List ℕ → List DiffOp
near_changes ops [] = ops
near_changes ops (i ∷ is) = pick (near (i ∷ is)) 0 ops

or_false : (b : Bool) → (b || false) ≡ b
or_false true = refl
or_false false = refl

ranges-near :
    (ops : List DiffOp) (is : List ℕ)
    → Ascending (length ops) 0 is
    → shown ops (add_ranges (length ops) [] is) ≡ pick (near is) 0 ops
unfolding Ready covered
ranges-near ops is a =
    let size = length ops in
    shown-pick ops (add_ranges size [] is) (add_ranges-Apart size 0 [] is a tt) (omega arith)
    ∙ pick_cong (covered (add_ranges size [] is)) (near is) 0 ops
        (λ k lo hi. add_ranges-covered size 0 [] is k (omega arith) a tt ∙ or_false (near is k))

pub show_changes-near :
    (ops : List DiffOp)
    → show_changes ops (changed_from 0 ops) ≡ map diff_line (near_changes ops (changed_from 0 ops))
unfolding near_changes
show_changes-near ops =
    go (changed_from 0 ops) (changed_from-Ascending 0 ops (length ops) (omega arith))
  where
    go :
        (is : List ℕ)
        → Ascending (length ops) 0 is
        → show_changes ops is ≡ map diff_line (near_changes ops is)
    go [] a = refl
    go (i ∷ is) a = ap (map diff_line) (ranges-near ops (i ∷ is) a)

pub diff_lines-near_changes :
    (old_lines new_lines : List Bytes)
    → is_too_large (length old_lines) (length new_lines) ≡ false
    → diff_lines old_lines new_lines
      ≡ map diff_line (
          near_changes
            (diff_ops old_lines new_lines)
            (changed_from 0 (diff_ops old_lines new_lines)))
unfolding diff_lines
diff_lines-near_changes old_lines new_lines small =
    rw (small) (show_changes-near (diff_ops old_lines new_lines))
