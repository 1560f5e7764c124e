-- ===== src/Edits/Diff.antt =====
-- `ComputeDiff` of src/tool_call/edit_replacers.cpp. The loops over the two texts run over what is
-- left of them, next to the indices by which they read the table `dp`; it is filled from its last
-- row and column. The loop over `ranges` has the last range at the head of the list.
pub mod Lcs
pub mod Script
pub mod Minimal
pub mod Shown
pub mod Ranges
pub mod Near
pub mod Counts
use yac.Common.{
  ℕ, zero, suc, ◌+◌, ◌-◌, ◌*◌, ◌/◌, min, max, Bool, true, false, ◌&&◌, not, List, [], ◌∷◌, ◌++◌,
  map, ltb, leb, ◌==◌, if◌then◌else◌, length, get_or, take, drop, replicate,
}
use yac.Common.Text.{same}
use yac.Chat.Block.{DiffLineType, add, remove, context}
use yac.Edits.{Bytes}
use yac.Edits.Lines.{split_lines}

pub data DiffOpType : Type 0 where
  added removed kept : DiffOpType

pub record DiffOp : Type 0 where
  pub kind : DiffOpType
  pub content : Bytes

-- DiffLine, with its text as bytes.
pub record DiffTextLine : Type 0 where
  pub kind : DiffLineType
  pub content : Bytes

abbrev pub context_lines : ℕ
context_lines = 3

abbrev pub max_diff_cells : ℕ
max_diff_cells = 4000000

-- The test for the coarse diff.
abbrev pub is_too_large : ℕ → ℕ → Bool
is_too_large old_size new_size =
    not (old_size == 0) && not (new_size == 0) && ltb (max_diff_cells / new_size) old_size

abbrev pub coarse_diff : List Bytes → List Bytes → List DiffTextLine
coarse_diff old_lines new_lines =
    map (λ l. record { kind = remove; content = l }) old_lines
    ++ map (λ l. record { kind = add; content = l }) new_lines

-- A row of `dp` from a column on, from the same columns of the row below.
unfoldable pub dp_row : Bytes → List Bytes → List ℕ → List ℕ
dp_row x [] below = 0 ∷ []
dp_row x (y ∷ ys) below =
    let right = dp_row x ys (drop 1 below) in
    (if same x y then 1 + get_or below 1 0 else max (get_or below 0 0) (get_or right 0 0)) ∷ right

-- The rows of `dp` from a row on.
unfoldable pub dp_table : List Bytes → List Bytes → List (List ℕ)
dp_table [] new_lines = replicate (length new_lines + 1) 0 ∷ []
dp_table (x ∷ xs) new_lines =
    let below = dp_table xs new_lines in dp_row x new_lines (get_or below 0 []) ∷ below

abbrev pub cell : List (List ℕ) → ℕ → ℕ → ℕ
cell dp i j = get_or (get_or dp i []) j 0

-- The three loops that make `ops`.
unfoldable pub walk : List (List ℕ) → List Bytes → List Bytes → ℕ → ℕ → List DiffOp
walk dp [] new_lines i j = map (λ l. record { kind = added; content = l }) new_lines
walk dp (x ∷ xs) [] i j = map (λ l. record { kind = removed; content = l }) (x ∷ xs)
walk dp (x ∷ xs) (y ∷ ys) i j = elim (same x y) [
  | true ↦ record { kind = kept; content = x } ∷ walk dp xs ys (i + 1) (j + 1)
  | false ↦ elim (leb (cell dp i (j + 1)) (cell dp (i + 1) j)) [
    | true ↦ record { kind = removed; content = x } ∷ walk dp xs (y ∷ ys) (i + 1) j
    | false ↦ record { kind = added; content = y } ∷ walk dp (x ∷ xs) ys i (j + 1)
  ]
]

unfoldable pub diff_ops : List Bytes → List Bytes → List DiffOp
diff_ops old_lines new_lines = walk (dp_table old_lines new_lines) old_lines new_lines 0 0

abbrev pub is_context : DiffOpType → Bool
is_context kept = true
is_context _ = false

-- `changed_indices`, from an index on.
unfoldable pub changed_from : ℕ → List DiffOp → List ℕ
changed_from index [] = []
changed_from index (op ∷ ops) =
    let rest = changed_from (index + 1) ops in if is_context op.kind then rest else index ∷ rest

abbrev pub range_start : ℕ → ℕ
range_start index = if ltb context_lines index then index - context_lines else 0

abbrev pub range_end : ℕ → ℕ → ℕ
range_end size index = min (size - 1) (index + context_lines)

-- A round of the loop that makes `ranges`.
unfoldable pub add_range : ℕ → List (ℕ × ℕ) → ℕ → List (ℕ × ℕ)
add_range size [] index = (range_start index, range_end size index) ∷ []
add_range size ((start, end) ∷ ranges) index =
    if leb (range_start index) (end + 1)
    then (start, max end (range_end size index)) ∷ ranges
    else (range_start index, range_end size index) ∷ (start, end) ∷ ranges

unfoldable pub add_ranges : ℕ → List (ℕ × ℕ) → List ℕ → List (ℕ × ℕ)
add_ranges size ranges [] = ranges
add_ranges size ranges (index ∷ indices) = add_ranges size (add_range size ranges index) indices

abbrev pub line_type : DiffOpType → DiffLineType
line_type added = add
line_type removed = remove
line_type kept = context

abbrev pub diff_line : DiffOp → DiffTextLine
diff_line op = record { kind = line_type op.kind; content = op.content }

-- The operations of the ranges, in the order of the operations.
unfoldable pub shown : List DiffOp → List (ℕ × ℕ) → List DiffOp
shown ops [] = []
shown ops ((start, end) ∷ ranges) = shown ops ranges ++ take (end + 1 - start) (drop start ops)

abbrev pub show_changes : List DiffOp → List ℕ → List DiffTextLine
show_changes ops [] = map diff_line ops
show_changes ops (index ∷ indices) =
    map diff_line (shown ops (add_ranges (length ops) [] (index ∷ indices)))

unfoldable pub diff_lines : List Bytes → List Bytes → List DiffTextLine
diff_lines old_lines new_lines =
    let ops = diff_ops old_lines new_lines in
    if is_too_large (length old_lines) (length new_lines)
    then coarse_diff old_lines new_lines
    else show_changes ops (changed_from 0 ops)

unfoldable pub compute_diff : Bytes → Bytes → List DiffTextLine
compute_diff old_text new_text = diff_lines (split_lines old_text) (split_lines new_text)
