-- ===== src/Files/Tools.antt =====
-- The tools that read, write and edit a file: `ExecuteFileReadTool` and `ExecuteFileWriteTool` of
-- src/tool_call/filesystem_tool_executor.cpp and `ExecuteEditTool` of edit_tool_executor.cpp. Their
-- arguments are given as they are read from the JSON text; of the result, the card's fields.
pub mod Runs
use yac.Common.{
  ℕ, zero, suc, ◌+◌, ◌-◌, min, Bool, true, false, ◌&&◌, not, Option, none, some, List, [], ◌∷◌,
  ◌++◌, ltb, ◌==◌, if◌then◌else◌, length, take, drop,
}
use yac.Common.Text.{same}
use yac.Edits.{
  Bytes, EditError, empty_old_string, identical_strings, file_not_found, binary_file, no_match,
}
use yac.Edits
use yac.Edits.Find.{index}
use yac.Edits.Replace.{simple_replacer, replace_all}
use yac.Edits.Windows.{line_trimmed_replacer, whitespace_normalized_replacer}
use yac.Edits.Diff.{DiffTextLine, compute_diff}
use yac.Edits.Diff.Counts.{additions, deletions}
use yac.Files.{Disk, FileError, edit, Outcome, returns, throws, ◌>>=◌, read_file, write_file}
use yac.Files.Paths.{PathLibrary, resolve_path, display_path}
use yac.Files.Text.{count_lines, preview_text}

pub record ReadReport : Type 0 where
  pub filepath : Bytes
  pub lines_loaded : ℕ
  pub content : Bytes

pub record WriteReport : Type 0 where
  pub filepath : Bytes
  pub content_preview : Bytes
  pub content_tail : Bytes
  pub lines_added : ℕ
  pub lines_removed : ℕ

pub record EditReport : Type 0 where
  pub filepath : Bytes
  pub diff : List DiffTextLine
  pub added : ℕ
  pub deleted : ℕ

pub record EditArguments : Type 0 where
  pub filepath : Bytes
  pub old_string : Bytes
  pub new_string : Bytes
  pub everywhere : Bool

abbrev pub exists : Disk → Bytes → Bool
exists disk path = elim (disk.files path) [ none ↦ disk.directories path | some content ↦ true ]

-- text.rfind('\n', end - 1): the last newline before `end`.
unfoldable pub last_newline : Bytes → ℕ → Option ℕ
last_newline text zero = none
last_newline [] (suc end) = none
last_newline (c ∷ text) (suc end) = elim (last_newline text end) [
  | some i ↦ some (suc i)
  | none ↦ if c == 10 then some 0 else none
]

abbrev pub without_return : Bytes → Bytes
without_return [] = []
without_return (c ∷ []) = if c == 13 then [] else c ∷ []
without_return (c ∷ d ∷ line) = c ∷ without_return (d ∷ line)

abbrev pub collect_line : Bytes → List Bytes → List Bytes
collect_line [] collected = collected
collect_line (c ∷ line) collected = (c ∷ line) ∷ collected

-- The loop of `TailLines`; the lines stand in the order of the text, so that none is reversed after
-- it. A round goes back by one byte at least.
unfoldable pub tail_rounds : ℕ → Bytes → ℕ → ℕ → List Bytes → List Bytes
tail_rounds zero text end max_lines collected = collected
tail_rounds (suc f) text end max_lines collected =
    if ltb 0 end && ltb (length collected) max_lines
    then elim (last_newline text end) [
      | none ↦ collect_line (without_return (take end text)) collected
      | some newline ↦ tail_rounds f text newline max_lines (
          collect_line (without_return (take (end - (newline + 1)) (drop (newline + 1) text)))
            collected)
    ]
    else collected

abbrev pub join_lines : List Bytes → Bytes
join_lines [] = []
join_lines (line ∷ []) = line
join_lines (line ∷ next ∷ lines) = line ++ (10 ∷ join_lines (next ∷ lines))

unfoldable pub tail_lines : Bytes → ℕ → Bytes
tail_lines text max_lines = join_lines (tail_rounds (length text) text (length text) max_lines [])

abbrev pub binary_scan_bytes : ℕ
binary_scan_bytes = 8192

-- content.find('\0') < min(content.size(), 8192)
unfoldable pub contains_binary_bytes : Bytes → Bool
contains_binary_bytes content = elim (index content (0 ∷ [])) [
  | none ↦ false
  | some null_position ↦ ltb null_position (min (length content) binary_scan_bytes)
]

-- A replacer's result, or what the next one gives if it found nothing.
abbrev pub or_try : Edits.Result (Option Bytes) → Edits.Result Bytes → Edits.Result Bytes
or_try (Edits.throws e) next = Edits.throws e
or_try (Edits.ok none) next = next
or_try (Edits.ok (some replaced)) next = Edits.ok replaced

unfoldable pub edited_content : Bytes → EditArguments → Edits.Result Bytes
edited_content old_content args =
    if args.everywhere
    then replace_all old_content args.old_string args.new_string
    else or_try (simple_replacer old_content args.old_string args.new_string) (
        or_try (line_trimmed_replacer old_content args.old_string args.new_string) (
          or_try (whitespace_normalized_replacer old_content args.old_string args.new_string)
            (Edits.throws no_match)))

abbrev pub lift : Edits.Result Bytes → Outcome Bytes
lift (Edits.ok content) = returns content
lift (Edits.throws e) = throws (edit e)

abbrev pub require : Bool → EditError → Outcome (Unit {0})
require true e = returns tt
require false e = throws (edit e)

-- A write, and then the report of the tool.
abbrev pub reported {ℓ} : {A : Type ℓ} → Disk × Outcome (Unit {0}) → A → Disk × Outcome A
reported (disk, returns _) report = (disk, returns report)
reported (disk, throws e) report = (disk, throws e)

module _ (fs : PathLibrary) (root : Bytes) where
  unfoldable pub execute_file_read : Disk → Bytes → Outcome ReadReport
  execute_file_read disk filepath = do
    path ← resolve_path fs root filepath
    _ ← require (exists disk path) file_not_found
    content ← read_file disk path
    returns (record {
      filepath = display_path fs root path;
      lines_loaded = count_lines content;
      content = content;
    })

  abbrev pub write_report : Bytes → Bytes → Bytes → WriteReport
  write_report path old_content content = record {
    filepath = display_path fs root path;
    content_preview = preview_text content;
    content_tail = tail_lines content 3;
    lines_added = count_lines content;
    lines_removed = count_lines old_content;
  }

  -- What is read before the write: the path, and the content that is there.
  abbrev pub write_plan : Disk → Bytes → Outcome (Bytes × Bytes)
  write_plan disk filepath = do
    path ← resolve_path fs root filepath
    old_content ← read_file disk path
    returns (path, old_content)

  abbrev pub write_planned : Disk → Bytes → Outcome (Bytes × Bytes) → Disk × Outcome WriteReport
  write_planned disk content (throws e) = (disk, throws e)
  write_planned disk content (returns (path, old_content)) =
      reported (write_file disk path content) (write_report path old_content content)

  unfoldable pub execute_file_write : Disk → Bytes → Bytes → Disk × Outcome WriteReport
  execute_file_write disk filepath content = write_planned disk content (write_plan disk filepath)

  -- What is read and computed before the write: the path, the content that is there, and the new one.
  abbrev pub edit_plan : Disk → EditArguments → Outcome (Bytes × Bytes × Bytes)
  edit_plan disk args = do
    _ ← require (not (same args.old_string [])) empty_old_string
    _ ← require (not (same args.old_string args.new_string)) identical_strings
    path ← resolve_path fs root args.filepath
    _ ← require (exists disk path) file_not_found
    old_content ← read_file disk path
    _ ← require (not (contains_binary_bytes old_content)) binary_file
    new_content ← lift (edited_content old_content args)
    returns (path, old_content, new_content)

  abbrev pub edit_report : Bytes → Bytes → Bytes → EditReport
  edit_report path old_content new_content =
      let diff = compute_diff old_content new_content in
      record {
        filepath = display_path fs root path;
        diff = diff;
        added = additions diff;
        deleted = deletions diff;
      }

  abbrev pub edit_planned : Disk → Outcome (Bytes × Bytes × Bytes) → Disk × Outcome EditReport
  edit_planned disk (throws e) = (disk, throws e)
  edit_planned disk (returns (path, old_content, new_content)) =
      reported (write_file disk path new_content) (edit_report path old_content new_content)

  unfoldable pub execute_edit : Disk → EditArguments → Disk × Outcome EditReport
  execute_edit disk args = edit_planned disk (edit_plan disk args)
