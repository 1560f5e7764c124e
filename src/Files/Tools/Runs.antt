-- ===== src/Files/Tools/Runs.antt =====
-- What a run of the edit tool does to the disk, whether it returns or throws.
use yac.Common.{ℕ, ◌+◌, ◌≤◌, ◌<◌, ◌≡◌, false, length, take}
use yac.Edits.{Bytes}
use yac.Edits
use yac.Edits.Lines.{split_lines}
use yac.Edits.Diff.{compute_diff}
use yac.Edits.Diff.Counts.{diff_lines-Balanced}
use yac.Files.{
  Disk, FileError, failed_to_write, Outcome, returns, throws, max_file_bytes, with_file, read_file,
}
use yac.Files.Access.{Parents}
use yac.Files.Paths.{PathLibrary, Inside}
use yac.Files.Text.{count_lines, count_lines-split_lines}
use yac.Files.Tools.{EditArguments, EditReport, edited_content, contains_binary_bytes, edit_report}

module _ (fs : PathLibrary) (root : Bytes) where
  -- What has been settled when the edit tool comes to write.
  pub record Planned (disk : Disk) (args : EditArguments) (plan : Bytes × Bytes × Bytes)
      : Type 0 where
    pub inside : Inside fs root plan.0
    pub old_is : read_file disk plan.0 ≡ returns plan.1
    pub text : contains_binary_bytes plan.1 ≡ false
    pub new_is : edited_content plan.1 args ≡ Edits.ok plan.2

  -- The ways in which a run of the edit tool ends: what is on the disk, and what it returns or throws.
  pub data EditRun (disk : Disk) (args : EditArguments) : Disk × Outcome EditReport → Type 0 where
    unchanged : {e : FileError} → EditRun disk args (disk, throws e)
    not_written :
        {d : Disk} {e : FileError} (plan : Bytes × Bytes × Bytes)
        → Planned disk args plan
        → Parents disk plan.0 d
        → EditRun disk args (d, throws e)
    cut_off :
        {d : Disk} (plan : Bytes × Bytes × Bytes) (n : ℕ)
        → Planned disk args plan
        → Parents disk plan.0 d
        → n < length plan.2
        → EditRun disk args (with_file d plan.0 (take n plan.2), throws failed_to_write)
    edited :
        {d : Disk} (plan : Bytes × Bytes × Bytes)
        → Planned disk args plan
        → Parents disk plan.0 d
        → length plan.2 ≤ max_file_bytes
        → disk.is_symlink plan.0 ≡ false
        → EditRun disk args
            (with_file d plan.0 plan.2, returns (edit_report fs root plan.0 plan.1 plan.2))

-- The lines that the edit tool reports as added, less those as deleted, are the lines that the file
-- has more after the edit than before, however large it is.
pub edit_report-counts :
    (fs : PathLibrary) (root path old_content new_content : Bytes)
    → (edit_report fs root path old_content new_content).added + count_lines old_content
      ≡ (edit_report fs root path old_content new_content).deleted + count_lines new_content
unfolding compute_diff
edit_report-counts fs root path old_content new_content =
    rw (count_lines-split_lines old_content, count_lines-split_lines new_content)
      (diff_lines-Balanced (split_lines old_content) (split_lines new_content))
