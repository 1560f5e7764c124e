-- ===== src/Files.antt =====
-- src/tool_call/workspace_filesystem.cpp: the files of the workspace. Paths and contents are bytes.
-- A disk is what the operating system holds and does: the regular files, the directories, the symbolic
-- links, which files can be opened, and how many bytes a write to one takes in. std::filesystem's functions on paths are
-- the fields of `PathLibrary`. A thrown std::runtime_error is a value of `FileError`.
pub mod Paths
pub mod Access
pub mod Text
pub mod Tools
use yac.Common.{
  ℕ, ◌*◌, Bool, true, false, Option, none, some, List, [], ◌∷◌, ◌++◌, if◌then◌else◌, ltb, leb, ◌==◌,
  length, take,
}
use yac.Common.Text.{same}
use yac.Edits.{Bytes, EditError}

pub data FileError : Type 0 where
  outside_workspace unable_to_resolve unable_to_resolve_root outside_by_symlink : FileError
  read_through_symlink unable_to_size read_limit unable_to_read : FileError
  write_limit write_through_symlink unable_to_create unable_to_open failed_to_write : FileError
  edit : EditError → FileError

-- What a call returns or throws.
pub data Outcome {ℓ} (A : Type ℓ) : Type ℓ where
  returns : A → Outcome A
  throws : FileError → Outcome A

infixl 1 ◌>>=◌
abbrev pub ◌>>=◌ {ℓ κ} : {A : Type ℓ} {B : Type κ} → Outcome A → (A → Outcome B) → Outcome B
returns a >>= f = f a
throws e >>= f = throws e

pub record Disk : Type 0 where
  pub files : Bytes → Option Bytes
  pub directories : Bytes → Bool
  pub is_symlink : Bytes → Bool
  pub can_read : Bytes → Bool
  pub can_write : Bytes → Bool
  pub room : Bytes → ℕ
  -- std::filesystem: parent_path, and what create_directories of a path that is no directory makes of
  -- the directories, with whether it does not throw.
  pub parent_path : Bytes → Bytes
  pub create_directories : Bytes → (Bytes → Bool) → (Bytes → Bool) × Bool

abbrev pub max_file_bytes : ℕ
max_file_bytes = 50 * 1024 * 1024

-- The files after one of them has been given a content.
abbrev pub put : (Bytes → Option Bytes) → Bytes → Bytes → Bytes → Option Bytes
put files path content other = if same other path then some content else files other

abbrev pub with_file : Disk → Bytes → Bytes → Disk
with_file disk path content = record disk { files = put disk.files path content }

-- A failing std::filesystem::exists counts as a missing file; the test of its error code that
-- follows is never reached. A directory has no size.
unfoldable pub readable_file_size : Disk → Bytes → Outcome (Option ℕ)
readable_file_size disk path =
    if disk.is_symlink path then throws read_through_symlink else elim (disk.files path) [
      | none ↦ if disk.directories path then throws unable_to_size else returns none
      | some content ↦
          if ltb max_file_bytes (length content)
          then throws read_limit
          else returns (some (length content))
    ]

-- What a stream that is opened for reading gives.
unfoldable pub stream_of : Disk → Bytes → Outcome Bytes
stream_of disk path =
    if disk.can_read path
    then elim (disk.files path) [ none ↦ throws unable_to_read | some content ↦ returns content ]
    else throws unable_to_read

abbrev pub read_sized : Disk → Bytes → Option ℕ → Outcome Bytes
read_sized disk path none = returns []
read_sized disk path (some size) = stream_of disk path

unfoldable pub read_file : Disk → Bytes → Outcome Bytes
read_file disk path = readable_file_size disk path >>= read_sized disk path

abbrev pub read_prefix_sized : Disk → Bytes → ℕ → Option ℕ → Outcome Bytes
read_prefix_sized disk path max_bytes none = returns []
read_prefix_sized disk path max_bytes (some size) =
    if max_bytes == 0
    then returns []
    else (stream_of disk path >>= λ content.
        returns (take (if ltb size max_bytes then size else max_bytes) content))

unfoldable pub read_file_prefix : Disk → Bytes → ℕ → Outcome Bytes
read_file_prefix disk path max_bytes =
    readable_file_size disk path >>= read_prefix_sized disk path max_bytes

-- create_directories of the parent path, which leaves a directory that is there alone.
unfoldable pub make_parent : Disk → Bytes → Disk × Outcome (Unit {0})
make_parent disk path =
    let parent = disk.parent_path path in
    let (directories, made) = disk.create_directories parent disk.directories in
    if disk.directories parent then (disk, returns tt) else (
      record disk { directories = directories },
      if made then returns tt else throws unable_to_create,
    )

-- The stream, once the parent directory has been made.
unfoldable pub write_stream : Disk × Outcome (Unit {0}) → Bytes → Bytes → Disk × Outcome (Unit {0})
write_stream (disk, throws e) path content = (disk, throws e)
write_stream (disk, returns _) path content =
    if disk.can_write path
    then if leb (length content) (disk.room path)
      then (with_file disk path content, returns tt)
      else (with_file disk path (take (disk.room path) content), throws failed_to_write)
    else (disk, throws unable_to_open)

-- The disk after a write, and whether it threw. A stream that fails has truncated the file and
-- written what there was room for.
unfoldable pub write_file : Disk → Bytes → Bytes → Disk × Outcome (Unit {0})
write_file disk path content =
    if ltb max_file_bytes (length content)
    then (disk, throws write_limit)
    else if disk.is_symlink path
    then (disk, throws write_through_symlink)
    else write_stream (make_parent disk path) path content
