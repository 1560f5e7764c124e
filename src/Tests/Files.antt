-- ===== src/Tests/Files.antt =====
-- An edit of a file on a small disk, whose paths are taken as they are.
use yac.Common.{◌≡◌, ◌+◌, refl, true, false, none, some, [], ◌∷◌, ◌++◌, if◌then◌else◌}
use yac.Common.Text.{codes, same}
use yac.Edits.{Bytes}
use yac.Files.{
  Disk, returns, throws, read_file, write_file, make_parent, write_stream, outside_workspace,
}
use yac.Files.Access.{read_file-write_file}
use yac.Files.Paths.{PathLibrary, resolve_path, lies_under, Inside, resolve_path-Inside}
use yac.Files.Text.{count_lines, offset_for_line_character, line_offset, walk_units}
use yac.Files.Tools.{EditArguments, edit_report}
use yac.Files.Tools.Runs.{edit_report-counts}
use yac.Edits.Find.{begins_with, find, index}

abbrev plain_paths : PathLibrary
plain_paths = record {
  normal = λ path. path;
  is_relative = λ path. false;
  append = λ root path. root ++ (47 ∷ path);
  canonical = λ path. some path;
  relative = λ path root. none;
}

abbrev root : Bytes
root = codes "/w"

abbrev file : Bytes
file = codes "/w/a.c"

abbrev content : Bytes
content = codes "int a;\nint b;\n"

abbrev disk : Disk
disk = record {
  files = λ path. if same path file then some content else none;
  directories = λ path. same path root;
  is_symlink = λ path. false;
  can_read = λ path. true;
  can_write = λ path. true;
  room = λ path. 1000;
  parent_path = λ path. root;
  create_directories = λ path directories. (directories, false);
}

abbrev arguments : EditArguments
arguments = record {
  filepath = file;
  old_string = codes "b";
  new_string = codes "c\nint d";
  everywhere = false;
}

resolves : resolve_path plain_paths root file ≡ returns file
unfolding resolve_path lies_under begins_with
resolves = refl

refuses : resolve_path plain_paths root (codes "/etc/passwd") ≡ throws outside_workspace
unfolding resolve_path lies_under begins_with
refuses = refl

resolve_path-Inside_example : Inside plain_paths root file
resolve_path-Inside_example = resolve_path-Inside plain_paths root file resolves

edit_report-counts_example :
    (edit_report plain_paths root file content (codes "int c;\n")).added + count_lines content
    ≡ (edit_report plain_paths root file content (codes "int c;\n")).deleted
      + count_lines (codes "int c;\n")
edit_report-counts_example = edit_report-counts plain_paths root file content (codes "int c;\n")

writes : (write_file disk file (codes "x")).1 ≡ returns tt
unfolding write_file make_parent write_stream
writes = refl

read_file-write_file_example :
    read_file (write_file disk file (codes "x")).0 file ≡ returns (codes "x")
read_file-write_file_example = read_file-write_file disk file (codes "x") writes refl

-- The second line starts behind the first newline; a four-byte sequence is two columns.
second_line : offset_for_line_character content 2 5 ≡ 11
unfolding offset_for_line_character line_offset walk_units find index begins_with
second_line = refl

two_units : offset_for_line_character (240 ∷ 159 ∷ 152 ∷ 128 ∷ 97 ∷ []) 1 3 ≡ 4
unfolding offset_for_line_character line_offset walk_units find index begins_with
two_units = refl
