-- ===== src/Files/Access.antt =====
-- Reads and writes of the workspace's files.
use yac.Common.{
  ℕ, ◌≤◌, ◌<◌, ◌≡◌, refl, inl, inr, ◌≢◌, Bool, true, false, if◌then◌else◌, Option, some, arith, ltb,
  leb, length, take, Bool-cases,
}
use yac.Common.Text.{same, same_iff, same_refl}
use yac.Edits.{Bytes}
use yac.Files.{
  FileError, failed_to_write, Disk, Outcome, returns, throws, max_file_bytes, put, with_file,
  readable_file_size, unable_to_create, make_parent, write_stream, stream_of, read_file, write_file,
}

pub put_self :
    (files : Bytes → Option Bytes) (path content : Bytes)
    → put files path content path ≡ some content
put_self files path content = rw (same_refl path) refl

pub put_other :
    (files : Bytes → Option Bytes) (path content : Bytes) {other : Bytes}
    → other ≢ path
    → put files path content other ≡ files other
put_other files path content {other} h = elim (Bool-cases (same other path)) [
  | inl e ↦ absurd (h ((same_iff other path).0 e))
  | inr e ↦ rw (e) refl
]

-- The disk with what making the directories above a path has done: nothing, if the parent is there.
pub data Parents (disk : Disk) (path : Bytes) : Disk → Type 0 where
  kept : Parents disk path disk
  made :
      {directories : Bytes → Bool}
      → disk.directories (disk.parent_path path) ≡ false
      → Parents disk path (record disk { directories = directories })

-- The ways in which a write ends.
pub data Write (disk : Disk) (path content : Bytes) : Disk × Outcome (Unit {0}) → Type 0 where
  refused :
      {d : Disk} {e : FileError}
      → Parents disk path d
      → e ≢ failed_to_write
      → Write disk path content (d, throws e)
  cut_short :
      {d : Disk} (n : ℕ)
      → Parents disk path d
      → n < length content
      → Write disk path content (with_file d path (take n content), throws failed_to_write)
  written :
      {d : Disk}
      → Parents disk path d
      → length content ≤ max_file_bytes
      → disk.is_symlink path ≡ false
      → Write disk path content (with_file d path content, returns tt)

stream-Write :
    {disk d : Disk} {path content : Bytes}
    → Parents disk path d
    → length content ≤ max_file_bytes
    → disk.is_symlink path ≡ false
    → Write disk path content (write_stream (d, returns tt) path content)
unfolding write_stream
stream-Write {disk} {d} {path} {content} p small plain = elim (Bool-cases (d.can_write path)) [
  | inl opened ↦ elim (Bool-cases (leb (length content) (d.room path))) [
    | inl fits ↦ rw (opened, fits) (written p small plain)
    | inr full ↦ rw (opened, full) (cut_short (d.room path) p (ground (arith, full)))
  ]
  | inr shut ↦ rw (shut) (refused p (λ e. ground (arith, e)))
]

made-Write :
    (disk : Disk) (path content : Bytes) (made_all : Bool) (directories : Bytes → Bool)
    → disk.directories (disk.parent_path path) ≡ false
    → length content ≤ max_file_bytes
    → disk.is_symlink path ≡ false
    → Write disk path content (
        write_stream
          (
            record disk { directories = directories },
            if made_all then returns tt else throws unable_to_create,
          )
          path
          content)
unfolding write_stream
made-Write disk path content true directories absent small plain =
    stream-Write (made absent) small plain
made-Write disk path content false directories absent small plain =
    refused (made absent) (λ e. ground (arith, e))

parent-Write :
    (disk : Disk) (path content : Bytes)
    → length content ≤ max_file_bytes
    → disk.is_symlink path ≡ false
    → Write disk path content (write_stream (make_parent disk path) path content)
unfolding make_parent
parent-Write disk path content small plain =
    elim (Bool-cases (disk.directories (disk.parent_path path))) [
      | inl there ↦ rw (there) (stream-Write kept small plain)
      | inr absent ↦ rw (absent) (
          made-Write disk path content
            (disk.create_directories (disk.parent_path path) disk.directories).1 _ absent small
            plain)
    ]

-- A write that is refused changes no file; one that fails leaves a beginning of the content; one
-- that returns leaves the content, which is within the limit, and no link is written through. Besides
-- that the directories above the file may have been made, if its directory was not there.
pub write_file-Write :
    (disk : Disk) (path content : Bytes) → Write disk path content (write_file disk path content)
unfolding write_file
write_file-Write disk path content = elim (Bool-cases (ltb max_file_bytes (length content))) [
  | inl big ↦ rw (big) (refused kept (λ e. ground (arith, e)))
  | inr small ↦ elim (Bool-cases (disk.is_symlink path)) [
    | inl link ↦ rw (small, link) (refused kept (λ e. ground (arith, e)))
    | inr plain ↦ rw (small, plain) (parent-Write disk path content (ground (arith, small)) plain)
  ]
]

read_file_of_file :
    (disk : Disk) (path content : Bytes)
    → disk.is_symlink path ≡ false
    → disk.files path ≡ some content
    → length content ≤ max_file_bytes
    → disk.can_read path ≡ true
    → read_file disk path ≡ returns content
unfolding read_file readable_file_size stream_of
read_file_of_file disk path content link there small can =
    let within : ltb max_file_bytes (length content) ≡ false = ground (arith, small) in
    rw (link, there, within, can) (rw (there) refl)

read-Write :
    {disk : Disk} {path content : Bytes} {r : Disk × Outcome (Unit {0})}
    → Write disk path content r
    → r.1 ≡ returns tt
    → disk.can_read path ≡ true
    → read_file r.0 path ≡ returns content
read-Write (refused p h) e can = ground (arith, e)
read-Write (cut_short n p h) e can = ground (arith, e)
read-Write {disk} {path} {content} (written kept small link) e can =
    read_file_of_file (with_file disk path content) path content link
      (put_self disk.files path content) small can
read-Write {disk} {path} {content} (written (made {directories} absent) small link) e can =
    read_file_of_file (with_file (record disk { directories = directories }) path content) path
      content link (put_self disk.files path content) small can

-- A file that was written and can be opened is read back as it was written.
pub read_file-write_file :
    (disk : Disk) (path content : Bytes)
    → (write_file disk path content).1 ≡ returns tt
    → disk.can_read path ≡ true
    → read_file (write_file disk path content).0 path ≡ returns content
read_file-write_file disk path content e can = read-Write (write_file-Write disk path content) e can
