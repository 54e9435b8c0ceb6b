-- ===== src/Libc/Disk.antt =====
-- The files, as the calls of stdio in the program see them. `fseek`, `ftell`, `fwrite` and
-- `fclose` on an open regular file succeed; `fread` is short exactly at the end of the file.
pub mod Append
use jungle_week6_coding_sess.Prelude.{
  ℕ, Bool, true, false, ◌&&◌, Option, none, some, Bytes, [], ◌∷◌, ◌++◌, ◌==◌, if◌then◌else◌,
  bytes_eq, take, drop,
}
use jungle_week6_coding_sess.Prelude.Words.{overwrite}

abbrev pub FilePath : Type 0
FilePath = Bytes

-- The contents of the files that exist, and the permissions of each path. A path that does not
-- exist can be created if it can be written.
pub record Disk : Type 0 where
  pub file : FilePath → Option Bytes
  pub can_read : FilePath → Bool
  pub can_write : FilePath → Bool

-- `fopen(path, "rb")`; `missing` is a failure with ENOENT.
pub data Opened : Type 0 where
  missing denied : Opened
  opened : Bytes → Opened

abbrev pub open_found : Bool → Option Bytes → Opened
open_found allowed none = missing
open_found allowed (some bytes) = if allowed then opened bytes else denied

unfoldable pub open_read : Disk → FilePath → Opened
open_read disk path = open_found (disk.can_read path) (disk.file path)

unfoldable pub store_file : Disk → FilePath → Bytes → Disk
store_file disk path bytes = record disk {
  file = λ p. if bytes_eq p path then some bytes else disk.file p;
}

abbrev pub exists : Option Bytes → Bool
exists none = false
exists (some _) = true

-- `fopen(path, "r+b")`, and where that fails `fopen(path, "w+b")`. An existing file has to be
-- readable and writable for both, so the second creates a file or fails.
unfoldable pub open_update : Disk → FilePath → Option Disk
open_update disk path =
    if exists (disk.file path)
    then (if disk.can_read path && disk.can_write path then some disk else none)
    else (if disk.can_write path then some (store_file disk path []) else none)

-- `fopen(path, "ab")` and `fclose`: an empty file is created where there is none.
unfoldable pub open_append : Disk → FilePath → Option Disk
open_append disk path =
    if disk.can_write path
    then some (if exists (disk.file path) then disk else store_file disk path [])
    else none

-- `fopen(path, "w")`: an empty file, whatever was there.
unfoldable pub open_write : Disk → FilePath → Option Disk
open_write disk path = if disk.can_write path then some (store_file disk path []) else none

abbrev pub contents : Option Bytes → Bytes
contents none = []
contents (some bytes) = bytes

-- `fseek(file, offset, SEEK_SET)` and `fwrite`.
unfoldable pub write_at : Disk → FilePath → ℕ → Bytes → Disk
write_at disk path offset bytes =
    store_file disk path (overwrite offset bytes (contents (disk.file path)))

-- `fputs` and `fputc` to a file that is open for appending.
unfoldable pub append_bytes : Disk → FilePath → Bytes → Disk
append_bytes disk path bytes = store_file disk path (contents (disk.file path) ++ bytes)

-- `fseek(file, offset, SEEK_SET)` and `fread` of `count` bytes.
unfoldable pub read_at : Bytes → ℕ → ℕ → Bytes
read_at bytes offset count = take count (drop offset bytes)

-- The bytes of a C string in a buffer, up to its first NUL.
unfoldable pub c_string : Bytes → Bytes
c_string [] = []
c_string (c ∷ rest) = let later = c_string rest in if c == 0 then [] else c ∷ later
