-- ===== src/Hyeonok/Executor/Errors.antt =====
-- What an INSERT leaves behind where it fails.
use jungle_week6_coding_sess.Prelude.{
  ◌≡◌, ◌≢◌, ◌⊎◌, false, Bytes, List, [], some, ◌++◌, ◌∷◌, bytes_eq,
}
use jungle_week6_coding_sess.Libc.Disk.{Disk, FilePath, contents}
use jungle_week6_coding_sess.Hyeonok.Schema.{Schema}
use jungle_week6_coding_sess.Hyeonok.Storage.{row_text, line_feed}
use jungle_week6_coding_sess.Hyeonok.Executor.{ExecuteResult, execute_success}
use jungle_week6_coding_sess.Hyeonok.Executor.Select.{data_file}

-- The line of the row stands behind what the file of the table held, and no other file changes.
pub record Appended (table_name : Bytes) (row : List Bytes) (before after : Disk) : Type 0 where
  pub line :
      after.file (data_file table_name)
      ≡ some (contents (before.file (data_file table_name)) ++ (row_text row ++ line_feed ∷ []))
  pub others :
      (p : FilePath) → bytes_eq p (data_file table_name) ≡ false → after.file p ≡ before.file p

-- The call failed and the files are as before, or it succeeded and a row was appended.
abbrev pub StoresOrFails : Bytes → Disk → ExecuteResult × Disk → Type 0
StoresOrFails table_name disk (result, disk') =
    ((result ≢ execute_success) × (disk' ≡ disk))
    ⊎ ((result ≡ execute_success) × (row : List Bytes) × Appended table_name row disk disk')
