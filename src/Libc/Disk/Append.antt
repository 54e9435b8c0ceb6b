-- ===== src/Libc/Disk/Append.antt =====
-- Files that are opened for appending.
use jungle_week6_coding_sess.Prelude.{
  ◌≡◌, refl, ap, ◌∙◌, inl, inr, true, false, Option-cases, some, Bytes, [], ◌++◌, bytes_eq,
  bytes_eq_refl,
}
use jungle_week6_coding_sess.Libc.Disk.{
  Disk, FilePath, open_append, append_bytes, store_file, contents,
}

-- The file that `fopen(path, "ab")` opens has the contents from before, and no other file changes.
pub open_append-contents :
    (disk : Disk) (path : FilePath)
    → disk.can_write path ≡ true
    → (file : Disk) × (open_append disk path ≡ some file)
      × (contents (file.file path) ≡ contents (disk.file path))
      × ((p : FilePath) → bytes_eq p path ≡ false → file.file p ≡ disk.file p)
      × (file.can_read ≡ disk.can_read)
unfolding open_append store_file
open_append-contents disk path writable = elim (Option-cases (disk.file path)) [
  | inl e ↦
      (store_file disk path [], rw (writable, e), rw (bytes_eq_refl path, e), (λ p ne. rw ne), refl)
  | inr (bytes, e) ↦ (disk, rw (writable, e), refl, (λ p ne. refl), refl)
]

-- What is appended stands behind the old contents, no other file changes, and the same files may be
-- read.
pub open_append-append_bytes :
    (disk : Disk) (path : FilePath) (bytes old : Bytes)
    → disk.can_write path ≡ true
    → contents (disk.file path) ≡ old
    → (file : Disk) × (open_append disk path ≡ some file)
      × ((append_bytes file path bytes).file path ≡ some (old ++ bytes))
      × ((p : FilePath)
          → bytes_eq p path ≡ false
          → (append_bytes file path bytes).file p ≡ disk.file p)
      × (file.can_read ≡ disk.can_read)
unfolding append_bytes store_file
open_append-append_bytes disk path bytes old writable there =
    let (file, opens, same, others, reads) = open_append-contents disk path writable in
    (
      file,
      opens,
      rw (bytes_eq_refl path) (ap (λ b. some (b ++ bytes)) (same ∙ there)),
      (λ p ne. rw ne (others p ne)),
      reads,
    )
