-- ===== src/Jihyun/Cache/Stored.antt =====
-- The pages of a file, and what a page write does to them.
use mathlib.Core.Bool.{false≢true}
use Prim.Native.Nat.{max}
use native.Mathlib.Decide.{dec_lt}
use jungle_week6_coding_sess.Prelude.{
  ℕ, ◌+◌, ◌*◌, ◌^◌, ◌<◌, ◌≤◌, ◌≡◌, ◌≢◌, ◌⊎◌, inl, inr, ap, sym, ◌∙◌, Bytes, Option, none, some,
  Bool-cases, ◌==◌, if◌then◌else◌, arith, length, take, drop, length-take, length-drop, bytes_eq,
  bytes_eq_iff, bytes_eq_refl,
}
use jungle_week6_coding_sess.Prelude.Words.{
  overwrite, drop-overwrite, take-drop-overwrite, take-drop-overwrite_before, length-overwrite-max,
}
use jungle_week6_coding_sess.Jihyun.Page.{DataPage, page_size, page_bytes, page_of_bytes}
use jungle_week6_coding_sess.Jihyun.Page.Image.{
  IsSized, length-page_bytes, page_of_bytes-page_bytes,
}
use jungle_week6_coding_sess.Libc.Disk.{Disk, FilePath, contents, store_file, write_at, read_at}
use jungle_week6_coding_sess.Jihyun.Cache.{page_offset}

-- The offsets of the pages below this number do not wrap around.
abbrev pub page_limit : ℕ
page_limit = 2 ^ 20

-- The page in a file: there only if its 4096 bytes are.
abbrev pub whole_page : Bytes → Option DataPage
whole_page bytes = if length bytes == page_size then some (page_of_bytes bytes) else none

unfoldable pub stored_page : Disk → FilePath → ℕ → Option DataPage
stored_page disk path page_id =
    whole_page (read_at (contents (disk.file path)) (page_id * page_size) page_size)

pub page_offset-eq :
    (page_id : ℕ) → page_id < page_limit → page_offset page_id ≡ page_id * page_size
unfolding page_offset
page_offset-eq page_id h = omega arith

file-store_file_self :
    (disk : Disk) (path : FilePath) (bytes : Bytes)
    → (store_file disk path bytes).file path ≡ some bytes
unfolding store_file
file-store_file_self disk path bytes = rw (bytes_eq_refl path)

file-store_file_ne :
    (disk : Disk) (path p : FilePath) (bytes : Bytes)
    → p ≢ path
    → (store_file disk path bytes).file p ≡ disk.file p
unfolding store_file
file-store_file_ne disk path p bytes ne = elim (Bool-cases (bytes_eq p path)) [
  | inl e ↦ absurd (ne ((bytes_eq_iff p path).0 e))
  | inr e ↦ rw e
]

pub whole_page-length :
    (bytes : Bytes) (v : DataPage) → whole_page bytes ≡ some v → length bytes ≡ page_size
whole_page-length bytes v h = ground arith

pub whole_page-value :
    (bytes : Bytes) (v : DataPage) → whole_page bytes ≡ some v → page_of_bytes bytes ≡ v
whole_page-value bytes v h = ground arith

-- A page write leaves the other whole pages of the file as they are.
other_page :
    (k page_id : ℕ) (new old : Bytes)
    → k ≢ page_id
    → length new ≡ page_size
    → length (read_at old (k * page_size) page_size) ≡ page_size
    → read_at (overwrite (page_id * page_size) new old) (k * page_size) page_size
      ≡ read_at old (k * page_size) page_size
unfolding read_at
other_page k page_id new old ne n whole =
    let inside : k * page_size + page_size ≤ length old =
      omega (
        arith,
        length-take page_size (drop (k * page_size) old),
        length-drop (k * page_size) old,
      ) in
    elim (dec_lt k page_id) [
      | yes before ↦
          take-drop-overwrite_before (page_id * page_size) (k * page_size) page_size new old
            (omega arith) inside
      | no after ↦
          ap (take page_size)
            (drop-overwrite (page_id * page_size) (k * page_size) new old (omega arith))
    ]

module _ (disk : Disk) (path : FilePath) (page_id : ℕ) (page : DataPage)
    (sized : IsSized page) where
  abbrev pub written : Disk
  written = write_at disk path (page_id * page_size) (page_bytes page)

  -- The page that was written is stored.
  pub stored_page-written : stored_page written path page_id ≡ some page
  unfolding stored_page write_at read_at
  stored_page-written =
      let old = contents (disk.file path) in
      let n = length-page_bytes page sized.payload in
      let there : take page_size
            (drop (page_id * page_size) (overwrite (page_id * page_size) (page_bytes page) old))
          ≡ page_bytes page =
        rw n at (take-drop-overwrite (page_id * page_size) (page_bytes page) old) in
      rw (file-store_file_self, there, n) (ap some (page_of_bytes-page_bytes page sized))

  same_file :
      (k : ℕ) (v : DataPage)
      → k ≢ page_id
      → stored_page disk path k ≡ some v
      → stored_page written path k ≡ some v
  unfolding stored_page write_at
  same_file k v ne h =
      let old = contents (disk.file path) in
      let n = length-page_bytes page sized.payload in
      let whole = whole_page-length (read_at old (k * page_size) page_size) v h in
      rw (file-store_file_self, other_page k page_id (page_bytes page) old ne n whole) h

  -- Every other page that was stored stays as it is.
  pub stored_page-written_ne :
      (p : FilePath) (k : ℕ) (v : DataPage)
      → (p ≢ path) ⊎ (k ≢ page_id)
      → stored_page disk p k ≡ some v
      → stored_page written p k ≡ some v
  stored_page-written_ne p k v (inl ne) h =
      unfold stored_page write_at in rw (file-store_file_ne disk path p _ ne) h
  stored_page-written_ne p k v (inr ne) h = elim (Bool-cases (bytes_eq p path)) [
    | inl e ↦
        rw ((bytes_eq_iff p path).0 e) (same_file k v ne (rw ((bytes_eq_iff p path).0 e) at h))
    | inr e ↦
        unfold stored_page write_at in
        rw (file-store_file_ne disk path p _ (λ q. false≢true (sym e ∙ (bytes_eq_iff p path).1 q)))
          h
  ]

  -- The file grows to the end of the page at most.
  pub length-written :
      length (contents (written.file path))
      ≡ max (page_id * page_size + page_size) (length (contents (disk.file path)))
  unfolding write_at
  length-written = rw (file-store_file_self) (
      omega (
        arith,
        length-page_bytes page sized.payload,
        length-overwrite-max (page_id * page_size) (page_bytes page) (contents (disk.file path)),
      ))

  pub file-written_self :
      written.file path
      ≡ some (overwrite (page_id * page_size) (page_bytes page) (contents (disk.file path)))
  unfolding write_at
  file-written_self = file-store_file_self disk path _

  pub file-written_ne : (p : FilePath) → p ≢ path → written.file p ≡ disk.file p
  unfolding write_at
  file-written_ne p ne = file-store_file_ne disk path p _ ne

-- A page that is stored lies inside its file.
pub stored_page-inside :
    (disk : Disk) (path : FilePath) (k : ℕ) (v : DataPage)
    → stored_page disk path k ≡ some v
    → k * page_size + page_size ≤ length (contents (disk.file path))
unfolding stored_page read_at
stored_page-inside disk path k v h =
    let bytes = contents (disk.file path) in
    omega (
      arith,
      whole_page-length (take page_size (drop (k * page_size) bytes)) v h,
      length-take page_size (drop (k * page_size) bytes),
      length-drop (k * page_size) bytes,
    )
