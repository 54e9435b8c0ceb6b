-- ===== src/Jihyun/Storage/Table.antt =====
-- A table as the lists of rows that its pages hold.
use jungle_week6_coding_sess.Prelude.{
  none, [], ℕ, ◌*◌, ◌/◌, ◌%◌, ◌≤◌, ◌≡◌, inl, inr, ap, Option, some, List, map, arith, length,
  get_elem?, Option-cases, Bytes,
}
use jungle_week6_coding_sess.Prelude.Words.{u32_mod}
use jungle_week6_coding_sess.Jihyun.Action.{done}
use jungle_week6_coding_sess.Jihyun.Page.{DataPage, page_size}
use jungle_week6_coding_sess.Jihyun.Page.Records.{Holds}
use jungle_week6_coding_sess.Libc.Disk.{Disk, FilePath, contents, open_read}
use jungle_week6_coding_sess.Jihyun.Cache.{Machine}
use jungle_week6_coding_sess.Jihyun.Cache.Stored.{page_limit}
use jungle_week6_coding_sess.Jihyun.Cache.View.{view, Keeps}
use jungle_week6_coding_sess.Jihyun.Cache.Steady.{Sound, Steady, Within, file_length}
use jungle_week6_coding_sess.Jihyun.Cache.Start.{started, unused_at_first}
use jungle_week6_coding_sess.Jihyun.Storage.{RowData, pages_of, get_page_count}
use jungle_week6_coding_sess.Jihyun.Storage.Rows.{row_record}
use jungle_week6_coding_sess.Jihyun.Storage.Visit.{AllSmall}

-- A client sees a page that holds exactly these rows.
pub record HoldsAt (m : Machine) (path : FilePath) (k : ℕ) (rows : List RowData) : Type 0 where
  pub page : DataPage
  pub seen : view m path k ≡ some page
  pub holds : Holds page (map row_record rows)
  pub small : AllSmall rows

pub HoldsAt-Keeps :
    {m m' : Machine} {path : FilePath} {k : ℕ} {rows : List RowData}
    → Keeps m m'
    → HoldsAt m path k rows
    → HoldsAt m' path k rows
HoldsAt-Keeps {path = path} {k = k} a h = record {
  page = h.page;
  seen = a.at path k h.page h.seen;
  holds = h.holds;
  small = h.small;
}

-- The file of the table is a row of whole pages, and page `k` holds the `k`-th list of rows.
pub record Table (m : Machine) (path : FilePath) (chunks : List (List RowData)) : Type 0 where
  pub within : Within m path (length chunks)
  pub full : length chunks * page_size ≤ file_length m path
  pub pages : (k : ℕ) (rows : List RowData) → get_elem? chunks k ≡ some rows → HoldsAt m path k rows
  pub limited : length chunks ≤ page_limit

pub Table-Steady :
    {m m' : Machine} {path : FilePath} {chunks : List (List RowData)}
    → Steady m m'
    → Table m path chunks
    → Table m' path chunks
Table-Steady {path = path} {chunks = chunks} a t = record {
  within = a.within path (length chunks) t.within;
  full = omega (arith, t.full, a.grows path);
  pages = λ k rows e. HoldsAt-Keeps a.keeps (t.pages k rows e);
  limited = t.limited;
}

-- On a table in a sound machine, get_page_count returns the number of its pages and changes
-- nothing.
pub get_page_count-Table :
    {m : Machine} {path : FilePath} {chunks : List (List RowData)}
    → Sound m
    → Table m path chunks
    → get_page_count path m ≡ (done (length chunks), m)
unfolding get_page_count pages_of open_read
get_page_count-Table {m} {path} {chunks} s t = elim (Option-cases (m.disk.file path)) [
  | inl e ↦
      let none_there : 0 ≡ length chunks =
        omega (arith, t.full, ap (λ (o : Option Bytes). length (contents o)) e) in
      rw e (ap (λ n. (done n, m)) none_there)
  | inr (bytes, e) ↦
      let count : (length bytes / page_size) % u32_mod ≡ length chunks = omega (
        arith,
        t.full,
        t.limited,
        t.within.whole,
        t.within.at_most,
        ap (λ (o : Option Bytes). length (contents o)) e,
      ) in
      rw (e, s.permits.reads path) (ap (λ n. (done n, m)) count)
]

-- A file that does not exist is a table without rows, for a program that starts.
pub Table-missing :
    (disk : Disk) (path : FilePath) → disk.file path ≡ none → Table (started disk) path []
Table-missing disk path absent = record {
  within = record {
    pages = 0;
    whole = omega (arith, ap (λ (o : Option Bytes). length (contents o)) absent);
    at_most = omega arith;
    frames = λ i u p. cc (unused_at_first i);
  };
  full = omega arith;
  pages = λ k rows e. cc;
  limited = omega arith;
}
