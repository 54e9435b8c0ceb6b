-- ===== src/Jihyun/Storage/Beside.antt =====
-- Steps that work on one file and keep the tables of all others.
use jungle_week6_coding_sess.Prelude.{ℕ, ◌≤◌, ◌≡◌, ◌≢◌, some, arith, List}
use jungle_week6_coding_sess.Jihyun.Page.{DataPage}
use jungle_week6_coding_sess.Libc.Disk.{FilePath}
use jungle_week6_coding_sess.Jihyun.Cache.{Machine}
use jungle_week6_coding_sess.Jihyun.Cache.View.{view}
use jungle_week6_coding_sess.Jihyun.Cache.Steady.{Steady, Within, file_length}
use jungle_week6_coding_sess.Jihyun.Cache.Create.{Created}
use jungle_week6_coding_sess.Jihyun.Cache.Edit.{Edited}
use jungle_week6_coding_sess.Jihyun.Storage.{RowData}
use jungle_week6_coding_sess.Jihyun.Storage.Table.{Table}

pub record Beside (path : FilePath) (m m' : Machine) : Type 0 where
  pub keeps :
      (p : FilePath) (k : ℕ) (page : DataPage)
      → p ≢ path
      → view m p k ≡ some page
      → view m' p k ≡ some page
  pub within : (p : FilePath) (limit : ℕ) → p ≢ path → Within m p limit → Within m' p limit
  pub grows : (p : FilePath) → file_length m p ≤ file_length m' p

pub Beside-trans :
    {path : FilePath} {l m n : Machine} → Beside path l m → Beside path m n → Beside path l n
Beside-trans a b = record {
  keeps = λ p k page ne h. b.keeps p k page ne (a.keeps p k page ne h);
  within = λ p limit ne w. b.within p limit ne (a.within p limit ne w);
  grows = λ p. omega (arith, a.grows p, b.grows p);
}

pub Beside-Steady : {path : FilePath} {m m' : Machine} → Steady m m' → Beside path m m'
Beside-Steady a = record {
  keeps = λ p k page ne h. a.keeps.at p k page h;
  within = λ p limit ne w. a.within p limit w;
  grows = λ p. a.grows p;
}

pub Beside-Created :
    {path : FilePath} {m m' : Machine} {i k : ℕ} → Created m m' i path k → Beside path m m'
Beside-Created c = record {
  keeps = λ p k page ne h. c.keeps.at p k page h;
  within = c.within;
  grows = c.grows;
}

pub Beside-Edited :
    {path : FilePath} {m m' : Machine} {i k : ℕ} {page : DataPage}
    → Edited m m' i path k page
    → Beside path m m'
Beside-Edited e = record {
  keeps = λ p k page ne h. e.others p k page (λ x y. ne x) h;
  within = λ p limit ne w. e.within p limit w;
  grows = λ p. omega (arith, e.grows p);
}

pub Table-Beside :
    {path p : FilePath} {m m' : Machine} {chunks : List (List RowData)}
    → Beside path m m'
    → p ≢ path
    → Table m p chunks
    → Table m' p chunks
Table-Beside {p = p} b ne t = record {
  within = b.within p _ ne t.within;
  full = omega (arith, t.full, b.grows p);
  pages = λ k rows e.
      let h = t.pages k rows e in
      record {
        page = h.page;
        seen = b.keeps p k h.page ne h.seen;
        holds = h.holds;
        small = h.small;
      };
  limited = t.limited;
}
