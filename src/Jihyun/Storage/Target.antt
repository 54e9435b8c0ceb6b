-- ===== src/Jihyun/Storage/Target.antt =====
-- Where storage_insert_row starts: the table's file, and its last page in a frame.
use jungle_week6_coding_sess.Prelude.{
  ℕ, suc, ◌-◌, ◌<◌, ◌≡◌, inl, inr, refl, subst, false, some, List, [], ◌∷◌, ◌++◌, map, arith,
  length, get_elem?, Bool-cases, ◌==◌, length-append, get_elem?-append, get_elem?-length_snoc,
}
use jungle_week6_coding_sess.Jihyun.Action.{done, bind-done}
use jungle_week6_coding_sess.Jihyun.Page.Records.{Holds, Holds-page_init}
use jungle_week6_coding_sess.Libc.Disk.{Disk, FilePath, open_append, exists, store_file}
use jungle_week6_coding_sess.Jihyun.Cache.{Machine, max_path_length, frame_at}
use jungle_week6_coding_sess.Jihyun.Cache.Stored.{page_limit}
use jungle_week6_coding_sess.Jihyun.Cache.View.{Matches}
use jungle_week6_coding_sess.Jihyun.Cache.Steady.{Sound, Steady, Within, Permits}
use jungle_week6_coding_sess.Jihyun.Cache.Flush.{
  Opens, contents-store_empty, Permits-store_file, Steady-Opens,
}
use jungle_week6_coding_sess.Jihyun.Cache.Load.{load_page-Loaded}
use jungle_week6_coding_sess.Jihyun.Cache.Create.{create_page-Created}
use jungle_week6_coding_sess.Jihyun.Storage.{
  RowData, ensure_table_file, ensured, target_page, page_in,
}
use jungle_week6_coding_sess.Jihyun.Storage.Rows.{row_record}
use jungle_week6_coding_sess.Jihyun.Storage.Visit.{AllSmall}
use jungle_week6_coding_sess.Jihyun.Storage.Table.{Table, HoldsAt, HoldsAt-Keeps}
use jungle_week6_coding_sess.Jihyun.Storage.Beside.{Beside, Beside-Steady, Beside-Created}

open_append-Opens :
    (disk : Disk) (path : FilePath)
    → Permits disk
    → (after : Disk) × (open_append disk path ≡ some after) × Opens disk after
unfolding open_append
open_append-Opens disk path h = elim (Bool-cases (exists (disk.file path))) [
  | inl there ↦ (disk, rw (h.writes path, there), record { same = λ p. refl; permits = h })
  | inr absent ↦ (
    store_file disk path [],
    rw (h.writes path, absent),
    record {
      same = λ p. contents-store_empty disk path p absent;
      permits = Permits-store_file disk path [] h;
    },
  )
]

pub ensure_table_file-Steady :
    (path : FilePath) (m : Machine)
    → Sound m
    → (m' : Machine) × (ensure_table_file path m ≡ (done tt, m')) × Steady m m'
unfolding ensure_table_file ensured
ensure_table_file-Steady path m s =
    let (after, e, o) = open_append-Opens m.disk path s.permits in
    (record m { disk = after }, rw e refl, Steady-Opens m after s o)

-- The pages of a table before the last one, and the last one in the frame at `i`.
pub record LastPage (m : Machine) (path : FilePath) (initial : List (List RowData))
    (last : List RowData) (k i : ℕ) : Type 0 where
  pub count : length initial ≡ k
  pub sound : Sound m
  pub own : Matches (frame_at m.cache i) path k
  pub holds : Holds (page_in m i) (map row_record last)
  pub small : AllSmall last
  pub pages :
      (n : ℕ) (rows : List RowData) → get_elem? initial n ≡ some rows → HoldsAt m path n rows
  pub within : Within m path (suc k)
  pub limited : k < page_limit

module _ (path : FilePath) (fits : length path < max_path_length) where
  -- An empty file gets its first page.
  pub first_page :
      (m : Machine)
      → Sound m
      → Table m path []
      → (m' : Machine) × (i : ℕ) × (target_page path 0 m ≡ (done (0, i, 1), m'))
        × LastPage m' path [] [] 0 i
        × Beside path m m'
  unfolding target_page
  first_page m s t =
      let (m', i, e, c) = create_page-Created m path 0 s (omega arith) fits t.within in
      (
        m',
        i,
        bind-done _ e refl,
        record {
          count = refl;
          sound = c.sound;
          own = c.own;
          holds = rw c.own_page (Holds-page_init 0);
          small = tt;
          pages = λ n rows g. cc;
          within = c.within_self;
          limited = omega arith;
        },
        Beside-Created c,
      )

  -- The last page of a file that has one is loaded.
  pub last_page :
      (m : Machine) (initial : List (List RowData)) (last : List RowData)
      → Sound m
      → Table m path (initial ++ last ∷ [])
      → (m' : Machine) × (i : ℕ) × (target_page path (suc (length initial)) m
          ≡ (done (length initial, i, suc (length initial)), m'))
        × LastPage m' path initial last (length initial) i
        × Beside path m m'
  unfolding target_page
  last_page m initial last s t =
      let h = t.pages (length initial) last (get_elem?-length_snoc initial last) in
      let all : length (initial ++ last ∷ []) ≡ suc (length initial) =
        omega (arith, length-append initial (last ∷ [])) in
      let (m', i, e, l) =
        load_page-Loaded m path (length initial) h.page s (omega (arith, all, t.limited)) fits
          h.seen in
      let before : suc (length initial) - 1 ≡ length initial = omega arith in
      let not_zero : (suc (length initial) == 0) ≡ false = ground arith in
      (
        m',
        i,
        rw (not_zero, before) (bind-done _ e refl),
        record {
          count = refl;
          sound = l.steady.sound;
          own = l.own;
          holds = rw l.own_page h.holds;
          small = h.small;
          pages = λ n rows g.
              HoldsAt-Keeps l.steady.keeps
                (t.pages n rows (get_elem?-append initial (last ∷ []) n rows g));
          within = subst (Within m' path) all (l.steady.within path _ t.within);
          limited = omega (arith, all, t.limited);
        },
        Beside-Steady l.steady,
      )
