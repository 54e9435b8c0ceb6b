-- ===== src/Jihyun/Storage/Scan.antt =====
-- storage_scan_rows over a table: the visitor gets every row of every page, in their order.
use jungle_week6_coding_sess.Prelude.{
  ℕ, suc, ◌+◌, ◌<◌, ◌≤◌, ◌≡◌, ◌⊎◌, inl, inr, refl, sym, ap, ap₂, subst, ◌∙◌, not, some, List, [],
  ◌∷◌, ◌++◌, arith, length, get_elem?, Bytes, Bool-cases,
}
use mathlib.Core.List.{flatten}
use native.Mathlib.Nat.{add-zero, zero-add, add-suc, suc-add}
use jungle_week6_coding_sess.Jihyun.Status.{SqlStatus, ok}
use jungle_week6_coding_sess.Jihyun.Action.{Outcome, done}
use jungle_week6_coding_sess.Libc.Disk.{FilePath}
use jungle_week6_coding_sess.Jihyun.Schema.{TableSchema}
use jungle_week6_coding_sess.Jihyun.Cache.{Machine, max_path_length, buffer_cache_load_page}
use jungle_week6_coding_sess.Jihyun.Cache.Stored.{page_limit}
use jungle_week6_coding_sess.Jihyun.Cache.Steady.{Sound, Steady, Steady-refl, Steady-trans}
use jungle_week6_coding_sess.Jihyun.Cache.Load.{load_page-Loaded}
use jungle_week6_coding_sess.Jihyun.Storage.{
  RowData, RowVisitor, Visited, page_end, stopped, bad_record, scan_pages, storage_scan_rows,
  visit_page, page_in, build_table_path,
}
use jungle_week6_coding_sess.Jihyun.Storage.Visit.{visit_rows, visit_page-Holds}
use jungle_week6_coding_sess.Jihyun.Storage.Table.{
  Table, HoldsAt, HoldsAt-Keeps, get_page_count-Table,
}

module _ {S : Type 0} (visitor : RowVisitor S) where
  abbrev pub then_visit : List RowData → Visited × S → Visited × S
  then_visit more (page_end, s) = visit_rows visitor more s
  then_visit more (stopped, s) = (stopped, s)
  then_visit more (bad_record e, s) = (bad_record e, s)

  visit_rows-append :
      (rows more : List RowData) (s : S)
      → visit_rows visitor (rows ++ more) s ≡ then_visit more (visit_rows visitor rows s)
  unfolding visit_rows
  visit_rows-append [] more s = refl
  visit_rows-append (row ∷ rows) more s = elim (Bool-cases (not (visitor row s).0)) [
    | inl e ↦ rw e refl
    | inr e ↦ rw e (visit_rows-append rows more (visitor row s).1)
  ]

  visit_rows-cases :
      (rows : List RowData) (s : S)
      → ((s' : S) × (visit_rows visitor rows s ≡ (page_end, s')))
        ⊎ ((s' : S) × (visit_rows visitor rows s ≡ (stopped, s')))
  unfolding visit_rows
  visit_rows-cases [] s = inl (s, refl)
  visit_rows-cases (row ∷ rows) s = elim (Bool-cases (not (visitor row s).0)) [
    | inl e ↦ inr ((visitor row s).1, rw e refl)
    | inr e ↦ rw e (visit_rows-cases rows (visitor row s).1)
  ]

  module _ (path : FilePath) (rounds k : ℕ) (s : S) (m m' : Machine) (i : ℕ)
      (e : buffer_cache_load_page path k m ≡ (done i, m')) where
    machine : (buffer_cache_load_page path k m).1 ≡ m'
    machine = ap (λ (t : Outcome ℕ × Machine). t.1) e

    visited_there :
        (s' : S) (w : Visited)
        → visit_page visitor (page_in m' i) s ≡ (w, s')
        → visit_page visitor (page_in (buffer_cache_load_page path k m).1 i) s ≡ (w, s')
    visited_there s' w v = ap (λ x. visit_page visitor (page_in x i) s) machine ∙ v

    there :
        (s' : S) (w : Visited)
        → visit_page visitor (page_in m' i) s ≡ (w, s')
        → (visit_page visitor (page_in (buffer_cache_load_page path k m).1 i) s).0 ≡ w
    there s' w v = ap (λ (t : Visited × S). t.0) (visited_there s' w v)

    visited_state :
        (s' : S) (w : Visited)
        → visit_page visitor (page_in m' i) s ≡ (w, s')
        → (visit_page visitor (page_in (buffer_cache_load_page path k m).1 i) s).1 ≡ s'
    visited_state s' w v = ap (λ (t : Visited × S). t.1) (visited_there s' w v)

    scan_pages-page_end :
        (s' : S)
        → visit_page visitor (page_in m' i) s ≡ (page_end, s')
        → scan_pages visitor path (suc rounds) k s m ≡ scan_pages visitor path rounds (suc k) s' m'
    unfolding scan_pages
    scan_pages-page_end s' v =
        rw (ap (λ (t : Outcome ℕ × Machine). t.0) e, there s' page_end v, scan_pages)
          (ap₂ (scan_pages visitor path rounds (suc k)) (visited_state s' page_end v) machine)

    scan_pages-stopped :
        (s' : S)
        → visit_page visitor (page_in m' i) s ≡ (stopped, s')
        → scan_pages visitor path (suc rounds) k s m ≡ (ok, s', m')
    unfolding scan_pages
    scan_pages-stopped s' v =
        rw (ap (λ (t : Outcome ℕ × Machine). t.0) e, there s' stopped v, scan_pages)
          (ap₂ (λ s'' m''. (ok, s'', m'')) (visited_state s' stopped v) machine)

  -- What a scan does: the visitor on all these rows, in a machine that keeps every page.
  abbrev pub Scans : SqlStatus × S × Machine → Machine → List RowData → S → Type 0
  Scans result m rows s =
      (m' : Machine) × (result ≡ (ok, (visit_rows visitor rows s).1, m')) × Steady m m'

  pub scan_pages-Scans :
      (path : FilePath) (chunks : List (List RowData)) (k : ℕ) (s : S) (m : Machine)
      → Sound m
      → length path < max_path_length
      → k + length chunks ≤ page_limit
      → ((j : ℕ) (rows : List RowData)
          → get_elem? chunks j ≡ some rows
          → HoldsAt m path (k + j) rows)
      → Scans (scan_pages visitor path (length chunks) k s m) m (flatten chunks) s
  unfolding flatten
  scan_pages-Scans path [] k s m sound fits limit at =
      (m, unfold scan_pages visit_rows in refl, Steady-refl sound)
  scan_pages-Scans path (chunk ∷ chunks) k s m sound fits limit at =
      let h = subst (λ n. HoldsAt m path n chunk) (add-zero k) (at 0 chunk refl) in
      let (m1, i, e, l) = load_page-Loaded m path k h.page sound (omega arith) fits h.seen in
      let here : visit_page visitor (page_in m1 i) s ≡ visit_rows visitor chunk s =
        rw l.own_page (visit_page-Holds visitor chunk s h.holds h.small) in
      let joined = visit_rows-append chunk (flatten chunks) s in
      elim (visit_rows-cases chunk s) [
        | inr (s', v) ↦ (
          m1,
          scan_pages-stopped path (length chunks) k s m m1 i e s' (here ∙ v)
              ∙ ap (λ (t : Visited × S). (ok, t.1, m1))
                  (sym (joined ∙ ap (then_visit (flatten chunks)) v)),
          l.steady,
        )
        | inl (s', v) ↦
            let (m2, r, a) =
              scan_pages-Scans path chunks (suc k) s' m1 l.steady.sound fits (omega arith)
                (λ j rows g. HoldsAt-Keeps l.steady.keeps (
                  subst (λ n. HoldsAt m path n rows) (add-suc k j ∙ sym (suc-add k j))
                    (at (suc j) rows g))) in
            (
              m2,
              scan_pages-page_end path (length chunks) k s m m1 i e s' (here ∙ v)
                  ∙ r
                  ∙ ap (λ (t : Visited × S). (ok, t.1, m2))
                      (sym (joined ∙ ap (then_visit (flatten chunks)) v)),
              Steady-trans l.steady a,
            )
      ]

  -- On a table in a sound machine, storage_scan_rows succeeds, gives the visitor the rows of all
  -- pages in order until it stops, and keeps the machine sound and every page that was seen.
  pub storage_scan_rows-Scans :
      (data_dir : Bytes) (schema : TableSchema) (chunks : List (List RowData)) (s : S) (m : Machine)
      → Sound m
      → length (build_table_path data_dir schema.table_name) < max_path_length
      → Table m (build_table_path data_dir schema.table_name) chunks
      → Scans (storage_scan_rows visitor data_dir schema s m) m (flatten chunks) s
  unfolding storage_scan_rows
  storage_scan_rows-Scans data_dir schema chunks s m sound fits t =
      rw (get_page_count-Table sound t, storage_scan_rows)
        (scan_pages-Scans (build_table_path data_dir schema.table_name) chunks 0 s m sound fits
          (omega (arith, t.limited))
          (λ j rows g.
            subst (λ n. HoldsAt m (build_table_path data_dir schema.table_name) n rows)
              (sym (zero-add j)) (t.pages j rows g)))
