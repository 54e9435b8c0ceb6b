-- ===== src/Jihyun/Storage/Visit.antt =====
-- The loop of storage_scan_rows over the records of one page.
use jungle_week6_coding_sess.Prelude.{
  ℕ, zero, suc, ◌≡◌, refl, ap, ◌∙◌, not, List, [], ◌∷◌, ◌++◌, map, append_assoc, arith, length,
  Bytes, some, none, ◌≤◌, append-nil, length-map, if◌then◌else◌,
}
use mathlib.Core.List.{map-append}
use jungle_week6_coding_sess.Jihyun.Action.{done}
use jungle_week6_coding_sess.Jihyun.Page.{DataPage, PageCursor, page_cursor_init, page_cursor_next}
use jungle_week6_coding_sess.Jihyun.Page.Records.{
  Holds, cursor_after, page_cursor_next-cons, page_cursor_next-end, encode,
}
use jungle_week6_coding_sess.Jihyun.Storage.{
  RowData, RowVisitor, Visited, page_end, stopped, visit_records, visit_page, deserialize_row,
}
use jungle_week6_coding_sess.Jihyun.Storage.Rows.{
  row_record, IsSmall, deserialize_row-serialize_row,
}

abbrev pub AllSmall : List RowData → Type 0
AllSmall [] = Unit
AllSmall (row ∷ rows) = IsSmall row × AllSmall rows

pub AllSmall-append :
    (rows more : List RowData) → AllSmall rows → AllSmall more → AllSmall (rows ++ more)
AllSmall-append [] more h k = k
AllSmall-append (row ∷ rows) more h k = (h.0, AllSmall-append rows more h.1 k)

module _ {S : Type 0} (visitor : RowVisitor S) where
  -- The visitor on the rows in order, until it says to stop.
  unfoldable pub visit_rows : List RowData → S → Visited × S
  visit_rows [] s = (page_end, s)
  visit_rows (row ∷ rows) s =
      let (should_continue, s') = visitor row s in
      let later = visit_rows rows s' in if not should_continue then (stopped, s') else later

  visit_records-cons :
      (rounds : ℕ) (cursor next : PageCursor) (bytes : Bytes) (len : ℕ) (row : RowData) (s : S)
      → page_cursor_next cursor ≡ some (bytes, len, next)
      → deserialize_row bytes len ≡ done row
      → visit_records visitor (suc rounds) cursor s ≡ (
          if not (visitor row s).0
          then (stopped, (visitor row s).1)
          else visit_records visitor rounds next (visitor row s).1)
  unfolding visit_records
  visit_records-cons rounds cursor next bytes len row s e d =
      rw (e, visit_records) (rw (d, visit_records))

  visit_records-end :
      (rounds : ℕ) (cursor : PageCursor) (s : S)
      → page_cursor_next cursor ≡ none
      → visit_records visitor rounds cursor s ≡ (page_end, s)
  unfolding visit_records
  visit_records-end zero cursor s e = refl
  visit_records-end (suc rounds) cursor s e = rw (e, visit_records)

  -- With as many rounds as there are records, or more, the loop ends by its own test.
  pub visit_records-Holds :
      {page : DataPage} (rounds : ℕ) (seen rows : List RowData) (s : S)
      → length rows ≤ rounds
      → Holds page (map row_record (seen ++ rows))
      → AllSmall rows
      → visit_records visitor rounds (cursor_after page (map row_record seen)) s ≡ visit_rows rows s
  unfolding visit_rows
  visit_records-Holds {page} rounds seen [] s le h small =
      visit_records-end rounds _ s (page_cursor_next-end (map row_record seen) (rw append-nil at h))
  visit_records-Holds zero seen (row ∷ rows) s le h small = absurd (omega arith)
  visit_records-Holds {page} (suc rounds) seen (row ∷ rows) s le h small =
      let next =
        page_cursor_next-cons (map row_record seen) (row_record row) (map row_record rows)
          (rw map-append at h) in
      let rest =
        visit_records-Holds {page = page} rounds (seen ++ row ∷ []) rows (visitor row s).1
          (omega arith) (rw (append_assoc seen (row ∷ []) rows) h) small.1 in
      visit_records-cons rounds _ _ _ _ row s next (deserialize_row-serialize_row row small.0)
      ∙ ap (λ later. if not (visitor row s).0 then (stopped, (visitor row s).1) else later)
          (rw map-append at rest)

  -- On a page that holds the records of some rows, each small enough for its lengths, the loop visits
  -- these rows in order, until the visitor stops.
  pub visit_page-Holds :
      {page : DataPage} (rows : List RowData) (s : S)
      → Holds page (map row_record rows)
      → AllSmall rows
      → visit_page visitor page s ≡ visit_rows rows s
  unfolding visit_page page_cursor_init encode
  visit_page-Holds {page} rows s h small =
      visit_records-Holds {page = page} page.row_count [] rows s
        (omega (arith, h.count, length-map row_record rows)) h small
