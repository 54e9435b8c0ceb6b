-- ===== src/Jihyun/Storage/Append.antt =====
-- The end of storage_insert_row: the row is added to the last page, and its file is flushed.
use jungle_week6_coding_sess.Prelude.{
  ℕ, suc, ◌≡◌, inl, inr, sym, ap, subst, ◌∙◌, false, some, List, [], ◌∷◌, ◌++◌, map, arith, length,
  get_elem?, length-append, get_elem?-snoc, lt-length_of_get_elem?,
}
use mathlib.Core.List.{map-append}
use jungle_week6_coding_sess.Jihyun.Status.{SqlStatus}
use jungle_week6_coding_sess.Jihyun.Action.{done, bind-done, ◌>>◌}
use jungle_week6_coding_sess.Jihyun.Page.{DataPage}
use jungle_week6_coding_sess.Jihyun.Page.Image.{IsSized}
use jungle_week6_coding_sess.Jihyun.Page.Records.{
  Holds, page_append_record-fits, page_append_record-Holds, appended, count-le-length-encode,
}
use jungle_week6_coding_sess.Libc.Disk.{FilePath}
use jungle_week6_coding_sess.Jihyun.Cache.{
  Machine, on_cache, frame_at, set_page, modify_frame, buffer_cache_flush_file,
}
use jungle_week6_coding_sess.Jihyun.Cache.Stored.{stored_page, stored_page-inside}
use jungle_week6_coding_sess.Jihyun.Cache.View.{
  Matches, view, view-Matches, view-stored, Matches-cases,
}
use jungle_week6_coding_sess.Jihyun.Cache.Steady.{Sound, Within}
use jungle_week6_coding_sess.Jihyun.Cache.FlushAll.{flush_file-FlushedFrom}
use jungle_week6_coding_sess.Jihyun.Cache.Edit.{edited, mark_dirty-Edited}
use jungle_week6_coding_sess.Jihyun.Storage.{RowData, mark_dirty, append_to}
use jungle_week6_coding_sess.Jihyun.Storage.Rows.{row_record, IsSmall}
use jungle_week6_coding_sess.Jihyun.Storage.Visit.{AllSmall-append}
use jungle_week6_coding_sess.Jihyun.Storage.Table.{Table, HoldsAt, HoldsAt-Keeps}
use jungle_week6_coding_sess.Jihyun.Storage.Target.{LastPage}
use jungle_week6_coding_sess.Jihyun.Storage.Room.{HasRoom}
use jungle_week6_coding_sess.Jihyun.Storage.Beside.{
  Beside, Beside-trans, Beside-Steady, Beside-Edited,
}

-- A page that is seen and has no dirty frame is stored.
stored_of_clean :
    (m : Machine) (path : FilePath) (k : ℕ) (page : DataPage)
    → Sound m
    → ((j : ℕ) → Matches (frame_at m.cache j) path k → (frame_at m.cache j).dirty ≡ false)
    → view m path k ≡ some page
    → stored_page m.disk path k ≡ some page
stored_of_clean m path k page s clean seen = elim (Matches-cases m path k) [
  | inr absent ↦ sym (view-stored m path k absent) ∙ seen
  | inl (j, a) ↦
      s.coherent.clean j path k a (clean j a) ∙ sym (view-Matches m path k s.coherent j a) ∙ seen
]

module _ (path : FilePath) where
  module _ (m : Machine) (initial : List (List RowData)) (last : List RowData) (k i : ℕ)
      (row : RowData) (p : LastPage m path initial last k i) (room : HasRoom m i row)
      (is_small : IsSmall row) where
    new_last : DataPage
    new_last = appended p.holds (row_record row)

    new_Holds : Holds new_last (map row_record (last ++ row ∷ []))
    unfolding new_last
    new_Holds = rw map-append (page_append_record-Holds p.holds (row_record row) room)

    new_IsSized : IsSized new_last
    unfolding new_last
    new_IsSized =
        let sized = p.sound.coherent.sized i p.own.used in
        record {
          page_id = sized.page_id;
          next_page_id = sized.next_page_id;
          row_count = omega (
            arith,
            new_Holds.count,
            new_Holds.used,
            room,
            count-le-length-encode (map row_record (last ++ row ∷ [])),
          );
          used_bytes = omega (arith, room);
          payload = new_Holds.size;
        }

    append_to-new_last :
        append_to i (row_record row) (length (row_record row)) m
        ≡ (done tt, on_cache (modify_frame i (set_page new_last)) m)
    unfolding append_to new_last
    append_to-new_last =
        let e = page_append_record-fits p.holds (row_record row) room in
        rw (ap (λ (t : SqlStatus × DataPage). t.0) e, append_to)
          (ap (λ (t : SqlStatus × DataPage). (done tt, on_cache (modify_frame i (set_page t.1)) m))
            e)

    abbrev appended_machine : Machine
    appended_machine = edited m p.sound path k i p.own new_last new_IsSized

    appended_pages :
        (n : ℕ) (rows : List RowData)
        → get_elem? (initial ++ (last ++ row ∷ []) ∷ []) n ≡ some rows
        → HoldsAt appended_machine path n rows
    appended_pages n rows g =
        let e = mark_dirty-Edited m p.sound path k i p.own new_last new_IsSized in
        elim (get_elem?-snoc initial (last ++ row ∷ []) n rows g) [
          | inl there ↦
              let h = p.pages n rows there in
              record {
                page = h.page;
                seen =
                    e.others path n h.page
                      (λ _ q.
                        omega (arith, q, p.count, lt-length_of_get_elem? initial n rows there))
                      h.seen;
                holds = h.holds;
                small = h.small;
              }
          | inr (at_end, is_last) ↦
              rw (is_last, at_end ∙ p.count)
                (record {
                  page = new_last;
                  seen = e.seen;
                  holds = new_Holds;
                  small = AllSmall-append last (row ∷ []) p.small (is_small, tt);
                })
        ]

    -- The row is added to the page, and the file is flushed.
    pub append_row :
        (m' : Machine) × ((append_to i (row_record row) (length (row_record row))
              >> (mark_dirty path k >> buffer_cache_flush_file path))
            m
          ≡ (done tt, m'))
        × Sound m'
        × Table m' path (initial ++ (last ++ row ∷ []) ∷ [])
        × Beside path m m'
    unfolding mark_dirty
    append_row =
        let e = mark_dirty-Edited m p.sound path k i p.own new_last new_IsSized in
        let (m', flushed, a, clean) = flush_file-FlushedFrom path appended_machine e.sound in
        let count : length (initial ++ (last ++ row ∷ []) ∷ []) ≡ suc k =
          omega (arith, p.count, length-append initial ((last ++ row ∷ []) ∷ [])) in
        let seen = a.keeps.at path k new_last e.seen in
        let stored = stored_of_clean m' path k new_last a.sound (λ j b. clean j k b) seen in
        (
          m',
          bind-done _ append_to-new_last flushed,
          a.sound,
          record {
            within =
                subst (Within m' path) (sym count)
                  (a.within path (suc k) (e.within path (suc k) p.within));
            full = omega (arith, count, stored_page-inside m'.disk path k new_last stored);
            pages = λ n rows g. HoldsAt-Keeps a.keeps (appended_pages n rows g);
            limited = omega (arith, count, p.limited);
          },
          Beside-trans (Beside-Edited e) (Beside-Steady a),
        )
