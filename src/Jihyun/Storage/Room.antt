-- ===== src/Jihyun/Storage/Room.antt =====
-- page_with_room: the last page, or a new one behind it.
use mathlib.Core.List.{flatten}
use jungle_week6_coding_sess.Prelude.{
  ℕ, suc, ◌+◌, ◌<◌, ◌≤◌, ◌≡◌, inl, inr, refl, ap, ◌∙◌, some, List, [], ◌∷◌, ◌++◌, map, arith,
  length, get_elem?, Bool-cases, leb, leb→le, lt→not_leb, length-append, get_elem?-snoc,
  lt-length_of_get_elem?,
}
use jungle_week6_coding_sess.Jihyun.Action.{done, bind-done}
use jungle_week6_coding_sess.Jihyun.Page.{page_payload_size, page_can_store_record}
use jungle_week6_coding_sess.Jihyun.Page.Image.{IsSized}
use jungle_week6_coding_sess.Jihyun.Page.Records.{
  Holds, Holds-fits, Holds-page_init, page_can_store_record-eq-leb, encode,
}
use jungle_week6_coding_sess.Libc.Disk.{FilePath}
use jungle_week6_coding_sess.Jihyun.Cache.{Machine, max_path_length, set_page, modify_frame}
use jungle_week6_coding_sess.Jihyun.Cache.Frames.{modify_frame-cong}
use jungle_week6_coding_sess.Jihyun.Cache.Stored.{page_limit}
use jungle_week6_coding_sess.Jihyun.Cache.Steady.{Steady-refl}
use jungle_week6_coding_sess.Jihyun.Cache.Create.{create_page-Created}
use jungle_week6_coding_sess.Jihyun.Cache.Edit.{edited, mark_dirty-Edited}
use jungle_week6_coding_sess.Jihyun.Storage.{RowData, page_with_room, link_to, mark_dirty, page_in}
use jungle_week6_coding_sess.Jihyun.Storage.Rows.{row_record}
use jungle_week6_coding_sess.Jihyun.Storage.Table.{HoldsAt, HoldsAt-Keeps}
use jungle_week6_coding_sess.Jihyun.Storage.Target.{LastPage}
use jungle_week6_coding_sess.Jihyun.Storage.Beside.{
  Beside, Beside-trans, Beside-Steady, Beside-Created, Beside-Edited,
}

pub flatten-snoc_nil : (chunks : List (List RowData)) → flatten (chunks ++ [] ∷ []) ≡ flatten chunks
unfolding flatten
flatten-snoc_nil [] = refl
flatten-snoc_nil (chunk ∷ chunks) = ap (◌++◌ chunk) (flatten-snoc_nil chunks)

-- The record of the row fits in the page at `i`.
abbrev pub HasRoom : Machine → ℕ → RowData → Type 0
HasRoom m i row = (page_in m i).used_bytes + (4 + length (row_record row)) ≤ page_payload_size

module _ (path : FilePath) (fits : length path < max_path_length) where
  module _ (m : Machine) (initial : List (List RowData)) (last : List RowData) (k i : ℕ)
      (row : RowData) (p : LastPage m path initial last k i)
      (small : length (row_record row) + 4 ≤ page_payload_size) where
    -- The test of page_with_room, and its two cases.
    room_test :
        page_can_store_record (page_in m i) (length (row_record row))
        ≡ leb ((page_in m i).used_bytes + (4 + length (row_record row))) page_payload_size
    room_test =
        page_can_store_record-eq-leb (page_in m i) (length (row_record row))
          (omega (arith, Holds-fits p.holds))

    sized : IsSized (page_in m i)
    sized = p.sound.coherent.sized i p.own.used

    linked-IsSized : IsSized (link_to (suc k) (page_in m i))
    linked-IsSized = record {
      page_id = sized.page_id;
      next_page_id = omega (arith, p.limited);
      row_count = sized.row_count;
      used_bytes = sized.used_bytes;
      payload = sized.payload;
    }

    linked-Holds : Holds (link_to (suc k) (page_in m i)) (map row_record last)
    linked-Holds = record {
      free = p.holds.free;
      layout = p.holds.layout;
      used = p.holds.used;
      count = p.holds.count;
      size = p.holds.size;
    }

    link_written :
        modify_frame i (λ f. set_page (link_to (suc k) f.page) f) m.cache
        ≡ modify_frame i (set_page (link_to (suc k) (page_in m i))) m.cache
    link_written = modify_frame-cong m.cache i _ _ refl

    abbrev linked_machine : Machine
    linked_machine = edited m p.sound path k i p.own (link_to (suc k) (page_in m i)) linked-IsSized

    linked_pages :
        (n : ℕ) (rows : List RowData)
        → get_elem? (initial ++ last ∷ []) n ≡ some rows
        → HoldsAt linked_machine path n rows
    linked_pages n rows g =
        let e =
          mark_dirty-Edited m p.sound path k i p.own (link_to (suc k) (page_in m i))
            linked-IsSized in
        elim (get_elem?-snoc initial last n rows g) [
          | inl there ↦
              let h = p.pages n rows there in
              record {
                page = h.page;
                seen =
                    e.others path n h.page
                      (λ _ q.
                        omega (arith, q, p.count, lt-length_of_get_elem? initial n rows there))
                      h.seen;
                holds = h.holds;
                small = h.small;
              }
          | inr (at_end, is_last) ↦
              rw (is_last, at_end ∙ p.count)
                (record {
                  page = link_to (suc k) (page_in m i);
                  seen = e.seen;
                  holds = linked-Holds;
                  small = p.small;
                })
        ]

    -- A full page is linked to a new last page.
    new_page :
        suc k < page_limit
        → page_payload_size < (page_in m i).used_bytes + (4 + length (row_record row))
        → (m' : Machine) × (j : ℕ) × (page_with_room path (length (row_record row)) (k, i, suc k) m
            ≡ (done (suc k, j), m'))
          × LastPage m' path (initial ++ last ∷ []) [] (suc k) j
          × Beside path m m'
    unfolding page_with_room mark_dirty
    new_page in_limit full =
        let e =
          mark_dirty-Edited m p.sound path k i p.own (link_to (suc k) (page_in m i))
            linked-IsSized in
        let (m', j, made, c) =
          create_page-Created linked_machine path (suc k) e.sound in_limit fits
            (e.within path (suc k) p.within) in
        (
          m',
          j,
          rw (room_test, lt→not_leb _ _ full, link_written) (bind-done _ made refl),
          record {
            count = omega (arith, p.count, length-append initial (last ∷ []));
            sound = c.sound;
            own = c.own;
            holds = rw c.own_page (Holds-page_init (suc k));
            small = tt;
            pages = λ n rows g. HoldsAt-Keeps c.keeps (linked_pages n rows g);
            within = c.within_self;
            limited = in_limit;
          },
          Beside-trans (Beside-Edited e) (Beside-Created c),
        )

    -- The page itself has room, or a new one behind it has.
    pub page_with_room-LastPage :
        suc k < page_limit
        → (m' : Machine) × (initial' : List (List RowData)) × (last' : List RowData) × (k' : ℕ)
          × (j : ℕ) × (page_with_room path (length (row_record row)) (k, i, suc k) m
              ≡ (done (k', j), m'))
          × LastPage m' path initial' last' k' j
          × HasRoom m' j row
          × (flatten (initial' ++ last' ∷ []) ≡ flatten (initial ++ last ∷ []))
          × Beside path m m'
    unfolding page_with_room
    page_with_room-LastPage in_limit =
        let needed = (page_in m i).used_bytes + (4 + length (row_record row)) in
        elim (Bool-cases (leb needed page_payload_size)) [
          | inl room ↦ (
            m,
            initial,
            last,
            k,
            i,
            rw (room_test, room) refl,
            p,
            leb→le _ _ room,
            refl,
            Beside-Steady (Steady-refl p.sound),
          )
          | inr full ↦
              let (m', j, e, q, b) = new_page in_limit (ground arith) in
              (
                m',
                initial ++ last ∷ [],
                [],
                suc k,
                j,
                e,
                q,
                (unfold encode in omega (arith, q.holds.used, small)),
                flatten-snoc_nil (initial ++ last ∷ []),
                b,
              )
        ]
