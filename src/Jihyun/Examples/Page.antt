-- ===== src/Jihyun/Examples/Page.antt =====
-- A fresh page, with a record of three bytes.
use jungle_week6_coding_sess.Prelude.{◌≡◌, refl, arith, Bytes, [], ◌∷◌, ◌++◌, some, length}
use jungle_week6_coding_sess.Jihyun.Status.{ok}
use jungle_week6_coding_sess.Jihyun.Page.{
  DataPage, page_init, zero_page, page_append_record, page_cursor_next,
}
use jungle_week6_coding_sess.Jihyun.Page.Records.{
  Holds, Holds-page_init, cursor_after, page_append_record-adds, page_cursor_next-cons,
}

abbrev fresh : DataPage
fresh = page_init 7

abbrev abc : Bytes
abc = 97 ∷ 98 ∷ 99 ∷ []

used-fresh : fresh.used_bytes ≡ 0
unfolding page_init zero_page
used-fresh = refl

page_append_record-adds_example :
    (after : DataPage) × (page_append_record fresh abc (length abc) ≡ (ok, after))
    × Holds after ([] ++ abc ∷ [])
page_append_record-adds_example =
    page_append_record-adds (Holds-page_init 7) abc (omega (arith, used-fresh))

-- The page with the record.
abbrev holds_abc :
    (after : DataPage) × (page_append_record fresh abc (length abc) ≡ (ok, after))
    × Holds after ([] ++ abc ∷ [])
holds_abc = page_append_record-adds (Holds-page_init 7) abc (omega (arith, used-fresh))

page_cursor_next-cons_example :
    page_cursor_next (cursor_after holds_abc.0 [])
    ≡ some (abc, length abc, cursor_after holds_abc.0 ([] ++ abc ∷ []))
page_cursor_next-cons_example = page_cursor_next-cons [] abc [] holds_abc.2
