-- ===== src/Jihyun/Examples/Text.antt =====
-- Texts to trim, to compare and to decode, and frames to choose from.
use jungle_week6_coding_sess.Prelude.{ℕ, ◌≡◌, ◌↔◌, ◌≤◌, arith, true, List, [], ◌∷◌, codes, get_or}
use jungle_week6_coding_sess.Jihyun.Text.{
  trim_inplace, trim_copy_range, case_equal, lowercase_inplace,
}
use jungle_week6_coding_sess.Jihyun.Text.Compare.{
  IsCString, trim_inplace-trim_copy_range, case_equal-lowercase_inplace,
}
use jungle_week6_coding_sess.Jihyun.Sql.Scan.{decode_value_token}
use jungle_week6_coding_sess.Jihyun.Sql.Quotes.{quoted, decode_value_token-quoted}
use jungle_week6_coding_sess.Jihyun.Cache.{BufferFrame, zero_frame, oldest}
use jungle_week6_coding_sess.Jihyun.Cache.Victim.{oldest-le}

trim_inplace-trim_copy_range_example :
    trim_inplace (codes "  id ") ≡ trim_copy_range (codes "  id ")
trim_inplace-trim_copy_range_example = trim_inplace-trim_copy_range (codes "  id ")

id-IsCString : IsCString (codes "Id")
id-IsCString = (omega arith, (omega arith, tt))

id_upper-IsCString : IsCString (codes "ID")
id_upper-IsCString = (omega arith, (omega arith, tt))

case_equal-lowercase_inplace_example :
    (case_equal (codes "Id") (codes "ID") ≡ true)
    ↔ (lowercase_inplace (codes "Id") ≡ lowercase_inplace (codes "ID"))
case_equal-lowercase_inplace_example =
    case_equal-lowercase_inplace (codes "Id") (codes "ID") id-IsCString id_upper-IsCString

abbrev at_tick : ℕ → BufferFrame
at_tick n = record zero_frame { in_use = true; last_used_tick = n }

abbrev frames : List BufferFrame
frames = at_tick 5 ∷ at_tick 3 ∷ at_tick 9 ∷ at_tick 4 ∷ []

oldest-le_example :
    (get_or frames (oldest frames) zero_frame).last_used_tick
    ≤ (get_or frames 2 zero_frame).last_used_tick
oldest-le_example = oldest-le frames 2 (omega arith)

decode_value_token-quoted_example : decode_value_token (quoted (codes "it's")) ≡ codes "it's"
decode_value_token-quoted_example = decode_value_token-quoted (codes "it's")
