-- ===== src/Libc/Text/Lines.antt =====
-- Lines that fgets reads.
use jungle_week6_coding_sess.Prelude.{
  ℕ, arith, ◌-◌, ◌<◌, ◌≡◌, ◌≢◌, refl, ap, ◌∙◌, false, Bytes, [], ◌∷◌, ◌++◌, append_assoc, ◌==◌, leb,
  lt→not_leb, length, All,
}
use jungle_week6_coding_sess.Libc.Text.{fgets_from}
use jungle_week6_coding_sess.Libc.Disk.{c_string}

abbrev line_feed : ℕ
line_feed = 10

-- A byte of a line: it ends neither the line nor a C string.
pub record IsInLine (c : ℕ) : Type 0 where
  pub positive : 0 < c
  pub no_line_feed : c ≢ line_feed

-- A line that fits in the buffer is read whole, with its line feed.
pub fgets_from-line :
    (size left : ℕ) (line bytes rest : Bytes)
    → All IsInLine bytes
    → length bytes < left
    → fgets_from size left line (bytes ++ (line_feed ∷ rest))
      ≡ (line ++ (bytes ++ line_feed ∷ [])) ∷ fgets_from size (size - 1) [] rest
unfolding fgets_from
fgets_from-line size left line [] rest h fits = refl
fgets_from-line size left line (c ∷ bytes) rest h fits =
    let other : (c == line_feed) ≡ false = ground (arith, h.0.no_line_feed) in
    let room : leb left 1 ≡ false = lt→not_leb _ _ (omega arith) in
    rw (other, room)
      (fgets_from-line size (left - 1) (line ++ c ∷ []) bytes rest h.1 (omega arith)
        ∙ ap (λ first. first ∷ fgets_from size (size - 1) [] rest)
            (append_assoc line (c ∷ []) (bytes ++ line_feed ∷ [])))

pub c_string-line :
    (bytes : Bytes)
    → All IsInLine bytes
    → c_string (bytes ++ line_feed ∷ []) ≡ bytes ++ line_feed ∷ []
unfolding c_string
c_string-line [] h = refl
c_string-line (c ∷ bytes) h =
    let other : (c == 0) ≡ false = ground (arith, h.0.positive) in
    rw other (ap (◌∷◌ c) (c_string-line bytes h.1))
