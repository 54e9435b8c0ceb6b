-- ===== src/Jihyun/Text/Compare.antt =====
-- util_trim_inplace and util_trim_copy_range, util_case_equal and util_lowercase_inplace.
use jungle_week6_coding_sess.Prelude.{
  ℕ, ◌≡◌, ◌↔◌, ◌<◌, refl, true, Bytes, [], ◌∷◌, ◌==◌, ==_iff, not, ◌&&◌, ltb, sym, ap, ◌∙◌,
  Bool-cases, inl, inr, length, take, drop, arith,
}
use jungle_week6_coding_sess.Jihyun.Text.Trim.{
  drop-leading_spaces, take-end, end_from-le, take-overwrite_front, take_zero,
}
use jungle_week6_coding_sess.Jihyun.Text.{
  leading_spaces, end_from, skip_spaces, trim_right, trim_inplace, trim_copy_range,
  lowercase_inplace, case_equal, case_cmp, char_difference, char_at, is_zero, to_lower,
}

-- The trim in place, which moves the middle to the front and ends the string behind it, leaves the
-- text that the trim into a copy makes.
pub trim_inplace-trim_copy_range : (text : Bytes) → trim_inplace text ≡ trim_copy_range text
unfolding trim_inplace trim_copy_range drop
trim_inplace-trim_copy_range [] = unfold skip_spaces trim_right in refl
trim_inplace-trim_copy_range (c ∷ cs) =
    let text = c ∷ cs in
    let start = drop (leading_spaces text) text in
    let n = end_from (length start) start in
    let middle : take n start ≡ trim_right (skip_spaces text) =
      take-end start ∙ ap trim_right (drop-leading_spaces text) in
    elim (Bool-cases (not (leading_spaces text == 0) && ltb 0 n)) [
      | inl e ↦ rw e (take-overwrite_front n start text (end_from-le (length start) start) ∙ middle)
      | inr e ↦ elim (Bool-cases (n == 0)) [
        | inl z ↦
            rw (e, z)
              (take_zero text start ∙ ap (λ k. take k start) (sym ((==_iff n 0).0 z)) ∙ middle)
        | inr z ↦
            let stays : leading_spaces text ≡ 0 = ground (arith, e, z) in
            rw (e, z) (ap (λ k. take n (drop k text)) (sym stays) ∙ middle)
      ]
    ]

-- No byte of a C string is NUL.
abbrev pub IsCString : Bytes → Type 0
IsCString [] = Unit
IsCString (c ∷ text) = (0 < c) × IsCString text

to_lower-pos : (c : ℕ) → 0 < c → 0 < to_lower c
unfolding to_lower
to_lower-pos c h = ground arith

is_zero-char_difference : (a b : ℕ) → (is_zero (char_difference a b) ≡ true) ↔ (a ≡ b)
unfolding is_zero char_difference
is_zero-char_difference a b = ground arith

to_lower_zero : to_lower 0 ≡ 0
unfolding to_lower
to_lower_zero = refl

-- On C strings, util_case_equal holds exactly where the lower-case texts are equal.
pub case_equal-lowercase_inplace :
    (left right : Bytes)
    → IsCString left
    → IsCString right
    → (case_equal left right ≡ true) ↔ (lowercase_inplace left ≡ lowercase_inplace right)
unfolding case_equal case_cmp lowercase_inplace char_at
case_equal-lowercase_inplace [] [] h k =
    ground (arith, is_zero-char_difference (to_lower 0) (to_lower 0))
case_equal-lowercase_inplace [] (r ∷ right) h k =
    ground
      (arith, is_zero-char_difference (to_lower 0) (to_lower r), to_lower-pos r k.0, to_lower_zero)
case_equal-lowercase_inplace (l ∷ left) [] h k =
    ground
      (arith, is_zero-char_difference (to_lower l) (to_lower 0), to_lower-pos l h.0, to_lower_zero)
case_equal-lowercase_inplace (l ∷ left) (r ∷ right) h k = ground (
  arith,
  is_zero-char_difference (to_lower l) (to_lower r),
  case_equal-lowercase_inplace left right h.1 k.1,
)
