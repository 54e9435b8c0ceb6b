-- ===== src/Jihyun/Text/Trim.antt =====
-- The loops of util_trim_inplace: where the middle of a text starts and how long it is.
use jungle_week6_coding_sess.Prelude.{
  ℕ, zero, suc, ◌<◌, ◌≤◌, ◌≡◌, refl, sym, ap, ◌∙◌, true, false, Bytes, [], ◌∷◌, ◌++◌, Bool-cases,
  inl, inr, length, take, drop, get_or, length-take, take_all, take-append, arith,
}
use jungle_week6_coding_sess.Prelude.Words.{overwrite}
use mathlib.Core.List.{reverse, reverse-append, reverse-reverse}
use jungle_week6_coding_sess.Jihyun.Text.{
  is_space, skip_spaces, trim_right, leading_spaces, end_from,
}

pub drop-leading_spaces : (text : Bytes) → drop (leading_spaces text) text ≡ skip_spaces text
unfolding drop leading_spaces skip_spaces
drop-leading_spaces [] = refl
drop-leading_spaces (c ∷ text) = elim (Bool-cases (is_space c)) [
  | inl e ↦ rw e (drop-leading_spaces text)
  | inr e ↦ rw e refl
]

take_snoc :
    (n : ℕ) (text : Bytes)
    → n < length text
    → take (suc n) text ≡ take n text ++ get_or text n 0 ∷ []
unfolding take
take_snoc n [] h = absurd (omega arith)
take_snoc zero (c ∷ text) h = refl
take_snoc (suc n) (c ∷ text) h = ap (◌∷◌ c) (take_snoc n text (omega arith))

trim_right_snoc_space :
    (text : Bytes) (c : ℕ) → is_space c ≡ true → trim_right (text ++ c ∷ []) ≡ trim_right text
unfolding trim_right skip_spaces
trim_right_snoc_space text c h = rw (reverse-append text (c ∷ []), h) refl

trim_right_snoc :
    (text : Bytes) (c : ℕ) → is_space c ≡ false → trim_right (text ++ c ∷ []) ≡ text ++ c ∷ []
unfolding trim_right skip_spaces
trim_right_snoc text c h =
    ap (λ s. reverse (skip_spaces s)) (reverse-append text (c ∷ []))
    ∙ rw h (ap reverse (sym (reverse-append text (c ∷ []))) ∙ reverse-reverse (text ++ c ∷ []))

take-end_from :
    (n : ℕ) (start : Bytes)
    → n ≤ length start
    → take (end_from n start) start ≡ trim_right (take n start)
unfolding end_from
take-end_from zero start h = unfold take trim_right skip_spaces in refl
take-end_from (suc n) start h =
    let snoc = take_snoc n start (omega arith) in
    elim (Bool-cases (is_space (get_or start n 0))) [
      | inl e ↦ rw e (
          take-end_from n start (omega arith)
          ∙ sym (trim_right_snoc_space (take n start) (get_or start n 0) e)
          ∙ ap trim_right (sym snoc))
      | inr e ↦ rw e (
          snoc
          ∙ sym (trim_right_snoc (take n start) (get_or start n 0) e)
          ∙ ap trim_right (sym snoc))
    ]

pub take-end : (start : Bytes) → take (end_from (length start) start) start ≡ trim_right start
take-end start =
    take-end_from (length start) start (omega arith)
    ∙ ap trim_right (take_all (length start) start (omega arith))

pub end_from-le : (n : ℕ) (start : Bytes) → end_from n start ≤ n
unfolding end_from
end_from-le zero start = omega arith
end_from-le (suc n) start = ground (arith, end_from-le n start)

-- The bytes that a memmove to the front has moved.
pub take-overwrite_front :
    (n : ℕ) (start text : Bytes)
    → n ≤ length start
    → take n (overwrite 0 (take n start) text) ≡ take n start
unfolding overwrite
take-overwrite_front n start text h =
    take-append n (take n start) (drop (length (take n start)) text)
      (omega (arith, length-take n start))

pub take_zero : (a b : Bytes) → take 0 a ≡ take 0 b
unfolding take
take_zero a b = refl
