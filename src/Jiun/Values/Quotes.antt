-- ===== src/Jiun/Values/Quotes.antt =====
-- Values in quotes, with the quotes in them doubled.
use jungle_week6_coding_sess.Prelude.{
  ℕ, ◌≡◌, refl, sym, ap, ◌∙◌, false, Bytes, [], ◌∷◌, ◌++◌, some, inl, inr, Bool-cases, ◌==◌, ==_iff,
  if◌then◌else◌,
}
use jungle_week6_coding_sess.Libc.Text.{char_at}
use jungle_week6_coding_sess.Jiun.Values.{quoted_value}

-- The text with the quotes in it doubled.
unfoldable pub with_quotes_doubled : Bytes → Bytes
with_quotes_doubled [] = []
with_quotes_doubled (c ∷ text) =
    let rest = with_quotes_doubled text in if c == b'\'' then b'\'' ∷ b'\'' ∷ rest else c ∷ rest

quoted_value-plain :
    (c : ℕ) (more text after : Bytes)
    → (c == b'\'') ≡ false
    → quoted_value more ≡ some (text, after)
    → quoted_value (c ∷ more) ≡ some (c ∷ text, after)
unfolding quoted_value
quoted_value-plain c [] text after h k = absurd cc
quoted_value-plain c (d ∷ more) text after h k = rw (quoted_value, h, k, h) refl

quoted_value-end :
    (after : Bytes)
    → (char_at after == b'\'') ≡ false
    → quoted_value (b'\'' ∷ after) ≡ some ([], after)
unfolding quoted_value char_at
quoted_value-end [] h = refl
quoted_value-end (d ∷ after) h =
    let other : (d == b'\'') ≡ false = h in rw (quoted_value, other) refl

quoted_value-pair :
    (more text after : Bytes)
    → quoted_value more ≡ some (text, after)
    → quoted_value (b'\'' ∷ b'\'' ∷ more) ≡ some (b'\'' ∷ text, after)
unfolding quoted_value
quoted_value-pair more text after h = rw (quoted_value, h) refl

-- Behind its opening quote, a text with its quotes doubled is read up to the closing quote, if no
-- further quote follows: the result is the text and what stands behind.
pub quoted_value-with_quotes_doubled :
    (text after : Bytes)
    → (char_at after == b'\'') ≡ false
    → quoted_value (with_quotes_doubled text ++ (b'\'' ∷ after)) ≡ some (text, after)
unfolding with_quotes_doubled
quoted_value-with_quotes_doubled [] after h = quoted_value-end after h
quoted_value-with_quotes_doubled (c ∷ text) after h =
    let rest = quoted_value-with_quotes_doubled text after h in
    elim (Bool-cases (c == b'\'')) [
      | inl e ↦ rw e (
          quoted_value-pair (with_quotes_doubled text ++ (b'\'' ∷ after)) text after rest
          ∙ ap (λ c. some (c ∷ text, after)) (sym ((==_iff c b'\'').0 e)))
      | inr e ↦
          rw e
            (quoted_value-plain c (with_quotes_doubled text ++ (b'\'' ∷ after)) text after e rest)
    ]
