-- ===== src/Jihyun/Sql/Quotes.antt =====
-- The quoting of values, which decode_value_token takes back.
use jungle_week6_coding_sess.Prelude.{
  ℕ, ◌≡◌, refl, sym, ap, ◌∙◌, false, Bytes, [], ◌∷◌, ◌==◌, ==_iff, if◌then◌else◌, arith, Bool-cases,
  inl, inr, ◌+◌, ◌-◌, ◌++◌, length, length-append, take, drop, take-append, drop-append, le→not_ltb,
}
use mathlib.Core.List.{reverse, reverse-append, reverse-reverse}
use jungle_week6_coding_sess.Jihyun.Text.{
  skip_spaces, is_space, trim_right, trim_inplace, trim_copy_range, char_at,
}
use jungle_week6_coding_sess.Jihyun.Text.Compare.{trim_inplace-trim_copy_range}
use jungle_week6_coding_sess.Jihyun.Sql.Scan.{unescape, is_quoted, decode_value_token}

-- Every quote of the text doubled.
unfoldable pub escape : Bytes → Bytes
escape [] = []
escape (c ∷ text) = let rest = escape text in if c == b'\'' then b'\'' ∷ b'\'' ∷ rest else c ∷ rest

unescape-cons :
    (c : ℕ) (text : Bytes) → (c == b'\'') ≡ false → unescape (c ∷ text) ≡ c ∷ unescape text
unfolding unescape
unescape-cons c [] h = refl
unescape-cons c (d ∷ text) h = rw (h, unescape) refl

unescape-quotes : (text : Bytes) → unescape (b'\'' ∷ b'\'' ∷ text) ≡ b'\'' ∷ unescape text
unfolding unescape
unescape-quotes text = refl

-- Unescaping gives back every text whose quotes were doubled.
pub unescape-escape : (text : Bytes) → unescape (escape text) ≡ text
unfolding escape
unescape-escape [] = unfold unescape in refl
unescape-escape (c ∷ text) = elim (Bool-cases (c == b'\'')) [
  | inr other ↦ rw other (unescape-cons c (escape text) other ∙ ap (◌∷◌ c) (unescape-escape text))
  | inl quote ↦
      let is_quote : c ≡ b'\'' = omega (arith, (==_iff c b'\'').0 quote) in
      rw quote (
        unescape-quotes (escape text)
        ∙ ap (◌∷◌ b'\'') (unescape-escape text)
        ∙ ap (λ q. q ∷ text) (sym is_quote))
]

-- The text in single quotes, as a value of an INSERT statement.
abbrev pub quoted : Bytes → Bytes
quoted text = b'\'' ∷ (escape text ++ b'\'' ∷ [])

reverse-snoc : (text : Bytes) → reverse (text ++ b'\'' ∷ []) ≡ b'\'' ∷ reverse text
reverse-snoc text = reverse-append text (b'\'' ∷ [])

skip_spaces-quote : (text : Bytes) → skip_spaces (b'\'' ∷ text) ≡ b'\'' ∷ text
unfolding skip_spaces is_space
skip_spaces-quote text = refl

trim_right-quoted : (text : Bytes) → trim_right (text ++ b'\'' ∷ []) ≡ text ++ b'\'' ∷ []
unfolding trim_right
trim_right-quoted text =
    ap (λ s. reverse (skip_spaces s)) (reverse-snoc text)
    ∙ ap reverse (skip_spaces-quote (reverse text))
    ∙ sym (ap reverse (reverse-snoc text))
    ∙ reverse-reverse (text ++ b'\'' ∷ [])

-- A value in quotes, with the quotes in it doubled, is decoded to its text.
pub decode_value_token-quoted : (text : Bytes) → decode_value_token (quoted text) ≡ text
unfolding decode_value_token is_quoted char_at
decode_value_token-quoted text =
    let inner = escape text in
    let trimmed : trim_inplace (quoted text) ≡ quoted text =
      trim_inplace-trim_copy_range (quoted text)
      ∙ (unfold trim_copy_range in
          ap trim_right (skip_spaces-quote (inner ++ b'\'' ∷ []))
          ∙ trim_right-quoted (b'\'' ∷ inner)) in
    let size : length (quoted text) ≡ length inner + 2 =
      omega (arith, length-append inner (b'\'' ∷ [])) in
    let last : drop (length inner + 1) (quoted text) ≡ b'\'' ∷ [] =
      drop-append (length inner + 1) (b'\'' ∷ inner) (b'\'' ∷ []) (omega arith) in
    let middle : take (length inner) (drop 1 (quoted text)) ≡ inner =
      unfold drop in take-append (length inner) inner (b'\'' ∷ []) refl in
    let one : length inner + 2 - 1 ≡ length inner + 1 = omega arith in
    let two : length inner + 2 - 2 ≡ length inner = omega arith in
    rw (trimmed, size, le→not_ltb (length inner + 2) 2 (omega arith), one, two, last, middle)
      (unescape-escape text)
