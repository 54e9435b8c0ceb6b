-- ===== src/Jiun/Cells/RoundTrip.antt =====
-- A cell that was encoded and is decoded is the cell, and the words of a line are its cells.
use jungle_week6_coding_sess.Prelude.{
  ℕ, ◌+◌, ◌*◌, ◌<◌, ◌≡◌, ◌≢◌, inl, inr, refl, ap, ◌∙◌, true, false, none, some, Bytes, [], ◌∷◌,
  ◌==◌, ltb, lt→ltb, length, maybe, Option-cases, arith, All,
}
use jungle_week6_coding_sess.Jiun.Cells.{
  tab, line_feed, escape_of, encode_from, encode_cell, unescape_byte, decode_from, decode_cell,
}

-- The cell with its escapes, in a buffer without end.
unfoldable pub escaped : Bytes → Bytes
escaped [] = []
escaped (c ∷ rest) =
    let later = escaped rest in maybe (escape_of c) (c ∷ later) (λ e. b'\\' ∷ e ∷ later)

escape_of-none : (c : ℕ) → escape_of c ≡ none → (c == b'\\') ≡ false
unfolding escape_of
escape_of-none c h = ground arith

escape_of-some : (c e : ℕ) → escape_of c ≡ some e → unescape_byte e ≡ c
unfolding escape_of unescape_byte
escape_of-some c e h = ground arith

-- A buffer with two bytes for each of the cell holds all of it.
pub encode_from-escaped :
    (dst_sz j : ℕ) (src : Bytes)
    → j + 2 * length src < dst_sz
    → encode_from dst_sz j src ≡ escaped src
unfolding encode_from escaped
encode_from-escaped dst_sz j [] h = refl
encode_from-escaped dst_sz j (c ∷ src) h =
    let room : ltb (j + 2) dst_sz ≡ true = lt→ltb _ _ (omega arith) in
    elim (Option-cases (escape_of c)) [
      | inl e ↦ rw (room, e) (ap (◌∷◌ c) (encode_from-escaped dst_sz (j + 1) src (omega arith)))
      | inr (b, e) ↦
          rw (room, e)
            (ap (λ t. b'\\' ∷ b ∷ t) (encode_from-escaped dst_sz (j + 2) src (omega arith)))
    ]

decode_from-plain :
    (dst_sz j c : ℕ) (rest : Bytes)
    → (c == b'\\') ≡ false
    → ltb (j + 1) dst_sz ≡ true
    → decode_from dst_sz j (c ∷ rest) ≡ c ∷ decode_from dst_sz (j + 1) rest
unfolding decode_from
decode_from-plain dst_sz j c [] h room = rw room
decode_from-plain dst_sz j c (d ∷ rest) h room = rw (room, h)

decode_from-pair :
    (dst_sz j e : ℕ) (rest : Bytes)
    → ltb (j + 1) dst_sz ≡ true
    → decode_from dst_sz j (b'\\' ∷ e ∷ rest) ≡ unescape_byte e ∷ decode_from dst_sz (j + 1) rest
unfolding decode_from
decode_from-pair dst_sz j e rest room = rw room

pub decode_from-escaped :
    (dst_sz j : ℕ) (src : Bytes)
    → j + length src < dst_sz
    → decode_from dst_sz j (escaped src) ≡ src
unfolding escaped
decode_from-escaped dst_sz j [] h = unfold decode_from in refl
decode_from-escaped dst_sz j (c ∷ src) h =
    let room : ltb (j + 1) dst_sz ≡ true = lt→ltb _ _ (omega arith) in
    let rest = decode_from-escaped dst_sz (j + 1) src (omega arith) in
    elim (Option-cases (escape_of c)) [
      | inl e ↦
          rw e
            (decode_from-plain dst_sz j c (escaped src) (escape_of-none c e) room ∙ ap (◌∷◌ c) rest)
      | inr (b, e) ↦
          rw e (
            decode_from-pair dst_sz j b (escaped src) room ∙ (λ i. escape_of-some c b e i ∷ rest i))
    ]

-- A value fits in the buffer of a plan.
abbrev pub IsShort : Bytes → Type 0
IsShort value = length value < 4096

pub encode_cell-escaped : (value : Bytes) → IsShort value → encode_cell value 8192 ≡ escaped value
unfolding encode_cell
encode_cell-escaped value h = encode_from-escaped 8192 0 value (omega arith)

-- Every value that a plan can hold is read back from its cell.
pub decode_cell-encode_cell :
    (value : Bytes) → IsShort value → decode_cell (encode_cell value 8192) 4096 ≡ value
unfolding decode_cell
decode_cell-encode_cell value h =
    rw (encode_cell-escaped value h) (decode_from-escaped 4096 0 value (omega arith))

-- A byte that a cell can hold: it separates neither cells nor lines.
pub record IsInCell (c : ℕ) : Type 0 where
  pub no_tab : c ≢ tab
  pub no_line_feed : c ≢ line_feed

escape_of-IsInCell : (c e : ℕ) → escape_of c ≡ some e → IsInCell e
unfolding escape_of
escape_of-IsInCell c e h = record { no_tab = λ q. ground arith; no_line_feed = λ q. ground arith }

plain-IsInCell : (c : ℕ) → escape_of c ≡ none → IsInCell c
unfolding escape_of
plain-IsInCell c h = record { no_tab = λ q. ground arith; no_line_feed = λ q. ground arith }

pub escaped-IsInCell : (value : Bytes) → All IsInCell (escaped value)
unfolding escaped
escaped-IsInCell [] = tt
escaped-IsInCell (c ∷ value) =
    let rest = escaped-IsInCell value in
    elim (Option-cases (escape_of c)) [
      | inl e ↦ rw e (plain-IsInCell c e, rest)
      | inr (b, e) ↦
          let backslash : IsInCell b'\\' = record {
            no_tab = λ q. ground arith;
            no_line_feed = λ q. ground arith;
          } in
          rw e (backslash, (escape_of-IsInCell c b e, rest))
    ]
