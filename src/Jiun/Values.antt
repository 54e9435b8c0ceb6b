-- ===== src/Jiun/Values.antt =====
-- The two list parsers of domain/parser.c. Their loops end at the latest when no item is left of
-- MAX_LIST_ITEMS; `room` is the number of items left.
pub mod Quotes
use jungle_week6_coding_sess.Prelude.{
  ℕ, zero, suc, ◌-◌, Bool, true, false, not, ◌&&◌, Option, none, some, Bytes, List, [], ◌∷◌, ◌==◌,
  if◌then◌else◌, take, drop, maybe,
}
use jungle_week6_coding_sess.Libc.Text.{char_at}
use jungle_week6_coding_sess.Jiun.Types.{max_list_items}
use jungle_week6_coding_sess.Jiun.Text.{is_empty, skip_ws, parse_identifier, trim_copy}

-- The end of a round: `none` is an error, `some none` the end of the text, `some (some p)` the
-- text behind the comma.
unfoldable pub next_item : Bytes → Option (Option Bytes)
next_item text =
    let p = skip_ws text in
    if is_empty p
    then some none
    else if not (char_at p == b',')
    then none
    else some (some (drop 1 p))

-- An item in front of what the other rounds give.
abbrev pub with_item {ℓ} : {A : Type ℓ} → A → Option (List A) → Option (List A)
with_item item none = none
with_item item (some items) = some (item ∷ items)

abbrev pub after_item {ℓ} :
    {A : Type ℓ} → A → Option (Option Bytes) → (Bytes → Option (List A)) → Option (List A)
after_item item none loop = none
after_item item (some none) loop = some (item ∷ [])
after_item item (some (some p)) loop = with_item item (loop p)

unfoldable pub split_idents : ℕ → Bytes → Option (List Bytes)
split_idents zero text = if is_empty (skip_ws text) then some [] else none
split_idents (suc room) text =
    let p = skip_ws text in
    let item =
      maybe (parse_identifier p 256) none
        (λ (ident, after). after_item (take 255 ident) (next_item after) (split_idents room)) in
    if is_empty p then some [] else item

unfoldable pub split_csv_like_ident_list : Bytes → Option (List Bytes)
split_csv_like_ident_list inside = split_idents max_list_items inside

-- Behind the opening quote: the text up to the closing one, `''` as one quote, and the rest.
unfoldable pub quoted_value : Bytes → Option (Bytes × Bytes)
quoted_value [] = none
quoted_value (c ∷ []) = if c == b'\'' then some ([], []) else none
quoted_value (c ∷ d ∷ rest) = elim (c == b'\'' && d == b'\'') [
  | true ↦ elim (quoted_value rest) [
    | none ↦ none
    | some (text, after) ↦ some (b'\'' ∷ text, after)
  ]
  | false ↦
      let later : Option (Bytes × Bytes) = elim (quoted_value (d ∷ rest)) [
        | none ↦ none
        | some (text, after) ↦ some (c ∷ text, after)
      ] in
      if c == b'\'' then some ([], d ∷ rest) else later
]

-- The bytes before the next comma, and the rest.
unfoldable pub until_comma : Bytes → Bytes × Bytes
until_comma [] = ([], [])
until_comma (c ∷ rest) =
    let (raw, after) = until_comma rest in if c == b',' then ([], c ∷ rest) else (c ∷ raw, after)

-- A value with its flag, as the buffer of 4096 bytes holds it.
pub record Value : Type 0 where
  pub text : Bytes
  pub quoted : Bool

-- One value at `p`, where a byte stands: what is read, and the rest.
unfoldable pub read_value : Bytes → Option (Value × Bytes)
read_value p =
    let (raw, after) = until_comma p in
    let item = trim_copy (take 4095 raw) 4096 in
    let bare =
      if is_empty item then none else some (record { text = item; quoted = false }, after) in
    let quoted =
      maybe (quoted_value (drop 1 p)) none
        (λ (text, behind). some (record { text = take 4095 text; quoted = true }, behind)) in
    if char_at p == b'\'' then quoted else bare

unfoldable pub split_values : ℕ → Bytes → Option (List Value)
split_values zero text = if is_empty (skip_ws text) then some [] else none
split_values (suc room) text =
    let p = skip_ws text in
    let item =
      maybe (read_value p) none
        (λ (value, after). after_item value (next_item after) (split_values room)) in
    if is_empty p then some [] else item

unfoldable pub split_values_list : Bytes → Option (List Value)
split_values_list inside = split_values max_list_items inside
