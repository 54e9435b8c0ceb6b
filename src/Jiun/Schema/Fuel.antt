-- ===== src/Jiun/Schema/Fuel.antt =====
-- The fuel of the loops of domain/schema.c.
use jungle_week6_coding_sess.Prelude.{
  ℕ, zero, suc, ◌-◌, ◌<◌, ◌≤◌, ◌≡◌, ◌⊎◌, refl, not, Bytes, List, [], ◌∷◌, ◌++◌, ◌==◌, leb,
  if◌then◌else◌, length, take, drop, codes, length-drop, arith, Option, some, none, maybe, inl, inr,
  Option-cases, Bool-cases,
}
use jungle_week6_coding_sess.Libc.Text.{char_at, strstr, strchr}
use jungle_week6_coding_sess.Libc.Text.Search.{strstr-length, strchr-length}
use jungle_week6_coding_sess.Jiun.Types.{Column, TableSchema, max_columns}
use jungle_week6_coding_sess.Jiun.Text.{skip_ws}
use jungle_week6_coding_sess.Jiun.Schema.{
  Run, returned, before_double_quote, schema_of, extract_from, extract_json_string_after_key,
  name_key, type_key, columns_from,
}

length-skip_ws : (text : Bytes) → length (skip_ws text) ≤ length text
unfolding skip_ws
length-skip_ws [] = omega arith
length-skip_ws (c ∷ rest) = ground (arith, length-skip_ws rest)

module _ (key : Bytes) (out_sz : ℕ) where
  -- Where the loop stands after a round that does not end it.
  abbrev value_at : Bytes → Bytes
  value_at colon = skip_ws (drop 1 colon)

  value_at-shorter :
      (p found colon : Bytes)
      → strstr p key ≡ some found
      → strchr (drop (length key) found) b':' ≡ some colon
      → length (value_at colon) < length p
  value_at-shorter p found colon h k = omega (
    arith,
    length-skip_ws (drop 1 colon),
    length-drop 1 colon,
    strchr-length _ _ colon k,
    length-drop (length key) found,
    strstr-length p key found h,
  )

  extract_from-returned :
      (fuel : ℕ) (p : Bytes)
      → length p < fuel
      → (result : Option Bytes) × (extract_from fuel key out_sz p ≡ returned result)
  unfolding extract_from
  extract_from-returned zero p h = absurd (omega arith)
  extract_from-returned (suc fuel) p h = elim (Option-cases (strstr p key)) [
    | inl e ↦ (none, rw (extract_from, e) refl)
    | inr (found, e) ↦ elim (Option-cases (strchr (drop (length key) found) b':')) [
      | inl e' ↦ (none, rw (extract_from, e, e') refl)
      | inr (colon, e') ↦
          let value = value_at colon in
          let shorter = value_at-shorter p found colon e e' in
          let (later, next) = extract_from-returned fuel value (omega arith) in
          elim (Bool-cases (not (char_at value == b'"'))) [
            | inl q ↦ (later, rw (extract_from, e, e', q, next) refl)
            | inr q ↦ (
              maybe (before_double_quote (drop 1 value)) none
                  (λ text. some (take (out_sz - 1) text)),
              rw (extract_from, e, e', q) refl,
            )
          ]
    ]
  ]

-- The search for the value of a key does not run out of fuel.
pub extract_json_string-returned :
    (key start_at : Bytes) (out_sz : ℕ)
    → (result : Option Bytes) × (extract_json_string_after_key key start_at out_sz
        ≡ returned result)
unfolding extract_json_string_after_key
extract_json_string-returned key start_at out_sz =
    extract_from-returned key out_sz (suc (length start_at)) start_at (omega arith)

-- The result is that there is none, or one.
returned-cases :
    {A : Type 0} (run : Run (Option A))
    → (result : Option A) × (run ≡ returned result)
    → (run ≡ returned none) ⊎ ((x : A) × (run ≡ returned (some x)))
returned-cases run (none, e) = inl e
returned-cases run (some x, e) = inr (x, e)

extract_json_string-cases :
    (key start_at : Bytes) (out_sz : ℕ)
    → (extract_json_string_after_key key start_at out_sz ≡ returned none)
      ⊎ ((text : Bytes) × (extract_json_string_after_key key start_at out_sz
            ≡ returned (some text)))
extract_json_string-cases key start_at out_sz =
    returned-cases (extract_json_string_after_key key start_at out_sz)
      (extract_json_string-returned key start_at out_sz)

-- Behind a key of six bytes the text is shorter.
behind_key-shorter :
    (text needle found : Bytes)
    → strstr text needle ≡ some found
    → length needle ≡ 6
    → length (drop 6 found) < length text
behind_key-shorter text needle found h six =
    omega (arith, six, length-drop 6 found, strstr-length text needle found h)

columns_from-returned :
    (fuel : ℕ) (columns : List Column) (text : Bytes)
    → length text < fuel
    → (result : Option (List Column)) × (columns_from fuel columns text ≡ returned result)
unfolding columns_from
columns_from-returned zero columns text h = absurd (omega arith)
columns_from-returned (suc fuel) columns text h = elim (Option-cases (strstr text name_key)) [
  | inl e ↦ (some columns, rw (columns_from, e) refl)
  | inr (p, e) ↦ elim (extract_json_string-cases name_key p 256) [
    | inl n ↦ (none, rw (columns_from, e, n) refl)
    | inr (col_name, n) ↦ elim (Option-cases (strstr p type_key)) [
      | inl t ↦
          let shorter = behind_key-shorter text name_key p e refl in
          let (result, next) = columns_from-returned fuel columns (drop 6 p) (omega arith) in
          (result, rw (columns_from, e, n, t, next) refl)
      | inr (probe, t) ↦ elim (extract_json_string-cases type_key p 256) [
        | inl v ↦ (none, rw (columns_from, e, n, t, v) refl)
        | inr (col_type, v) ↦
            let shorter = behind_key-shorter p type_key probe t refl in
            let within = strstr-length text name_key p e in
            let (result, next) =
              columns_from-returned fuel
                (columns ++ record { name = col_name; type = col_type } ∷ []) (drop 6 probe)
                (omega arith) in
            elim (Bool-cases (leb max_columns (length columns))) [
              | inl m ↦ (none, rw (columns_from, e, n, t, v, m) refl)
              | inr m ↦ (result, rw (columns_from, e, n, t, v, m, next) refl)
            ]
      ]
    ]
  ]
]

-- Whatever the text of a schema file, its loops over the keys and over the columns return a result
-- within the fuel that they are given, which is the length of the text they read and one.
pub schema_of-returned :
    (json : Bytes) → (result : Option TableSchema) × (schema_of json ≡ returned result)
unfolding schema_of
schema_of-returned json = elim (extract_json_string-cases (codes "\"table\"") json 256) [
  | inl n ↦ (none, rw (schema_of, n) refl)
  | inr (table_name, n) ↦
      elim (returned-cases (columns_from (suc (length json)) [] json)
        (columns_from-returned (suc (length json)) [] json (omega arith))) [
          | inl c ↦ (none, rw (schema_of, n, c) refl)
          | inr (columns, c) ↦ (
            if length columns == 0
                then none
                else some (record { name = table_name; columns = columns }),
            rw (schema_of, n, c) refl,
          )
        ]
]
