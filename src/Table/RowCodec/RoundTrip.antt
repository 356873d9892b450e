-- ===== src/Table/RowCodec/RoundTrip.antt =====
-- Decoding the key and the value that were encoded from a row.
use database_45_steps.Prelude.{
  ℕ, suc, ◌<◌, ◌^◌, ◌≡◌, refl, sym, ap, ◌∙◌, arith, inl, inr, true, false, Bool-cases, List, [],
  ◌∷◌, ◌++◌, append_assoc, append-nil, ltb, ◌==◌, length, length-append, take-append_eq,
  drop-append_eq, get_elem?, All,
}
use database_45_steps.Core.Types.{Bytes}
use database_45_steps.Core.DbError.{ok}
use database_45_steps.Core.BitUtils.{pack_le, unpack_le}
use database_45_steps.Core.BitUtils.RoundTrip.{unpack_le-pack_le, length-pack_le}
use database_45_steps.Table.Cell.{Row}
use database_45_steps.Table.CellCodec.RoundTrip.{IsEncodable}
use database_45_steps.Table.Schema.{Schema, ColumnHeader, new_schema}
use database_45_steps.Table.Schema.Metadata.{has, is_pkey-has}
use database_45_steps.Table.RowCodec.{
  key_prefix, id_separator, encode_key, encode_val, decode_at, decode_key, decode_val, all_consumed,
}
use database_45_steps.Table.RowCodec.Columns.{
  value_columns, value_columns-has, encode_from-at, decode_from-at, copy_at, decode_at-encode_at,
}
use database_45_steps.Table.RowCodec.Copy.{copy_at-has, copy_at-same, length-copy_at}

rows_equal :
    (xs ys : Row)
    → length xs ≡ length ys
    → ((i : ℕ) → i < length xs → get_elem? xs i ≡ get_elem? ys i)
    → xs ≡ ys
rows_equal [] [] l h = refl
rows_equal [] (y ∷ ys) l h = absurd (omega (arith, l))
rows_equal (x ∷ xs) [] l h = absurd (omega (arith, l))
rows_equal (x ∷ xs) (y ∷ ys) l h =
    cc (h 0 (omega arith), rows_equal xs ys (omega (arith, l)) (λ i k. h (suc i) (omega arith)))

pub key_prefix-layout :
    (schema : Schema) → key_prefix schema ≡ pack_le 4 schema.id ++ (id_separator ∷ [])
unfolding key_prefix pack_le
key_prefix-layout schema = refl

-- What an encoding that succeeded tells.
pub encode_key-body :
    (schema : Schema) (row dest : Row) (key : Bytes)
    → All IsEncodable row
    → encode_key schema row ≡ ok key
    → (length schema.cols ≡ length row)
      × ((body : Bytes) × (key ≡ pack_le 4 schema.id ++ (id_separator ∷ body))
          × (decode_at schema dest schema.pkey body ≡ (ok tt, copy_at row schema.pkey dest, [])))
unfolding encode_key
encode_key-body schema row dest key h e = elim (Bool-cases (length schema.cols == length row)) [
  | inl same ↦
      let (body, split, reads) =
        decode_at-encode_at schema row dest schema.pkey (key_prefix schema) key h
          (rw (same) at e) in
      (
        ground arith,
        (
          body,
          split
              ∙ ap (λ p. p ++ body) (key_prefix-layout schema)
              ∙ append_assoc (pack_le 4 schema.id) (id_separator ∷ []) body,
          ap (decode_at schema dest schema.pkey) (sym (append-nil body)) ∙ reads [],
        ),
      )
  | inr other ↦ absurd (cc (rw other at e))
]

decode_key-layout :
    (schema : Schema) (dest : Row) (head body : Bytes)
    → length head ≡ 4
    → unpack_le head ≡ schema.id
    → length schema.cols ≡ length dest
    → decode_key schema dest (head ++ (id_separator ∷ body))
      ≡ all_consumed (decode_at schema dest schema.pkey body)
unfolding decode_key
decode_key-layout schema dest head body l h cols = ground (
  arith,
  length-append head (id_separator ∷ body),
  take-append_eq 4 head (id_separator ∷ body),
  drop-append_eq 4 head (id_separator ∷ body),
)

-- `decode_key` puts the key cells back into any row of the right length.
pub decode_key-encode_key :
    (schema : Schema) (row dest : Row) (key : Bytes)
    → schema.id < 2 ^ 32
    → All IsEncodable row
    → length dest ≡ length row
    → encode_key schema row ≡ ok key
    → decode_key schema dest key ≡ (ok tt, copy_at row schema.pkey dest)
unfolding all_consumed
decode_key-encode_key schema row dest key small h l e =
    let (cols, (body, split, reads)) = encode_key-body schema row dest key h e in
    ap (decode_key schema dest) split
    ∙ decode_key-layout schema dest (pack_le 4 schema.id) body (length-pack_le 4 schema.id)
        (unpack_le-pack_le 4 schema.id (omega (arith, small))) (cols ∙ sym l)
    ∙ ap all_consumed reads

-- `decode_val` puts the other cells back.
pub decode_val-encode_val :
    (schema : Schema) (row dest : Row) (val : Bytes)
    → All IsEncodable row
    → length dest ≡ length row
    → encode_val schema row ≡ ok val
    → (length schema.cols ≡ length row)
      × (decode_val schema dest val
          ≡ (ok tt, copy_at row (value_columns schema 0 (length schema.cols)) dest))
unfolding encode_val decode_val all_consumed
decode_val-encode_val schema row dest val h l e =
    elim (Bool-cases (length schema.cols == length row)) [
      | inr other ↦ absurd (cc (rw other at e))
      | inl same ↦ elim (Bool-cases (ltb (length schema.cols) (length schema.pkey))) [
        | inl long ↦ absurd (cc (rw (same, long) at e))
        | inr fits ↦
            let (body, split, reads) =
              decode_at-encode_at schema row dest (value_columns schema 0 (length schema.cols)) []
                val h
                (sym (encode_from-at schema row 0 (length schema.cols) [])
                  ∙ rw (same, fits) at e) in
            (
              ground arith,
              rw (l, same)
                  (ap all_consumed (
                    decode_from-at schema dest 0 (length schema.cols) val
                    ∙ ap (decode_at schema dest (value_columns schema 0 (length schema.cols)))
                        (split ∙ sym (append-nil body))
                    ∙ reads [])),
            )
      ]
    ]

module _ (id : ℕ) (name : Bytes) (cols : List ColumnHeader) (pkey : List ℕ) where
  -- A cell of the row that is not in the key is among the value columns.
  in_value_columns :
      (i : ℕ)
      → i < length cols
      → has pkey i ≡ false
      → has (value_columns (new_schema id name cols pkey) 0 (length cols)) i ≡ true
  in_value_columns i h e =
      value_columns-has (new_schema id name cols pkey) 0 (length cols) i (omega arith) (omega arith)
        (is_pkey-has id name cols pkey i ∙ ground (arith, h, e))

  -- Decoding the value into a row that has the key cells already gives the whole row.
  pub decode_val-row :
      (row dest : Row) (val : Bytes)
      → All IsEncodable row
      → length dest ≡ length row
      → ((i : ℕ) → i < length row → has pkey i ≡ true → get_elem? dest i ≡ get_elem? row i)
      → encode_val (new_schema id name cols pkey) row ≡ ok val
      → decode_val (new_schema id name cols pkey) dest val ≡ (ok tt, row)
  decode_val-row row dest val h l key_cells e =
      let (width, decoded) =
        decode_val-encode_val (new_schema id name cols pkey) row dest val h l e in
      let columns : List ℕ = value_columns (new_schema id name cols pkey) 0 (length cols) in
      let same : copy_at row columns dest ≡ row =
        rows_equal (copy_at row columns dest) row (length-copy_at row columns dest ∙ l) (λ i k.
          let below : i < length row = omega (arith, k, l, length-copy_at row columns dest) in
          elim (Bool-cases (has pkey i)) [
            | inl in_key ↦ copy_at-same row columns dest i l below (key_cells i below in_key)
            | inr other ↦
                copy_at-has row columns dest i l below
                  (in_value_columns i (omega (arith, below, width)) other)
          ]) in
      decoded ∙ ap (λ r. (ok tt, r)) same

  -- If a row of encodable cells has a key and a value under a schema that the constructor built,
  -- with a 32-bit identifier, then `decode_key` and then `decode_val`, into any row of the same
  -- width, both succeed and give the row.
  pub decode-encode_row :
      (row dest : Row) (key val : Bytes)
      → id < 2 ^ 32
      → All IsEncodable row
      → length dest ≡ length row
      → encode_key (new_schema id name cols pkey) row ≡ ok key
      → encode_val (new_schema id name cols pkey) row ≡ ok val
      → let (status, keyed) = decode_key (new_schema id name cols pkey) dest key in
        (status ≡ ok tt) × (decode_val (new_schema id name cols pkey) keyed val ≡ (ok tt, row))
  decode-encode_row row dest key val small h l ke ve =
      let keyed = decode_key-encode_key (new_schema id name cols pkey) row dest key small h l ke in
      (
        ap (λ r. r.0) keyed,
        ap (λ r. decode_val (new_schema id name cols pkey) r.1 val) keyed
            ∙ decode_val-row row (copy_at row pkey dest) val h (length-copy_at row pkey dest ∙ l)
                (λ i k e. copy_at-has row pkey dest i l k e) ve,
      )
