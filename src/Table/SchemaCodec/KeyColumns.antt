-- ===== src/Table/SchemaCodec/KeyColumns.antt =====
-- `SchemaCodec::decode` on the encoding of a schema with a key column that does not exist.
use database_45_steps.Prelude.{
  ℕ, ◌%◌, ◌^◌, ◌<◌, ◌≡◌, refl, arith, List, [], ◌∷◌, length, ltb, Bool-cases, inl, inr, All,
}
use database_45_steps.Core.DbError.{fail, bad_key}
use database_45_steps.Core.BitUtils.RoundTrip.{read_u32-push_u32, read_str-push_str}
use database_45_steps.Table.Schema.{Schema}
use database_45_steps.Table.SchemaCodec.{encode_schema, decode_schema, read_indices, expect}
use database_45_steps.Table.SchemaCodec.RoundTrip.{
  IsNamed, indices_bytes, encode_schema-layout, read_columns-columns_bytes,
}

-- A schema whose identifier, counts, lengths and key indices fit their fields; its key columns need not exist.
pub record IsWritable (schema : Schema) : Type 0 where
  pub id_fits : schema.id < 2 ^ 32
  pub name_fits : length schema.name < 2 ^ 32
  pub cols_fit : length schema.cols < 2 ^ 32
  pub cols_named : All IsNamed schema.cols
  pub pkey_count_fits : length schema.pkey < 2 ^ 32
  pub pkey_fits : All (λ idx. idx < 2 ^ 32) schema.pkey

-- The key columns exist.
abbrev pub HasKeyColumns : Schema → Type 0
HasKeyColumns schema = All (λ idx. idx < length schema.cols) schema.pkey

read_indices_bad :
    (width : ℕ) (pkey : List ℕ)
    → All (λ idx. idx < 2 ^ 32) pkey
    → ¬ All (λ idx. idx < width) pkey
    → read_indices width (length pkey) (indices_bytes pkey) ≡ fail bad_key
unfolding read_indices expect
read_indices_bad width [] fits bad = absurd (bad tt)
read_indices_bad width (idx ∷ pkey) fits bad =
    let small : idx % 2 ^ 32 ≡ idx = omega (arith, fits.0) in
    elim (Bool-cases (ltb idx width)) [
      | inl below ↦
          rw
            (
              small,
              read_u32-push_u32 idx (indices_bytes pkey) fits.0,
              below,
              read_indices_bad width pkey fits.1 (λ rest. bad (ground (arith, below), rest)),
            )
            refl
      | inr above ↦ rw (small, read_u32-push_u32 idx (indices_bytes pkey) fits.0, above) refl
    ]

-- A schema that fits its fields, but with a key column that does not exist, cannot be decoded from
-- its encoding.
pub decode_schema-bad_key :
    (schema : Schema)
    → IsWritable schema
    → ¬ HasKeyColumns schema
    → decode_schema (encode_schema schema) ≡ fail bad_key
unfolding decode_schema expect
decode_schema-bad_key schema s bad =
    rw
      (
        encode_schema-layout schema,
        read_u32-push_u32 schema.id _ s.id_fits,
        read_str-push_str schema.name _ s.name_fits,
        small (length schema.cols) s.cols_fit,
        read_u32-push_u32 (length schema.cols) _ s.cols_fit,
        read_columns-columns_bytes schema.cols _ s.cols_named,
        small (length schema.pkey) s.pkey_count_fits,
        read_u32-push_u32 (length schema.pkey) _ s.pkey_count_fits,
        read_indices_bad (length schema.cols) schema.pkey s.pkey_fits bad,
      )
      refl
  where
    small : (n : ℕ) → n < 2 ^ 32 → n % 2 ^ 32 ≡ n
    small n h = omega (arith, h)
