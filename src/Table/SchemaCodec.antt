-- ===== src/Table/SchemaCodec.antt =====
-- include/table/schema_codec.h and src/table/schema_codec.cpp: a schema as bytes,
-- [ id(4) | name | column count(4) | (name, type tag)* | key count(4) | index(4)* ]. Memory is not
-- modelled: a `reserve` for the count that was read does not fail.
pub mod RoundTrip
pub mod KeyColumns
use database_45_steps.Prelude.{
  ℕ, zero, suc, ◌%◌, ◌^◌, Option, none, some, List, [], ◌∷◌, ◌++◌, ltb, ◌==◌, not, if◌then◌else◌,
  length,
}
use database_45_steps.Core.Types.{Bytes}
use database_45_steps.Core.DbError.{
  ErrorCode, Result, ok, err, fault, fail, ◌>>=◌, expect_more_data, bad_key, trailing_garbage,
}
use database_45_steps.Core.BitUtils.{push_u32, push_str, read_u32, read_str}
use database_45_steps.Table.Cell.{CellType, tag}
use database_45_steps.Table.CellCodec.{read_cell_type}
use database_45_steps.Table.Schema.{ColumnHeader, Schema, new_schema}

-- "@schema_" and "@counter"
abbrev pub schema_key_prefix : Bytes
schema_key_prefix = 0x40 ∷ b's' ∷ b'c' ∷ b'h' ∷ b'e' ∷ b'm' ∷ b'a' ∷ b'_' ∷ []

abbrev pub counter_key_prefix : Bytes
counter_key_prefix = 0x40 ∷ b'c' ∷ b'o' ∷ b'u' ∷ b'n' ∷ b't' ∷ b'e' ∷ b'r' ∷ []

pub push_column : Bytes → ColumnHeader → Bytes
push_column out col = push_str out col.name ++ (tag col.cell_type ∷ [])

-- The two loops of `encode`.
pub push_columns : Bytes → List ColumnHeader → Bytes
push_columns out [] = out
push_columns out (col ∷ cols) = push_columns (push_column out col) cols

pub push_indices : Bytes → List ℕ → Bytes
push_indices out [] = out
push_indices out (idx ∷ pkey) = push_indices (push_u32 out (idx % 2 ^ 32)) pkey

-- `SchemaCodec::encode`
unfoldable pub encode_schema : Schema → Bytes
unfolding push_columns push_column push_indices
encode_schema schema =
    let out = push_str (push_u32 [] schema.id) schema.name in
    let out = push_columns (push_u32 out (length schema.cols % 2 ^ 32)) schema.cols in
    push_indices (push_u32 out (length schema.pkey % 2 ^ 32)) schema.pkey

-- A read that gave nothing is `expect_more_data`.
pub expect {ℓ} : {A : Type ℓ} → Option A × Bytes → Result (A × Bytes)
expect (none, buf) = fail expect_more_data
expect (some a, buf) = ok (a, buf)

-- The loops of `decode`, with the rest of the span.
pub read_columns : ℕ → Bytes → Result (List ColumnHeader × Bytes)
read_columns zero buf = ok ([], buf)
read_columns (suc n) buf = do
  (name, buf) ← expect (read_str buf)
  (cell_type, buf) ← expect (read_cell_type buf)
  (cols, buf) ← read_columns n buf
  ok (record { name = name; cell_type = cell_type } ∷ cols, buf)

pub read_indices : ℕ → ℕ → Bytes → Result (List ℕ × Bytes)
read_indices width zero buf = ok ([], buf)
read_indices width (suc n) buf = do
  (key, buf) ← expect (read_u32 buf)
  if not (ltb key width)
      then fail bad_key
      else do (pkey, buf) ← read_indices width n buf; ok (key ∷ pkey, buf)

-- `SchemaCodec::decode`
unfoldable pub decode_schema : Bytes → Result Schema
unfolding read_columns read_indices expect
decode_schema buf = do
  (id, buf) ← expect (read_u32 buf)
  (name, buf) ← expect (read_str buf)
  (col_count, buf) ← expect (read_u32 buf)
  (cols, buf) ← read_columns col_count buf
  (pkey_count, buf) ← expect (read_u32 buf)
  (pkey, buf) ← read_indices (length cols) pkey_count buf
  if not (length buf == 0) then fail trailing_garbage else ok (new_schema id name cols pkey)
