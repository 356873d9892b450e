-- ===== src/Examples/Table.antt =====
-- Examples for the modules below Table: a table of numbered names, with the number as its key.
use database_45_steps.Prelude.{◌≡◌, refl, arith, List, [], ◌∷◌}
use database_45_steps.Core.Types.{Bytes}
use database_45_steps.Core.DbError.{ok}
use database_45_steps.Core.BitUtils.{pack_le, unpack_le}
use database_45_steps.Table.Int64.{pos, pack_le_i64}
use database_45_steps.Table.Cell.{Cell, CellType, Row, make_i64, make_str}
use database_45_steps.Table.CellCodec.{encode_cell, decode_cell}
use database_45_steps.Table.CellCodec.Canonical.{IsRead, decode_cell-IsRead}
use database_45_steps.Table.Schema.{Schema, ColumnHeader, new_schema, compute_metadata}
use database_45_steps.Table.SchemaCodec.{encode_schema, decode_schema}
use database_45_steps.Table.SchemaCodec.RoundTrip.{IsEncodableSchema, decode_schema-encode_schema}
use database_45_steps.Table.RowCodec.{encode_key, encode_val, decode_key, decode_val}
use database_45_steps.Table.RowCodec.RoundTrip.{decode-encode_row}
use database_45_steps.Table.Tables.{Table}

abbrev pub cols : List ColumnHeader
cols =
    record { name = 110 ∷ []; cell_type = CellType.i64 }
    ∷ record { name = 115 ∷ []; cell_type = CellType.str }
    ∷ []

abbrev pub schema : Schema
schema = new_schema 1 (116 ∷ []) cols (0 ∷ [])

abbrev pub table : Table
table = record { schema = schema }

abbrev pub row : Row
row = make_i64 (pos 5) ∷ make_str (120 ∷ []) ∷ []

-- A row with the same key.
abbrev pub probe : Row
probe = make_i64 (pos 5) ∷ Cell.make_empty ∷ []

abbrev pub key : Bytes
key = 1 ∷ 0 ∷ 0 ∷ 0 ∷ 0 ∷ 5 ∷ 0 ∷ 0 ∷ 0 ∷ 0 ∷ 0 ∷ 0 ∷ 0 ∷ []

abbrev pub val : Bytes
val = 1 ∷ 0 ∷ 0 ∷ 0 ∷ 120 ∷ []

pub row-key : encode_key schema row ≡ ok key
unfolding encode_key encode_cell pack_le pack_le_i64
row-key = refl

pub row-val : encode_val schema row ≡ ok val
unfolding encode_val encode_cell pack_le compute_metadata
row-val = refl

decode-encode_row_example :
    let (status, keyed) = decode_key schema probe key in
    (status ≡ ok tt) × (decode_val schema keyed val ≡ (ok tt, row))
decode-encode_row_example =
    decode-encode_row 1 (116 ∷ []) cols (0 ∷ []) row probe key val (omega arith)
      (omega arith, (omega arith, tt)) refl row-key row-val

pub schema-IsEncodableSchema : IsEncodableSchema schema
schema-IsEncodableSchema = record {
  id_fits = omega arith;
  name_fits = omega arith;
  cols_fit = omega arith;
  cols_named = (omega arith, (omega arith, tt));
  pkey_fits = omega arith;
  pkey_in_range = (omega arith, tt);
}

decode_schema-encode_schema_example :
    decode_schema (encode_schema schema) ≡ ok (new_schema 1 (116 ∷ []) cols (0 ∷ []))
decode_schema-encode_schema_example = decode_schema-encode_schema schema schema-IsEncodableSchema

-- A string of one byte as the codec reads it, with one byte behind it.
abbrev cell_and_more : Bytes
cell_and_more = 1 ∷ 0 ∷ 0 ∷ 0 ∷ 120 ∷ 9 ∷ []

cell-decoded : decode_cell cell_and_more CellType.str ≡ (ok (make_str (120 ∷ [])), 9 ∷ [])
unfolding decode_cell unpack_le
cell-decoded = refl

decode_cell-IsRead_example : IsRead cell_and_more CellType.str (make_str (120 ∷ [])) (9 ∷ [])
decode_cell-IsRead_example =
    decode_cell-IsRead cell_and_more CellType.str (make_str (120 ∷ [])) (9 ∷ []) (omega arith)
      cell-decoded
