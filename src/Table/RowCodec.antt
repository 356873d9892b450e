-- ===== src/Table/RowCodec.antt =====
-- include/table/row_codec.h and src/table/row_codec.cpp: a row as a key and a value of the store,
-- [ schema_id(4) | separator(1) | primary-key cells ] and [ other cells ].
pub mod Columns
pub mod Copy
pub mod RoundTrip
pub mod Keys
use database_45_steps.Prelude.{
  ℕ, zero, suc, Bool, true, false, Option, none, some, List, [], ◌∷◌, ltb, ◌==◌, not, if◌then◌else◌,
  length, set, get_or, get_elem?, take, drop, replicate, copy_to,
}
use database_45_steps.Core.Types.{Bytes}
use database_45_steps.Core.DbError.{
  ErrorCode, is_error, Result, ok, err, fault, fail, ◌>>=◌, inconsistent_length, expect_more_data,
  bad_key, trailing_garbage,
}
use database_45_steps.Core.BitUtils.{pack_le, unpack_le}
use database_45_steps.Table.Cell.{Cell, Row}
use database_45_steps.Table.CellCodec.{encode_cell, decode_cell}
use database_45_steps.Table.Schema.{Schema, ColumnHeader, is_pkey}

-- A returned `std::error_code`, where the code may fault: the empty one is `ok tt`.
abbrev pub Status : Type 0
Status = Result {0} Unit

abbrev pub key_prefix_size : ℕ
key_prefix_size = 5

abbrev pub id_separator : ℕ
id_separator = 0x00

unfoldable pub key_prefix : Schema → Bytes
key_prefix schema =
    set (copy_to (replicate key_prefix_size 0) 0 (pack_le 4 schema.id)) 4 id_separator

-- `new_row`
unfoldable pub new_row : Schema → Row
new_row schema = replicate (length schema.cols) Cell.make_empty

-- One turn of an encoding loop. `row[idx]` or `cols_[idx]` out of range is a fault.
pub put_cell : Option Cell → Option ColumnHeader → Bytes → Result Bytes
put_cell (some c) (some col) out =
    let (e, out') = encode_cell c col.cell_type out in if is_error e then err e else ok out'
put_cell _ _ out = fault

-- The loop of `encode_key`, over the indices of the primary key.
unfoldable pub encode_at : Schema → Row → List ℕ → Bytes → Result Bytes
unfolding put_cell
encode_at schema row [] out = ok out
encode_at schema row (idx ∷ indices) out =
    put_cell (get_elem? row idx) (get_elem? schema.cols idx) out >>= encode_at schema row indices

-- The loop of `encode_val`, over the next `n` columns from `idx` on.
unfoldable pub encode_from : Schema → Row → ℕ → ℕ → Bytes → Result Bytes
unfolding put_cell is_pkey
encode_from schema row idx zero out = ok out
encode_from schema row idx (suc n) out = elim (is_pkey schema idx) [
  | true ↦ encode_from schema row (suc idx) n out
  | false ↦
      put_cell (get_elem? row idx) (get_elem? schema.cols idx) out
      >>= encode_from schema row (suc idx) n
]

unfoldable pub encode_key : Schema → Row → Result Bytes
unfolding encode_at key_prefix
encode_key schema row =
    if not (length schema.cols == length row)
    then fail inconsistent_length
    else encode_at schema row schema.pkey (key_prefix schema)

-- With more key columns than columns, `non_pkey_count` wraps around and `reserve` throws.
unfoldable pub encode_val : Schema → Row → Result Bytes
unfolding encode_from
encode_val schema row =
    if not (length schema.cols == length row)
    then fail inconsistent_length
    else if ltb (length schema.cols) (length schema.pkey)
    then fault
    else encode_from schema row 0 (length schema.cols) []

-- One cell of a decoding loop.
pub get_cell : Option ColumnHeader → Bytes → Result Cell × Bytes
get_cell none buf = (fault, buf)
get_cell (some col) buf = decode_cell buf col.cell_type

-- The loop of `decode_key`. The row is a reference, and keeps the cells set before an error.
unfoldable pub decode_at : Schema → Row → List ℕ → Bytes → Status × Row × Bytes
unfolding get_cell
decode_at schema row [] buf = (ok tt, row, buf)
decode_at schema row (idx ∷ indices) buf =
    let (cell, rest) = get_cell (get_elem? schema.cols idx) buf in
    elim cell [
      | ok c ↦ decode_at schema (set row idx c) indices rest
      | err e ↦ (err e, row, rest)
      | fault ↦ (fault, row, rest)
    ]

-- The loop of `decode_val`.
unfoldable pub decode_from : Schema → Row → ℕ → ℕ → Bytes → Status × Row × Bytes
unfolding get_cell is_pkey
decode_from schema row idx zero buf = (ok tt, row, buf)
decode_from schema row idx (suc n) buf = elim (is_pkey schema idx) [
  | true ↦ decode_from schema row (suc idx) n buf
  | false ↦
      let (cell, rest) = get_cell (get_elem? schema.cols idx) buf in
      elim cell [
        | ok c ↦ decode_from schema (set row idx c) (suc idx) n rest
        | err e ↦ (err e, row, rest)
        | fault ↦ (fault, row, rest)
      ]
]

-- The end of both: bytes that are left over are an error.
pub all_consumed : Status × Row × Bytes → Status × Row
all_consumed (ok u, row, rest) = (if length rest == 0 then ok tt else fail trailing_garbage, row)
all_consumed (err e, row, rest) = (err e, row)
all_consumed (fault, row, rest) = (fault, row)

unfoldable pub decode_key : Schema → Row → Bytes → Status × Row
unfolding decode_at all_consumed
decode_key schema row key =
    if not (length schema.cols == length row)
    then (fail inconsistent_length, row)
    else if ltb (length key) key_prefix_size
    then (fail expect_more_data, row)
    else if not (unpack_le (take 4 key) == schema.id)
    then (fail bad_key, row)
    else if not (get_or (drop 4 key) 0 0 == id_separator)
    then (fail bad_key, row)
    else all_consumed (decode_at schema row schema.pkey (drop 1 (drop 4 key)))

unfoldable pub decode_val : Schema → Row → Bytes → Status × Row
unfolding decode_from all_consumed
decode_val schema row val =
    if not (length schema.cols == length row)
    then (fail inconsistent_length, row)
    else all_consumed (decode_from schema row 0 (length schema.cols) val)
