-- ===== src/Table/CellCodec.antt =====
-- include/table/cell_codec.h and src/table/cell_codec.cpp: the encoding of a cell, and the tag of
-- its type. A span taken by reference comes back beside the result.
pub mod RoundTrip
pub mod Canonical
use database_45_steps.Prelude.{
  ℕ, ◌+◌, Option, none, some, [], ◌∷◌, ◌++◌, ltb, ◌==◌, not, if◌then◌else◌, length, take, drop, ◌%◌,
  ◌^◌,
}
use database_45_steps.Core.Types.{Bytes}
use database_45_steps.Core.DbError.{
  ErrorCode, success, make_error_code, generic_error, Result, ok, err, fail, type_mismatch,
  expect_more_data,
}
use database_45_steps.Core.BitUtils.{pack_le, unpack_le}
use database_45_steps.Table.Int64.{pack_le_i64, unpack_le_i64}
use database_45_steps.Table.Cell.{Cell, CellType, make_empty, make_i64, make_str, tag}

abbrev pub null_byte : ℕ
null_byte = 0x02

-- `EILSEQ`, the value of `std::errc::illegal_byte_sequence`
abbrev pub illegal_byte_sequence : ℕ
illegal_byte_sequence = 84

-- `CellCodec::encode`, with the buffer that it appends to.
unfoldable pub encode_cell : Cell → CellType → Bytes → ErrorCode × Bytes
unfolding tag
encode_cell Cell.make_empty expected out =
    if not (tag expected == tag CellType.no_type)
    then (make_error_code type_mismatch, out)
    else (success, out ++ (null_byte ∷ []))
encode_cell (Cell.make_i64 val) expected out =
    if not (tag expected == tag CellType.i64)
    then (make_error_code type_mismatch, out)
    else (success, out ++ pack_le_i64 val)
encode_cell (Cell.make_str val) expected out =
    if not (tag expected == tag CellType.str)
    then (make_error_code type_mismatch, out)
    else (success, (out ++ pack_le 4 (length val % 2 ^ 32)) ++ val)

abbrev decode_null : Bytes → Result Cell × Bytes
decode_null [] = (fail expect_more_data, [])
decode_null (b ∷ buf) =
    if not (b == null_byte)
    then (err (generic_error illegal_byte_sequence), b ∷ buf)
    else (ok make_empty, buf)

abbrev decode_i64 : Bytes → Result Cell × Bytes
decode_i64 buf =
    if ltb (length buf) 8
    then (fail expect_more_data, buf)
    else (ok (make_i64 (unpack_le_i64 (take 8 buf))), drop 8 buf)

abbrev decode_str : Bytes → Result Cell × Bytes
decode_str buf =
    let len = unpack_le (take 4 buf) in
    if ltb (length buf) 4
    then (fail expect_more_data, buf)
    else if ltb (length buf) (4 + len)
    then (fail expect_more_data, buf)
    else (ok (make_str (take len (drop 4 buf))), drop len (drop 4 buf))

-- `CellCodec::decode`
unfoldable pub decode_cell : Bytes → CellType → Result Cell × Bytes
decode_cell buf CellType.no_type = decode_null buf
decode_cell buf CellType.i64 = decode_i64 buf
decode_cell buf CellType.str = decode_str buf

abbrev type_of_tag : ℕ → Option CellType
type_of_tag t =
    if t == 0
    then some CellType.no_type
    else if t == 1
    then some CellType.i64
    else if t == 2
    then some CellType.str
    else none

-- `CellCodec::read_cell_type`
unfoldable pub read_cell_type : Bytes → Option CellType × Bytes
read_cell_type [] = (none, [])
read_cell_type (b ∷ buf) = (type_of_tag b, buf)
