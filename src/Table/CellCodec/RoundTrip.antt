-- ===== src/Table/CellCodec/RoundTrip.antt =====
-- `encode_cell`, and `decode_cell` on what it wrote.
use database_45_steps.Prelude.{
  ◌≡◌, ◌<◌, ◌^◌, ◌%◌, refl, ap, ◌∙◌, arith, ◌⊎◌, [], ◌∷◌, ◌++◌, append_assoc, some, length,
  length-append, take-append, drop-append, take-append_eq, drop-append_eq, inl, inr,
}
use database_45_steps.Core.Types.{Bytes}
use database_45_steps.Core.DbError.{success, ok, make_error_code, type_mismatch}
use database_45_steps.Core.BitUtils.{pack_le, unpack_le}
use database_45_steps.Core.BitUtils.RoundTrip.{length-pack_le, unpack_le-pack_le}
use database_45_steps.Table.Int64.{IsI64, pack_le_i64, unpack_le_i64, unpack_le_i64-pack_le_i64}
use database_45_steps.Table.Cell.{Cell, CellType, make_i64, make_str, tag, type_of}
use database_45_steps.Table.CellCodec.{
  encode_cell, decode_cell, read_cell_type, decode_i64, decode_str, null_byte,
}

-- A cell whose value the encoding can hold.
abbrev pub IsEncodable : Cell → Type 0
IsEncodable Cell.make_empty = Unit
IsEncodable (Cell.make_i64 val) = IsI64 val
IsEncodable (Cell.make_str val) = length val < 2 ^ 32

-- The bytes of a cell.
unfoldable pub cell_bytes : Cell → Bytes
cell_bytes Cell.make_empty = null_byte ∷ []
cell_bytes (Cell.make_i64 val) = pack_le_i64 val
cell_bytes (Cell.make_str val) = pack_le 4 (length val % 2 ^ 32) ++ val

-- `CellCodec::encode` on a cell of the expected type succeeds and appends the bytes of the cell;
-- on a cell of another type it reports `type_mismatch` and appends nothing.
pub encode_cell_lem :
    (c : Cell) (expected : CellType) (out : Bytes)
    → ((type_of c ≡ expected) × (encode_cell c expected out ≡ (success, out ++ cell_bytes c)))
      ⊎ (¬ (type_of c ≡ expected)
          × (encode_cell c expected out ≡ (make_error_code type_mismatch, out)))
unfolding encode_cell cell_bytes type_of tag
encode_cell_lem Cell.make_empty CellType.no_type out = inl (refl, refl)
encode_cell_lem Cell.make_empty CellType.i64 out = inr (λ h. cc h, refl)
encode_cell_lem Cell.make_empty CellType.str out = inr (λ h. cc h, refl)
encode_cell_lem (Cell.make_i64 val) CellType.no_type out = inr (λ h. cc h, refl)
encode_cell_lem (Cell.make_i64 val) CellType.i64 out = inl (refl, refl)
encode_cell_lem (Cell.make_i64 val) CellType.str out = inr (λ h. cc h, refl)
encode_cell_lem (Cell.make_str val) CellType.no_type out = inr (λ h. cc h, refl)
encode_cell_lem (Cell.make_str val) CellType.i64 out = inr (λ h. cc h, refl)
encode_cell_lem (Cell.make_str val) CellType.str out =
    inl (refl, ap (λ bs. (success, bs)) (append_assoc out _ val))

length-pack_le_i64 : (v : _) → length (pack_le_i64 v) ≡ 8
unfolding pack_le_i64
length-pack_le_i64 v = length-pack_le 8 _

decode_i64-append :
    (buf rest : Bytes)
    → length buf ≡ 8
    → decode_i64 (buf ++ rest) ≡ (ok (make_i64 (unpack_le_i64 buf)), rest)
decode_i64-append buf rest h =
    ground (arith, length-append buf rest, take-append_eq 8 buf rest, drop-append_eq 8 buf rest)

decode_str-append :
    (head val rest : Bytes)
    → length head ≡ 4
    → unpack_le head ≡ length val
    → decode_str (head ++ (val ++ rest)) ≡ (ok (make_str val), rest)
decode_str-append head val rest h k = ground (
  arith,
  length-append head (val ++ rest),
  length-append val rest,
  take-append_eq 4 head (val ++ rest),
  drop-append_eq 4 head (val ++ rest),
  take-append val rest,
  drop-append val rest,
)

-- A cell that is empty, or an integer of 64 bits, or a string whose length fits 32 bits, is
-- decoded from its bytes, followed by any bytes, and those are left.
pub decode_cell-cell_bytes :
    (c : Cell) (rest : Bytes)
    → IsEncodable c
    → decode_cell (cell_bytes c ++ rest) (type_of c) ≡ (ok c, rest)
unfolding decode_cell cell_bytes type_of
decode_cell-cell_bytes Cell.make_empty rest h = refl
decode_cell-cell_bytes (Cell.make_i64 val) rest h =
    decode_i64-append (pack_le_i64 val) rest (length-pack_le_i64 val)
    ∙ ap (λ v. (ok (make_i64 v), rest)) (unpack_le_i64-pack_le_i64 val h)
decode_cell-cell_bytes (Cell.make_str val) rest h =
    ap decode_str (append_assoc (pack_le 4 (length val % 2 ^ 32)) val rest)
    ∙ decode_str-append (pack_le 4 (length val % 2 ^ 32)) val rest (length-pack_le 4 _)
        (unpack_le-pack_le 4 (length val % 2 ^ 32) (omega arith) ∙ omega (arith, h))

-- The tag of a type is read back as that type.
pub read_cell_type-tag :
    (t : CellType) (rest : Bytes) → read_cell_type (tag t ∷ rest) ≡ (some t, rest)
unfolding read_cell_type tag
read_cell_type-tag CellType.no_type rest = refl
read_cell_type-tag CellType.i64 rest = refl
read_cell_type-tag CellType.str rest = refl
