-- ===== src/Table/Cell.antt =====
-- include/table/cell.h and include/table/row.h: the values of a column, and rows of them.
use database_45_steps.Prelude.{ℕ, Bool, true, false, List, ◌==◌, beq_bytes}
use database_45_steps.Core.Types.{Bytes, to_bytes}
use database_45_steps.Core.DbError.{Result, ok, fault}
use database_45_steps.Table.Int64.{ℤ, pos, negsuc}

-- `Cell::Type`
pub data CellType : Type 0 where
  no_type i64 str : CellType

-- `Cell`: `std::variant<std::monostate, int64_t, bytes>`
pub data Cell : Type 0 where
  make_empty : Cell
  make_i64 : ℤ → Cell
  make_str : Bytes → Cell

abbrev pub Row : Type 0
Row = List Cell

-- `make_str(std::string_view)`
abbrev pub make_str_view : Bytes → Cell
make_str_view strv = Cell.make_str (to_bytes strv)

unfoldable pub index : Cell → ℕ
index Cell.make_empty = 0
index (Cell.make_i64 val) = 1
index (Cell.make_str val) = 2

unfoldable pub is_empty : Cell → Bool
is_empty Cell.make_empty = true
is_empty _ = false

unfoldable pub is_i64 : Cell → Bool
is_i64 (Cell.make_i64 val) = true
is_i64 _ = false

unfoldable pub is_str : Cell → Bool
is_str (Cell.make_str val) = true
is_str _ = false

-- `std::get` throws on another alternative.
unfoldable pub as_i64 : Cell → Result ℤ
as_i64 (Cell.make_i64 val) = ok val
as_i64 _ = fault

unfoldable pub as_str : Cell → Result Bytes
as_str (Cell.make_str val) = ok val
as_str _ = fault

abbrev beq_int : ℤ → ℤ → Bool
beq_int (pos a) (pos b) = a == b
beq_int (negsuc a) (negsuc b) = a == b
beq_int _ _ = false

-- `operator==`
unfoldable pub beq_cell : Cell → Cell → Bool
beq_cell Cell.make_empty Cell.make_empty = true
beq_cell (Cell.make_i64 a) (Cell.make_i64 b) = beq_int a b
beq_cell (Cell.make_str a) (Cell.make_str b) = beq_bytes a b
beq_cell _ _ = false

-- `static_cast<uint8_t>` of a type, and the comparison of two.
unfoldable pub tag : CellType → ℕ
tag CellType.no_type = 0
tag CellType.i64 = 1
tag CellType.str = 2

-- The type of the alternative that is active.
unfoldable pub type_of : Cell → CellType
type_of Cell.make_empty = CellType.no_type
type_of (Cell.make_i64 val) = CellType.i64
type_of (Cell.make_str val) = CellType.str
