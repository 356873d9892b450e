-- ===== src/Table/Schema.antt =====
-- include/table/schema.h: the columns of a table, and which of them are its primary key.
pub mod Metadata
use database_45_steps.Prelude.{
  ℕ, zero, suc, Bool, true, false, List, [], ◌∷◌, ltb, leb, if◌then◌else◌, length, set, get_or,
  replicate,
}
use database_45_steps.Core.Types.{Bytes}
use database_45_steps.Table.Cell.{CellType}

pub record ColumnHeader : Type 0 where
  pub name : Bytes
  pub cell_type : CellType

pub record Schema : Type 0 where
  pub id : ℕ
  pub name : Bytes
  pub cols : List ColumnHeader
  pub pkey : List ℕ
  pub pkey_map : List Bool

-- The loop of `compute_metadata`: an index beyond the columns is ignored.
pub mark : List Bool → List ℕ → List Bool
mark pkey_map [] = pkey_map
mark pkey_map (idx ∷ pkey) =
    mark (if ltb idx (length pkey_map) then set pkey_map idx true else pkey_map) pkey

-- `compute_metadata`
unfoldable pub compute_metadata : List ColumnHeader → List ℕ → List Bool
unfolding mark
compute_metadata cols pkey = mark (replicate (length cols) false) pkey

-- The constructor of `Schema`.
abbrev pub new_schema : ℕ → Bytes → List ColumnHeader → List ℕ → Schema
new_schema id name cols pkey = record {
  id = id;
  name = name;
  cols = cols;
  pkey = pkey;
  pkey_map = compute_metadata cols pkey;
}

unfoldable pub is_pkey : Schema → ℕ → Bool
is_pkey schema col_idx =
    if leb (length schema.pkey_map) col_idx then false else get_or schema.pkey_map col_idx false
