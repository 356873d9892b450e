-- ===== src/Table.antt =====
-- The relational tables of include/table and src/table, on top of the key-value store.
pub mod Int64
pub mod Cell
pub mod CellCodec
pub mod Schema
pub mod SchemaCodec
pub mod RowCodec
pub mod Tables
