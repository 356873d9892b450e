-- ===== src/Sql.antt =====
-- include/sql/database.h: the store of an earlier version, in one header.
pub mod Errors
pub mod Stream
pub mod Entry
pub mod Log
pub mod Store
