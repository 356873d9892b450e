-- ===== src/Kv.antt =====
-- The key-value store of include/kv and src/kv.
pub mod Entry
pub mod EntryCodec
pub mod Log
pub mod KeyValue
