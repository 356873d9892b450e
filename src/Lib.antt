-- ===== src/Lib.antt =====
-- A model of the embedded database of this repository: a key-value store that keeps its data in
-- memory and in an append-only log file, relational tables on top of it, and the single-header
-- store of an earlier version.
--
-- The parts, from the bottom up, and the files that model them:
--   * Core: include/core and src/core. Types is types.h (byte buffers are lists of numbers below
--     256); DbError is db_error.h (`Result` is `std::expected`, with a third case, `fault`, where
--     the code would throw or read out of range); BitUtils is the packing of bit_utils.h, and Crc
--     its checksum; Reader is reader.h and the buffer reader of test/test_utils.h. Platform is the
--     interface of platform.h, and Platform/Laws what the store relies on; Unix is
--     platform_unix.h and platform_unix.cpp, Windows is platform_windows.h and
--     platform_windows.cpp, and the Opening of each fills the laws.
--   * Kv: include/kv and src/kv. Entry and EntryCodec are entry.h, entry_codec.h and
--     entry_codec.cpp; Log is log.h, log_format.h and log.cpp; KeyValue is kv.h and kv.cpp. They
--     are over any platform. KeyValue/Session is a client of the store: sequences of its calls,
--     and the map that it is to behave like. KeyValue/Lifecycle is the stores that calls,
--     restarts and crashes lead to.
--   * Table: include/table and src/table. Int64 is `int64_t` in two's complement; Cell and CellCodec
--     are cell.h, row.h and cell_codec; Schema and SchemaCodec are schema.h and schema_codec;
--     RowCodec is row_codec; Tables is table.h and table.cpp.
--   * Sql: include/sql/database.h, which nothing but src/sql/database.cpp includes. Errors, Entry,
--     Log and Store are `db_error`, `Entry`, `Log` and `KV`; Stream is what they use of
--     `std::fstream`.
--   * Examples has concrete inputs, a POSIX system, a Windows system and a device below a stream,
--     each with one file.
--
-- How the code is read:
--   * A function of the source is a function of the same name; an operation on an object takes the
--     object's record and gives the new one back, and what a reference argument becomes is a result.
--     `KeyValue::open` is `open_store`, `Log::open` is `open_log`, `Table::open` is `table_open`,
--     `Table::Select` is `select`, and so on. The test `if (err)` is `is_error`: the value is not 0.
--   * The operating system is a parameter, `Unix.Posix` or `Windows.Win32`: a type of worlds, the
--     last error, and one function for each call. The Laws of each say what the system promises of
--     one regular file, with a view of its content, offset and durable content: a call fails and
--     has set the error, or does what it is for, where a write may be short and a read is short at
--     the end of the file only. A world may be any type, so all that the program cannot see is
--     left open. `IsFaulty` says that calls may fail; where it is false, none does.
--   * A file has one descriptor at a time. `file_size` reports the size of the file that is open.
--     A buffer that is written is shorter than 2 ^ 32 bytes; a storable entry always is.
--   * The hash map is the function from keys to optional values that its operations compute. The code
--     never iterates over it.
--   * Integers of 32 bits are cut off where the source casts or packs them. `size_t` and `long` are
--     not bounded: no sum of buffer sizes comes near 2 ^ 63.
--   * The loop of `KeyValue::open` runs on fuel. More fuel than there are entries is enough for a log
--     of entries and a tail, and more than there are bytes left is enough for any file. The same
--     holds for `KV::Open` of the single-header store.
--   * A stream has one position, for reading and writing; failbit and badbit are one bit; what it
--     holds back goes to the file once it exceeds a capacity, which is a parameter; an append to
--     the file that fails has put a proper front of the buffer there. A value that was moved from
--     is empty.
--   * A table's reference to its store is an argument beside it.
--
-- Not modelled: running out of memory; exceptions of `std::filesystem::exists` and
-- `is_directory`, which are total here; the hash of keys and the name of the error categories, which
-- have no effect on what is computed; the tests, of which test_utils.h only the buffer reader is;
-- the build files.
pub mod Prelude
pub mod Core
pub mod Kv
pub mod Table
pub mod Sql
pub mod Examples
