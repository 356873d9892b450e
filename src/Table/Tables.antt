-- ===== src/Table/Tables.antt =====
-- include/table/table.h and src/table/table.cpp: tables of rows in a key-value store. The store that
-- a table refers to is passed beside it.
pub mod Rows
pub mod Neighbours
pub mod Registry
pub mod Unopenable
pub mod Durable
use database_45_steps.Prelude.{
  ℕ, ◌+◌, ◌%◌, ◌^◌, Bool, true, false, Option, none, some, ◌++◌, ltb, if◌then◌else◌, length, take,
}
use database_45_steps.Core.Types.{Bytes, to_bytes}
use database_45_steps.Core.DbError.{
  ErrorCode, is_db_error, Result, ok, err, fault, fail, ◌>>=◌, expect_more_data, table_not_found,
  table_already_exists,
}
use database_45_steps.Core.BitUtils.{pack_le, unpack_le}
use database_45_steps.Core.Platform.{Platform}
use database_45_steps.Core.Platform.Laws.{
  File, View, FileLaws, PathLaws, unread, IsOn, IsReading, unread_of, SeekOutcome, WriteOutcome,
  SyncOutcome, OpenOutcome, HasSynced,
}
use database_45_steps.Kv.KeyValue.{KeyValue, WriteMode, get, set, set_ex, del}
use database_45_steps.Table.Cell.{Row}
use database_45_steps.Table.Schema.{Schema}
use database_45_steps.Table.SchemaCodec.{
  schema_key_prefix, counter_key_prefix, encode_schema, decode_schema,
}
use database_45_steps.Table.RowCodec.{Status, encode_key, encode_val, decode_val}
use database_45_steps.Table.RowCodec

pub record Table : Type 0 where
  pub schema : Schema

unfoldable pub schema_registry_key : Bytes → Bytes
schema_registry_key name = schema_key_prefix ++ name

pub found_schema : Option Bytes → Result (Option Schema)
found_schema none = ok none
found_schema (some val) = do schema ← decode_schema val; ok (some schema)

unfoldable pub load_schema : KeyValue → Bytes → Result (Option Schema)
unfolding schema_registry_key found_schema
load_schema kv name = get kv (schema_registry_key name) >>= found_schema

-- The counter's value, or 1 where there is none.
pub current_id : Option Bytes → Result ℕ
current_id none = ok 1
current_id (some val) =
    if ltb (length val) 4 then fail expect_more_data else ok (unpack_le (take 4 val))

abbrev pub opened_table : Option Schema → Result Table
opened_table none = fail table_not_found
opened_table (some schema) = ok (record { schema = schema })

-- `Table::open`
unfoldable pub table_open : KeyValue → Bytes → Result Table
unfolding load_schema
table_open kv name = load_schema kv name >>= opened_table

-- What `Select` does with the value that it found, and the row that it fills.
pub selected : Status × Row → Result Bool × Row
selected (ok u, row) = (ok true, row)
selected (err e, row) = (err e, row)
selected (fault, row) = (fault, row)

pub fill_row : Schema → Row → Result (Option Bytes) → Result Bool × Row
fill_row schema row (err e) = (err e, row)
fill_row schema row fault = (fault, row)
fill_row schema row (ok none) = (ok false, row)
fill_row schema row (ok (some val)) = selected (decode_val schema row val)

-- `Table::Select`
unfoldable pub select : KeyValue → Table → Row → Result Bool × Row
unfolding fill_row selected
select kv table row = fill_row table.schema row (encode_key table.schema row >>= get kv)

-- `Table::new_row`
abbrev pub new_row : Table → Row
new_row table = RowCodec.new_row table.schema

module _ (os : Platform) where
  open os use {World}

  unfoldable pub save_schema : KeyValue → Schema → World → Result Bool × KeyValue × World
  unfolding schema_registry_key
  save_schema kv schema w = set os kv (schema_registry_key schema.name) (encode_schema schema) w

  -- The end of `get_next_id`: the incremented counter is stored, and wraps around at 2 ^ 32.
  pub store_next : Result ℕ → KeyValue → World → Result ℕ × KeyValue × World
  store_next (err e) kv w = (err e, kv, w)
  store_next fault kv w = (fault, kv, w)
  store_next (ok id) kv w =
      let (stored, kv', w') =
        set os kv (to_bytes counter_key_prefix) (pack_le 4 ((id + 1) % 2 ^ 32)) w in
      (stored >>= (λ changed. ok id), kv', w')

  unfoldable pub get_next_id : KeyValue → World → Result ℕ × KeyValue × World
  unfolding store_next current_id
  get_next_id kv w = store_next (get kv (to_bytes counter_key_prefix) >>= current_id) kv w

  -- The end of `create`, with the identifier that the table is given.
  pub register : Schema → Result ℕ × KeyValue × World → Result Table × KeyValue × World
  register schema (err e, kv, w) = (err e, kv, w)
  register schema (fault, kv, w) = (fault, kv, w)
  register schema (ok new_id, kv, w) =
      let named : Schema = record schema { id = new_id } in
      let (saved, kv', w') = save_schema kv named w in
      (saved >>= (λ changed. ok (record { schema = named })), kv', w')

  pub create_unless :
      Result (Option Schema) → KeyValue → Schema → World → Result Table × KeyValue × World
  create_unless (err e) kv schema w = (err e, kv, w)
  create_unless fault kv schema w = (fault, kv, w)
  create_unless (ok (some old)) kv schema w = (fail table_already_exists, kv, w)
  create_unless (ok none) kv schema w = register schema (get_next_id kv w)

  -- `Table::create`
  unfoldable pub create : KeyValue → Schema → World → Result Table × KeyValue × World
  unfolding create_unless register
  create kv schema w = create_unless (load_schema kv schema.name) kv schema w

  -- `Table::open_or_create`
  unfoldable pub open_or_create : KeyValue → Schema → World → Result Table × KeyValue × World
  open_or_create kv schema w = elim (table_open kv schema.name) [
    | ok table ↦ (ok table, kv, w)
    | err e ↦ if is_db_error e table_not_found then create kv schema w else (err e, kv, w)
    | fault ↦ (fault, kv, w)
  ]

  -- What `Insert`, `Update` and `Upsert` have in common.
  pub write_encoded :
      Result Bytes → Result Bytes → WriteMode → KeyValue → World → Result Bool × KeyValue × World
  write_encoded (err e) val mode kv w = (err e, kv, w)
  write_encoded fault val mode kv w = (fault, kv, w)
  write_encoded (ok key) (err e) mode kv w = (err e, kv, w)
  write_encoded (ok key) fault mode kv w = (fault, kv, w)
  write_encoded (ok key) (ok val) mode kv w = set_ex os kv key val mode w

  unfoldable pub write_row :
      WriteMode → KeyValue → Table → Row → World → Result Bool × KeyValue × World
  unfolding write_encoded
  write_row mode kv table row w =
      write_encoded (encode_key table.schema row) (encode_val table.schema row) mode kv w

  -- `Table::Insert`
  unfoldable pub insert : KeyValue → Table → Row → World → Result Bool × KeyValue × World
  unfolding write_row
  insert kv table row w = write_row WriteMode.insert kv table row w

  -- `Table::Update`
  unfoldable pub update : KeyValue → Table → Row → World → Result Bool × KeyValue × World
  unfolding write_row
  update kv table row w = write_row WriteMode.update kv table row w

  -- `Table::Upsert`
  unfoldable pub upsert : KeyValue → Table → Row → World → Result Bool × KeyValue × World
  unfolding write_row
  upsert kv table row w = write_row WriteMode.upsert kv table row w

  pub delete_encoded : Result Bytes → KeyValue → World → Result Bool × KeyValue × World
  delete_encoded (err e) kv w = (err e, kv, w)
  delete_encoded fault kv w = (fault, kv, w)
  delete_encoded (ok key) kv w = del os kv key w

  -- `Table::Delete`
  unfoldable pub delete : KeyValue → Table → Row → World → Result Bool × KeyValue × World
  unfolding delete_encoded
  delete kv table row w = delete_encoded (encode_key table.schema row) kv w
