-- ===== src/Examples/Tables.antt =====
-- Examples for tables in a store.
use database_45_steps.Prelude.{
  ℕ, ◌≡◌, refl, arith, true, false, none, some, [], ◌∷◌, get_elem?, if◌then◌else◌, beq_bytes,
}
use database_45_steps.Core.Types.{Bytes}
use database_45_steps.Core.DbError.{bad_key, ok, fail, table_not_found}
use database_45_steps.Core.BitUtils.{pack_le, push_u32, push_str}
use database_45_steps.Core.Unix.{platform_seek, platform_write, platform_sync}
use database_45_steps.Core.Platform.Laws.{File}
use database_45_steps.Kv.EntryCodec.{encode}
use database_45_steps.Kv.Log.{write}
use database_45_steps.Kv.KeyValue.{KeyValue, WriteMode, empty_map, get, set, set_ex, del}
use database_45_steps.Table.Cell.{Row, make_i64, make_str}
use database_45_steps.Table.Tables.Neighbours.{select_others}
use database_45_steps.Table.Int64.{pos, pack_le_i64}
use database_45_steps.Table.CellCodec.{encode_cell}
use database_45_steps.Table.Schema.{Schema, new_schema, compute_metadata}
use database_45_steps.Table.Schema.Metadata.{has}
use database_45_steps.Table.SchemaCodec.{encode_schema}
use database_45_steps.Table.RowCodec.{encode_key, encode_val}
use database_45_steps.Table.Tables.{
  Table, select, write_row, delete, load_schema, table_open, create, get_next_id, save_schema,
  open_or_create,
}
use database_45_steps.Table.Tables.Rows.{
  HaveSameKey, select-write_row, select-delete, write_row_apart,
}
use database_45_steps.Table.SchemaCodec.KeyColumns.{IsWritable, HasKeyColumns}
use database_45_steps.Table.Tables.Unopenable.{create-bad_key}
use database_45_steps.Table.Tables.Registry.{table_open-create}
use database_45_steps.Examples.Disk.{disk}
use database_45_steps.Examples.Table.{
  cols, schema, table, row, probe, key, val, row-key, row-val, schema-IsEncodableSchema,
}

-- An empty store on an open file.
abbrev kv : KeyValue
kv = record {
  log = record { filename = 100 ∷ []; fh = record { fd = some 3; at_eof = false } };
  mem = empty_map;
}

abbrev disk_file : File
disk_file = record { content = []; offset = 0; durable = [] }

written : (write_row disk WriteMode.insert kv table row disk_file).0 ≡ ok true
unfolding write_row encode_key encode_val encode_cell pack_le pack_le_i64 compute_metadata set_ex
    write platform_seek platform_write platform_sync encode
written = refl

pub same_key : HaveSameKey schema probe row
same_key = record { widths = refl; cells = λ i h. only_first i h }
  where
    only_first : (i : ℕ) → has (0 ∷ []) i ≡ true → get_elem? probe i ≡ get_elem? row i
    only_first ℕ.zero h = refl
    only_first (ℕ.suc i) h = absurd (ground (arith, h))

select-write_row_example :
    select (write_row disk WriteMode.insert kv table row disk_file).1 table probe ≡ (ok true, row)
select-write_row_example =
    select-write_row disk 1 (116 ∷ []) cols (0 ∷ []) WriteMode.insert kv row probe key val disk_file
      (omega arith, (omega arith, tt)) row-key row-val same_key written

-- The store with that row in it.
abbrev kv_with_row : KeyValue
kv_with_row = record kv { mem = λ other. if beq_bytes key other then some val else none }

deleted : (delete disk kv_with_row table row disk_file).0 ≡ ok true
unfolding delete encode_key encode_cell pack_le pack_le_i64 del write platform_seek platform_write
    platform_sync beq_bytes encode
deleted = refl

select-delete_example :
    select (delete disk kv_with_row table row disk_file).1 table probe ≡ (ok false, probe)
select-delete_example =
    select-delete disk 1 (116 ∷ []) cols (0 ∷ []) kv_with_row row probe key disk_file row-key
      same_key deleted

-- Another table of the same columns.
abbrev other_table : Table
other_table = record { schema = new_schema 2 (117 ∷ []) cols (0 ∷ []) }

abbrev other_key : Bytes
other_key = 2 ∷ 0 ∷ 0 ∷ 0 ∷ 0 ∷ 5 ∷ 0 ∷ 0 ∷ 0 ∷ 0 ∷ 0 ∷ 0 ∷ 0 ∷ []

other-key : encode_key other_table.schema probe ≡ ok other_key
unfolding encode_key encode_cell pack_le pack_le_i64
other-key = refl

write_row_apart_example :
    let r = write_row disk WriteMode.upsert kv table row disk_file in
    (select r.1 other_table probe ≡ select kv other_table probe)
    × (load_schema r.1 (117 ∷ []) ≡ load_schema kv (117 ∷ []))
write_row_apart_example =
    write_row_apart disk WriteMode.upsert kv table other_table row probe key val other_key
      (117 ∷ []) disk_file (omega arith) (omega arith) (omega arith)
      (omega arith, (omega arith, tt)) (omega arith, (tt, tt)) row-key row-val other-key

created : (create disk kv schema disk_file).0 ≡ ok table
unfolding create load_schema get get_next_id set set_ex write pack_le platform_seek platform_write
    platform_sync compute_metadata encode_schema push_u32 push_str encode save_schema beq_bytes
created = refl

table_open-create_example :
    (table_open kv (116 ∷ []) ≡ fail table_not_found)
    × ((get_next_id disk kv disk_file).0 ≡ ok 1)
    × (table_open (create disk kv schema disk_file).1 (116 ∷ [])
        ≡ ok (record { schema = new_schema 1 (116 ∷ []) cols (0 ∷ []) }))
table_open-create_example =
    table_open-create disk kv schema disk_file table created schema-IsEncodableSchema

-- Another row of the table.
abbrev neighbour : Row
neighbour = make_i64 (pos 6) ∷ make_str (120 ∷ []) ∷ []

abbrev neighbour_key : Bytes
neighbour_key = 1 ∷ 0 ∷ 0 ∷ 0 ∷ 0 ∷ 6 ∷ 0 ∷ 0 ∷ 0 ∷ 0 ∷ 0 ∷ 0 ∷ 0 ∷ []

neighbour-key : encode_key schema neighbour ≡ ok neighbour_key
unfolding encode_key encode_cell pack_le pack_le_i64
neighbour-key = refl

select_others_example :
    (select (write_row disk WriteMode.update kv_with_row table row disk_file).1 table neighbour
      ≡ select kv_with_row table neighbour)
    × (select (delete disk kv_with_row table row disk_file).1 table neighbour
        ≡ select kv_with_row table neighbour)
select_others_example =
    select_others disk WriteMode.update kv_with_row table row neighbour key val neighbour_key 0
      disk_file (omega arith) (omega arith, (omega arith, tt)) (omega arith, (omega arith, tt))
      row-key row-val neighbour-key (omega arith) refl (λ e. cc e)

-- A schema of two columns whose key is the third.
abbrev keyless : Schema
keyless = new_schema 1 (116 ∷ []) cols (2 ∷ [])

keyless_created : (create disk kv keyless disk_file).0 ≡ ok (record { schema = keyless })
unfolding create load_schema get get_next_id set set_ex write pack_le platform_seek platform_write
    platform_sync compute_metadata encode_schema push_u32 push_str encode save_schema beq_bytes
keyless_created = refl

keyless-IsWritable : IsWritable keyless
keyless-IsWritable = record {
  id_fits = omega arith;
  name_fits = omega arith;
  cols_fit = omega arith;
  cols_named = (omega arith, (omega arith, tt));
  pkey_count_fits = omega arith;
  pkey_fits = (omega arith, tt);
}

keyless_bad : ¬ HasKeyColumns keyless
keyless_bad h = omega (arith, h.0)

create-bad_key_example :
    let kv' = (create disk kv keyless disk_file).1 in
    (table_open kv' (116 ∷ []) ≡ fail bad_key)
    × (create disk kv' schema disk_file ≡ (fail bad_key, kv', disk_file))
    × (open_or_create disk kv' schema disk_file ≡ (fail bad_key, kv', disk_file))
create-bad_key_example =
    create-bad_key disk kv keyless schema disk_file disk_file (record { schema = keyless })
      keyless_created keyless-IsWritable keyless_bad refl
