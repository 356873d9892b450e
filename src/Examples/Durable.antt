-- ===== src/Examples/Durable.antt =====
-- A row that is inserted into an empty store on the disk of this folder, and found after the store
-- was opened again.
use database_45_steps.Prelude.{
  ◌≡◌, refl, sym, arith, append-nil, AreBytes, false, true, some, [], ◌∷◌, ◌++◌, length,
}
use database_45_steps.Core.Types.{Bytes}
use database_45_steps.Core.DbError.{success, ok}
use database_45_steps.Core.BitUtils.{pack_le, unpack_le}
use database_45_steps.Core.Crc.{crc32_init, crc32_update, crc32_final, crc32_ieee}
use database_45_steps.Core.Platform.{is_open, handle_read}
use database_45_steps.Core.Unix.{
  platform_open_file, platform_read, platform_seek, platform_write, platform_sync,
}
use database_45_steps.Core.Platform.Laws.{File}
use database_45_steps.Kv.EntryCodec.{encode, decode}
use database_45_steps.Kv.EntryCodec.RoundTrip.{IsStorable}
use database_45_steps.Kv.Log.{
  Log, file_header, write, read, read_result, open_log, validate_header, seek_to_first_entry,
}
use database_45_steps.Kv.KeyValue.{
  KeyValue, WriteMode, empty_map, assign, set_ex, new_store, open_store, replay_log,
}
use database_45_steps.Kv.KeyValue.Replay.{encode_all, replayed}
use database_45_steps.Kv.KeyValue.Store.{IsConsistent, set_entry}
use database_45_steps.Table.Int64.{pack_le_i64}
use database_45_steps.Table.CellCodec.{encode_cell}
use database_45_steps.Table.Schema.{new_schema, compute_metadata}
use database_45_steps.Table.RowCodec.{encode_key, encode_val}
use database_45_steps.Table.Tables.{Table, select, write_row}
use database_45_steps.Table.Tables.Durable.{select-reopen}
use database_45_steps.Examples.Disk.{posix_file, disk, laws, paths}
use database_45_steps.Examples.Table.{cols, row, probe, key, val, row-key, row-val}
use database_45_steps.Examples.Tables.{same_key}

abbrev table : Table
table = record { schema = new_schema 1 (116 ∷ []) cols (0 ∷ []) }

abbrev log : Log
log = record { filename = 100 ∷ []; fh = record { fd = some 3; at_eof = false } }

abbrev before : KeyValue
before = record { log = log; mem = empty_map }

abbrev disk_before : File
disk_before = record { content = file_header; offset = 0; durable = file_header }

abbrev after : KeyValue
after = record { log = log; mem = assign empty_map key val }

abbrev logged_bytes : Bytes
logged_bytes = file_header ++ encode (set_entry key val)

abbrev disk_after : File
disk_after = record { content = logged_bytes; offset = length logged_bytes; durable = logged_bytes }

inserted :
    write_row disk WriteMode.insert before table row disk_before ≡ (ok true, after, disk_after)
unfolding write_row encode_key encode_val encode_cell pack_le pack_le_i64 compute_metadata set_ex
    write platform_seek platform_write platform_sync encode file_header crc32_ieee crc32_update
    crc32_final
inserted = refl

entry-IsStorable : IsStorable (set_entry key val)
entry-IsStorable = record {
  key_bytes = bytes;
  val_bytes = val_bytes;
  key_fits = omega arith;
  val_fits = omega arith;
}
  where
    bytes : AreBytes key
    bytes = ground arith

    val_bytes : AreBytes val
    val_bytes = ground arith

before-IsConsistent : IsConsistent laws before disk_before []
unfolding posix_file encode_all replayed
before-IsConsistent = record {
  on = refl;
  logged = sym (append-nil file_header);
  storable = tt;
  held = refl;
}

abbrev disk_anew : File
disk_anew = record { content = logged_bytes; offset = 0; durable = logged_bytes }

opened_anew : (open_store disk 2 (new_store (100 ∷ [])) disk_anew).0 ≡ some success
unfolding open_store replay_log open_log seek_to_first_entry read read_result decode validate_header
    pack_le unpack_le platform_open_file platform_read platform_seek handle_read is_open encode
    file_header crc32_init crc32_ieee crc32_update crc32_final
opened_anew = refl

select-reopen_example :
    select (open_store disk 2 (new_store (100 ∷ [])) disk_anew).1 table probe ≡ (ok true, row)
unfolding posix_file
select-reopen_example =
    select-reopen laws 1 (116 ∷ []) cols (0 ∷ []) WriteMode.insert before after row probe key val
      disk_before disk_after disk_anew [] 2 (omega arith, (omega arith, tt)) row-key row-val
      same_key inserted before-IsConsistent entry-IsStorable refl (paths (100 ∷ [])) refl
      (omega arith) refl opened_anew
