-- ===== src/Examples/Kv.antt =====
-- Examples for a log file of one entry, and a store on that.
use database_45_steps.Prelude.{◌<◌, ◌^◌, length, ◌≡◌, refl, arith, none, some, [], ◌∷◌, ◌++◌}
use database_45_steps.Core.Types.{Bytes}
use database_45_steps.Core.DbError.{ErrorCode}
use database_45_steps.Core.Platform.{closed_handle, handle_reader}
use database_45_steps.Core.Reader.{list_reader}
use database_45_steps.Kv.EntryCodec.{encode}
use database_45_steps.Kv.EntryCodec.Bounds.{length-encode-le}
use database_45_steps.Kv.EntryCodec.RoundTrip.{IsStorable}
use database_45_steps.Kv.Log
use database_45_steps.Kv.Log.{Log, file_header, file_header_size}
use database_45_steps.Kv.Log.Open.{Opened, open_log_outcome}
use database_45_steps.Kv.Log.Write.{Outcome, log_write_outcome}
use database_45_steps.Kv.KeyValue.{
  KeyValue, WriteMode, new_store, empty_map, open_store, replay_log, set_ex, del, is_write_due,
  found,
}
use database_45_steps.Kv.KeyValue.Replay.{encode_all, replayed}
use database_45_steps.Kv.KeyValue.Effects.{Effect, IsIdle, set_ex-Effect, del-Effect}
use database_45_steps.Kv.KeyValue.Crash.{open_store-torn, open_store-corrupt}
use database_45_steps.Kv.KeyValue.Open.{Loaded, open_store_outcome}
use database_45_steps.Kv.KeyValue.Progress.{replay_log_ends}
use database_45_steps.Kv.KeyValue.Store.{
  IsConsistent, Updated, set_entry, tombstone, set_ex_outcome, del_outcome,
}
use database_45_steps.Kv.KeyValue.Reopening.{reopen}
use database_45_steps.Kv.Log.Read.{nil-IsTail}
use database_45_steps.Examples.Disk.{posix_file, disk, view, laws, paths}
use database_45_steps.Examples.Entries.{
  first, first-IsStorable, torn_front, torn_back, first-torn, long_front, first-long, path, disk_of,
  handle,
}

-- A log file of one entry, and the store that has it open.
abbrev pub one_entry : Bytes
one_entry = file_header ++ encode_all (first ∷ [])

abbrev pub log : Log
log = record { filename = path; fh = handle }

abbrev pub kv : KeyValue
kv = record { log = log; mem = replayed empty_map (first ∷ []) }

pub kv-IsConsistent : IsConsistent laws kv (disk_of one_entry) (first ∷ [])
unfolding posix_file
kv-IsConsistent = record {
  on = refl;
  logged = refl;
  storable = (first-IsStorable, tt);
  held = refl;
}

pub second-IsStorable : IsStorable (set_entry (5 ∷ []) (6 ∷ []))
second-IsStorable = record {
  key_bytes = (omega arith, tt);
  val_bytes = (omega arith, tt);
  key_fits = omega arith;
  val_fits = omega arith;
}

open_log_outcome_example :
    Opened laws
      (view.file (disk_of one_entry))
      (Log.open_log disk (record { filename = path; fh = closed_handle }) (disk_of one_entry))
open_log_outcome_example =
    open_log_outcome laws (record { filename = path; fh = closed_handle }) (disk_of one_entry)
      (paths path) refl refl

first_small : length (encode first) < 2 ^ 32
first_small = omega (arith, length-encode-le first first-IsStorable)

log_write_outcome_example :
    Outcome laws first
      (view.file (disk_of one_entry))
      (Log.write disk log first (disk_of one_entry))
log_write_outcome_example = log_write_outcome laws log first (disk_of one_entry) refl first_small

set_ex_outcome_example :
    Updated laws kv
      (disk_of one_entry)
      (first ∷ [])
      (set_entry (5 ∷ []) (6 ∷ []))
      (is_write_due WriteMode.insert (kv.mem (5 ∷ [])) (6 ∷ []))
      (set_ex disk kv (5 ∷ []) (6 ∷ []) WriteMode.insert (disk_of one_entry))
set_ex_outcome_example =
    set_ex_outcome laws kv (5 ∷ []) (6 ∷ []) WriteMode.insert (disk_of one_entry) (first ∷ [])
      kv-IsConsistent second-IsStorable

del_outcome_example :
    Updated laws kv
      (disk_of one_entry)
      (first ∷ [])
      (tombstone (7 ∷ []))
      (found (kv.mem (7 ∷ [])))
      (del disk kv (7 ∷ []) (disk_of one_entry))
del_outcome_example =
    del_outcome laws kv (7 ∷ []) (disk_of one_entry) (first ∷ []) kv-IsConsistent (omega arith, tt)
      (omega arith)

reopen_example :
    Loaded laws
      (view.file (disk_of one_entry)).content
      kv.mem
      (open_store disk 2 (new_store path) (disk_of one_entry))
reopen_example =
    reopen laws 2 kv (disk_of one_entry) (disk_of one_entry) (first ∷ []) kv-IsConsistent
      (paths path) refl (omega arith) refl

abbrev torn_log : Bytes
torn_log = file_header ++ (encode_all (first ∷ []) ++ torn_front)

open_store_outcome_example :
    Loaded laws
      (view.file (disk_of (file_header ++ (encode_all (first ∷ []) ++ [])))).content
      (replayed empty_map (first ∷ []))
      (open_store disk 2
        (new_store path)
        (disk_of (file_header ++ (encode_all (first ∷ []) ++ []))))
unfolding posix_file
open_store_outcome_example =
    open_store_outcome laws 2 (new_store path)
      (disk_of (file_header ++ (encode_all (first ∷ []) ++ []))) (first ∷ []) [] (paths path) refl
      refl (first-IsStorable, tt) nil-IsTail (omega arith) refl

open_store-torn_example :
    Loaded laws
      (view.file (disk_of torn_log)).content
      (replayed empty_map (first ∷ []))
      (open_store disk 2 (new_store path) (disk_of torn_log))
unfolding posix_file
open_store-torn_example =
    open_store-torn laws 2 (new_store path) (disk_of torn_log) (first ∷ []) first torn_front
      torn_back 2 (paths path) refl refl (first-IsStorable, tt) first-IsStorable (omega arith)
      first-torn refl

abbrev corrupt_log : Bytes
corrupt_log = file_header ++ (encode_all (first ∷ []) ++ ((long_front ++ (3 ∷ [])) ++ encode first))

open_store-corrupt_example :
    Loaded laws
      (view.file (disk_of corrupt_log)).content
      (replayed empty_map (first ∷ []))
      (open_store disk 2 (new_store path) (disk_of corrupt_log))
unfolding posix_file
open_store-corrupt_example =
    open_store-corrupt laws 2 (new_store path) (disk_of corrupt_log) (first ∷ []) first long_front
      [] (encode first) 9 3 (paths path) refl refl (first-IsStorable, tt) first-IsStorable
      (omega arith) first-long (omega arith) (omega arith) (omega arith) refl

replay_log_ends_example :
    (e : ErrorCode) × ((replay_log disk 99 kv (disk_of torn_front)).0 ≡ some e)
unfolding posix_file
replay_log_ends_example =
    replay_log_ends laws 99 torn_front kv (disk_of torn_front) (refl, refl) (omega arith)

set_ex-Effect_example :
    Effect kv
      (disk_of one_entry)
      (7 ∷ [])
      (some (1 ∷ []))
      (IsIdle WriteMode.update (kv.mem (7 ∷ [])) (1 ∷ []))
      (set_ex disk kv (7 ∷ []) (1 ∷ []) WriteMode.update (disk_of one_entry))
set_ex-Effect_example = set_ex-Effect disk kv (7 ∷ []) (1 ∷ []) WriteMode.update (disk_of one_entry)

del-Effect_example :
    Effect kv
      (disk_of one_entry)
      (7 ∷ [])
      none
      (kv.mem (7 ∷ []) ≡ none)
      (del disk kv (7 ∷ []) (disk_of one_entry))
del-Effect_example = del-Effect disk kv (7 ∷ []) (disk_of one_entry)
