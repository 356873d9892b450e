-- ===== src/Examples/Device.antt =====
-- A system below a stream on which every call succeeds, and the earlier store on it.
use database_45_steps.Prelude.{
  ◌≡◌, ◌≢◌, refl, arith, inr, true, false, none, some, [], ◌∷◌, ◌++◌, length, take, drop,
}
use database_45_steps.Core.Types.{Bytes}
use database_45_steps.Core.DbError.{ErrorCode}
use database_45_steps.Kv.EntryCodec.RoundTrip.{IsStorable, stored_entry}
use database_45_steps.Kv.KeyValue.{empty_map}
use database_45_steps.Kv.KeyValue.Replay.{replayed}
use database_45_steps.Kv.KeyValue.Store.{set_entry, tombstone}
use database_45_steps.Sql.Stream.{Device, Stream, new_stream}
use database_45_steps.Sql.Stream.Laws.{FileLaws, IsReady}
use database_45_steps.Sql.Entry.{new_entry, encode, decode}
use database_45_steps.Sql.Entry.Reading.{complete, Decoding}
use database_45_steps.Sql.Entry.RoundTrip.{sql_decode-encode}
use database_45_steps.Sql.Log.{write}
use database_45_steps.Sql.Log.Write.{WriteOutcome, sql_write_outcome}
use database_45_steps.Sql.Store.{Store, new_store, open_store, set, del}
use database_45_steps.Sql.Store.Replay.{encode_all, HasFailed}
use database_45_steps.Sql.Store.Reopening.{Loaded, sql_open_outcome, sql_open-torn}
use database_45_steps.Sql.Store.Ending.{sql_open_ends}
use database_45_steps.Sql.Store.Effects.{IsConsistent, Updated, sql_set_outcome, sql_del_outcome}
use database_45_steps.Examples.Entries.{first, first-IsStorable}

abbrev path : Bytes
path = 100 ∷ []

abbrev device : Device
device = record {
  World = Bytes;
  errno = λ content. 0;
  exists = λ path content. true;
  is_directory = λ path content. false;
  open_file = λ path content. (true, content);
  load = λ position size content. (some (take size (drop position content)), content);
  append = λ buf content. (some (length (content ++ buf)), content ++ buf);
  seek = λ offset content. (true, content);
  close_file = λ content. (true, content);
  capacity = 8191;
}

laws : FileLaws device path
laws = record {
  content = λ content. content;
  open_law = λ content. refl;
  load_law = λ position size content. (refl, inr refl);
  append_law = λ buf content more. inr (refl, refl);
  seek_law = λ offset content. refl;
}

abbrev open_stream : Stream
open_stream = record new_stream { is_open = true }

open_stream-IsReady : IsReady open_stream
open_stream-IsReady = record { on = refl; more = refl; sound = refl; flushed = refl }

abbrev one_entry : Bytes
one_entry = encode_all (first ∷ [])

sql_decode-encode_example :
    Decoding laws
      (encode first ++ (7 ∷ []))
      (complete (stored_entry first) (7 ∷ []))
      (decode device new_entry open_stream (encode first ++ (7 ∷ [])))
unfolding laws
sql_decode-encode_example =
    sql_decode-encode laws new_entry first (7 ∷ []) open_stream (encode first ++ (7 ∷ []))
      open_stream-IsReady first-IsStorable refl

abbrev kv : Store
kv = record {
  log = record { filename = path; fs = open_stream };
  mem = replayed empty_map (first ∷ []);
}

kv-IsConsistent : IsConsistent laws kv one_entry (first ∷ [])
unfolding laws
kv-IsConsistent = record {
  ready = open_stream-IsReady;
  logged = refl;
  storable = (first-IsStorable, tt);
  held = refl;
}

sql_write_outcome_example : WriteOutcome laws first one_entry (write device kv.log first one_entry)
sql_write_outcome_example = sql_write_outcome laws kv.log first one_entry open_stream-IsReady

second-IsStorable : IsStorable (set_entry (5 ∷ []) (6 ∷ []))
second-IsStorable = record {
  key_bytes = (omega arith, tt);
  val_bytes = (omega arith, tt);
  key_fits = omega arith;
  val_fits = omega arith;
}

sql_set_outcome_example :
    Updated laws kv one_entry
      (first ∷ [])
      (set_entry (5 ∷ []) (6 ∷ []))
      (kv.mem (5 ∷ []) ≢ some (6 ∷ []))
      (set device kv (5 ∷ []) (6 ∷ []) one_entry)
sql_set_outcome_example =
    sql_set_outcome laws kv (5 ∷ []) (6 ∷ []) one_entry (first ∷ []) kv-IsConsistent
      second-IsStorable

sql_del_outcome_example :
    Updated laws kv one_entry
      (first ∷ [])
      (tombstone (7 ∷ []))
      (kv.mem (7 ∷ []) ≢ none)
      (del device kv (7 ∷ []) one_entry)
sql_del_outcome_example =
    sql_del_outcome laws kv (7 ∷ []) one_entry (first ∷ []) kv-IsConsistent (omega arith, tt)
      (omega arith)

sql_open_outcome_example :
    Loaded laws one_entry
      (replayed empty_map (first ∷ []))
      (open_store device 2 (new_store path) one_entry)
unfolding laws
sql_open_outcome_example =
    sql_open_outcome laws 2 (new_store path) one_entry (first ∷ []) refl refl (first-IsStorable, tt)
      (omega arith) refl

-- An entry of which only nine bytes were written.
abbrev torn_front : Bytes
torn_front = 1 ∷ 0 ∷ 0 ∷ 0 ∷ 2 ∷ 0 ∷ 0 ∷ 0 ∷ 0 ∷ []

abbrev torn_back : Bytes
torn_back = 7 ∷ 8 ∷ 9 ∷ []

first-torn : torn_front ++ torn_back ≡ encode first
unfolding encode
first-torn = refl

sql_open-torn_example : HasFailed (open_store device 2 (new_store path) (one_entry ++ torn_front)).0
unfolding laws
sql_open-torn_example =
    sql_open-torn laws 2 (new_store path) (one_entry ++ torn_front) (first ∷ []) first torn_front
      torn_back refl refl (first-IsStorable, tt) first-IsStorable first-torn (omega arith)
      (omega arith) (omega arith) refl

sql_open_ends_example :
    (e : ErrorCode) × ((open_store device 99 (new_store path) torn_front).0 ≡ some e)
unfolding laws
sql_open_ends_example = sql_open_ends laws 99 (new_store path) torn_front refl refl (omega arith)
