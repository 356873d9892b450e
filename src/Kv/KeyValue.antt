-- ===== src/Kv/KeyValue.antt =====
-- include/kv/kv.h and src/kv/kv.cpp: the key-value store. The hash map is the function from keys
-- to values that its operations compute; the code never iterates over it.
pub mod Replay
pub mod Open
pub mod Crash
pub mod Progress
pub mod Effects
pub mod Store
pub mod Reopening
pub mod Session
pub mod Calls
pub mod Refinement
pub mod Atomic
pub mod Lifecycle
use database_45_steps.Prelude.{
  ℕ, zero, suc, Bool, true, false, ◌&&◌, ◌||◌, not, Option, none, some, [], if◌then◌else◌,
  beq_bytes,
}
use database_45_steps.Core.Types.{Bytes, to_bytes}
use database_45_steps.Core.DbError.{ErrorCode, success, is_error, Result, ok, err, fault}
use database_45_steps.Core.Platform.{Platform, is_open, closed_handle}
use database_45_steps.Core.Platform.Laws.{
  File, View, FileLaws, PathLaws, unread, IsOn, IsReading, unread_of, SeekOutcome, WriteOutcome,
  SyncOutcome, OpenOutcome, HasSynced,
}
use database_45_steps.Kv.Entry.{Entry}
use database_45_steps.Kv.Log
use database_45_steps.Kv.Log.{Log, LogItem, log_entry, log_eof}

-- `std::unordered_map<bytes, bytes>`, by what `find` answers.
abbrev pub Map : Type 0
Map = Bytes → Option Bytes

abbrev pub empty_map : Map
empty_map key = none

-- `mem[key] = val`, `insert_or_assign(key, val)`
unfoldable pub assign : Map → Bytes → Bytes → Map
assign mem key val other = if beq_bytes key other then some val else mem other

unfoldable pub erase : Map → Bytes → Map
erase mem key other = if beq_bytes key other then none else mem other

pub record KeyValue : Type 0 where
  pub log : Log
  pub mem : Map

-- `KeyValue(path)`
abbrev pub new_store : Bytes → KeyValue
new_store path = record { log = record { filename = path; fh = closed_handle }; mem = empty_map }

pub data WriteMode : Type 0 where
  upsert insert update : WriteMode

-- What one entry of the log does to the map.
unfoldable pub apply : Map → Entry → Map
unfolding assign erase
apply mem ent = if ent.deleted then erase mem ent.key else assign mem ent.key ent.val

unfoldable pub get : KeyValue → Bytes → Result (Option Bytes)
unfolding to_bytes
get kv key = ok (kv.mem (to_bytes key))

-- `it->second != val`, where the key was found.
abbrev differs : Option Bytes → Bytes → Bool
differs none val = true
differs (some old) val = not (beq_bytes old val)

abbrev pub found : Option Bytes → Bool
found none = false
found (some val) = true

-- The condition under which a mode writes.
unfoldable pub is_write_due : WriteMode → Option Bytes → Bytes → Bool
is_write_due WriteMode.upsert it val = not (found it) || differs it val
is_write_due WriteMode.insert it val = not (found it)
is_write_due WriteMode.update it val = found it && differs it val

module _ (os : Platform) where
  open os use {World}

  -- The loop of `open`. The fuel bounds its rounds; `none` means that it ran out.
  unfoldable pub replay_log : ℕ → KeyValue → World → Option ErrorCode × KeyValue × World
  unfolding apply
  replay_log zero kv w = (none, kv, w)
  replay_log (suc fuel) kv w =
      let (item, log, w') = Log.read os kv.log w in
      let next : KeyValue = record kv { log = log } in
      elim item [
        | err e ↦ (some e, next, w')
        | fault ↦ (none, next, w')
        | ok log_eof ↦ (some success, next, w')
        | ok (log_entry ent) ↦ replay_log fuel (record next { mem = apply next.mem ent }) w'
      ]

  -- `KeyValue::open`, with fuel for its loop.
  unfoldable pub open_store : ℕ → KeyValue → World → Option ErrorCode × KeyValue × World
  open_store fuel kv w =
      let (opened, log₁, w₁) = Log.open_log os kv.log w in
      let (sought, log₂, w₂) = Log.seek_to_first_entry os log₁ w₁ in
      if is_open kv.log.fh
      then (some success, kv, w)
      else if is_error opened
      then (some opened, record kv { log = log₁ }, w₁)
      else if is_error sought
      then (some sought, record kv { log = log₂; mem = empty_map }, w₂)
      else replay_log fuel (record kv { log = log₂; mem = empty_map }) w₂

  -- `KeyValue::close`
  unfoldable pub close_store : KeyValue → World → ErrorCode × KeyValue × World
  close_store kv w =
      let (e, log, w') = Log.close_log os kv.log w in (e, record kv { log = log }, w')

  -- What follows the attempt to log an entry: the map changes only if it was written.
  unfoldable pub commit : ErrorCode × Log × World → KeyValue → Map → Result Bool × KeyValue × World
  commit (e, log, w) kv mem =
      if is_error e
      then (err e, record kv { log = log }, w)
      else (ok true, record kv { log = log; mem = mem }, w)

  unfoldable pub set_ex :
      KeyValue → Bytes → Bytes → WriteMode → World → Result Bool × KeyValue × World
  unfolding to_bytes is_write_due assign commit
  set_ex kv key val mode w =
      let my_key = to_bytes key in
      let my_val = to_bytes val in
      let ent : Entry = record { key = my_key; val = my_val; deleted = false } in
      if not (is_write_due mode (kv.mem my_key) my_val)
      then (ok false, kv, w)
      else commit (Log.write os kv.log ent w) kv (assign kv.mem my_key my_val)

  unfoldable pub set : KeyValue → Bytes → Bytes → World → Result Bool × KeyValue × World
  unfolding set_ex
  set kv key val = set_ex kv key val WriteMode.upsert

  unfoldable pub del : KeyValue → Bytes → World → Result Bool × KeyValue × World
  unfolding to_bytes erase commit
  del kv key w =
      let my_key = to_bytes key in
      let ent : Entry = record { key = my_key; val = []; deleted = true } in
      if not (found (kv.mem my_key))
      then (ok false, kv, w)
      else commit (Log.write os kv.log ent w) kv (erase kv.mem my_key)
