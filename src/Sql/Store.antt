-- ===== src/Sql/Store.antt =====
-- include/sql/database.h: `KV`, the store over the log. The hash map is the function from keys to
-- values that its operations compute; `ByteVectorHash` only finds its buckets.
pub mod Replay
pub mod Reopening
pub mod Ending
pub mod Effects
use database_45_steps.Prelude.{
  ℕ, zero, suc, Bool, true, false, not, Option, none, some, [], if◌then◌else◌, beq_bytes,
}
use database_45_steps.Core.Types.{Bytes}
use database_45_steps.Core.DbError.{ErrorCode, success, is_error}
use database_45_steps.Kv.Entry.{Entry}
use database_45_steps.Kv.KeyValue.{Map, empty_map, assign, erase, apply, found}
use database_45_steps.Sql.Stream.{Device, seekg}
use database_45_steps.Sql.Entry.{new_entry}
use database_45_steps.Sql.Log
use database_45_steps.Sql.Log.{Log}

pub record Store : Type 0 where
  pub log : Log
  pub mem : Map

-- `KV(path)`
abbrev pub new_store : Bytes → Store
new_store path = record { log = Log.new_log path; mem = empty_map }

-- `KV::Get`
unfoldable pub get : Store → Bytes → Option Bytes × ErrorCode
get kv key = (kv.mem key, success)

-- What `Set` does by what it finds under the key: whether anything is new, and the map.
pub emplaced : Option Bytes → Map → Bytes → Bytes → Bool × Map
emplaced none mem key val = (true, assign mem key val)
emplaced (some old) mem key val =
    if not (beq_bytes old val) then (true, assign mem key val) else (false, mem)

-- `try_emplace`, and the update of a value that was there.
unfoldable pub emplace : Map → Bytes → Bytes → Bool × Map
unfolding emplaced
emplace mem key val = emplaced (mem key) mem key val

module _ (os : Device) where
  open os use {World}

  -- The loop of `Open`, over the entry that all rounds share. The value that is moved into the map
  -- leaves the entry with an empty one. The fuel bounds the rounds; `none` means that it ran out.
  unfoldable pub replay : ℕ → Entry → Store → World → Option ErrorCode × Store × World
  replay zero ent kv w = (none, kv, w)
  replay (suc fuel) ent kv w =
      let ((eof, e), ent', log, w') = Log.read os kv.log ent w in
      let next : Store = record kv { log = log } in
      let left : Entry = if ent'.deleted then ent' else record ent' { val = [] } in
      let rest = replay fuel left (record next { mem = apply kv.mem ent' }) w' in
      if is_error e then (some e, next, w') else if eof then (some success, next, w') else rest

  -- `KV::Open`, with fuel for its loop. The seek is not checked.
  unfoldable pub open_store : ℕ → Store → World → Option ErrorCode × Store × World
  unfolding replay
  open_store fuel kv w =
      let (e, log, w₁) = Log.open_log os kv.log w in
      let (fs, w₂) = seekg os 0 log.fs w₁ in
      if kv.log.fs.is_open
      then (some success, kv, w)
      else if is_error e
      then (some e, record kv { log = log }, w₁)
      else replay fuel new_entry (record { log = record log { fs = fs }; mem = empty_map }) w₂

  -- `KV::Close`
  unfoldable pub close_store : Store → World → ErrorCode × Store × World
  close_store kv w =
      let (e, log, w') = Log.close_log os kv.log w in (e, record kv { log = log }, w')

  -- `KV::Set`
  unfoldable pub set : Store → Bytes → Bytes → World → (Bool × ErrorCode) × Store × World
  unfolding emplace
  set kv key val w =
      let ent : Entry = record { key = key; val = val; deleted = false } in
      let (e, log, w') = Log.write os kv.log ent w in
      let (updated, mem) = emplace kv.mem key val in
      if is_error e
      then ((false, e), record kv { log = log }, w')
      else ((updated, success), record { log = log; mem = mem }, w')

  -- `KV::Del`
  unfoldable pub del : Store → Bytes → World → (Bool × ErrorCode) × Store × World
  del kv key w =
      let ent : Entry = record { key = key; val = []; deleted = true } in
      let (e, log, w') = Log.write os kv.log ent w in
      if is_error e
      then ((false, e), record kv { log = log }, w')
      else ((found (kv.mem key), success), record { log = log; mem = erase kv.mem key }, w')
