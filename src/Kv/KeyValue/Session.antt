-- ===== src/Kv/KeyValue/Session.antt =====
-- Sequences of calls on a store by a client that may close it and open it anew, and what they do to
-- a map.
use database_45_steps.Prelude.{
  ℕ, Bool, true, false, Option, none, some, List, [], ◌∷◌, if◌then◌else◌, beq_bytes, AreBytes, ◌≤◌,
  length,
}
use database_45_steps.Core.Types.{Bytes}
use database_45_steps.Core.DbError.{ErrorCode, is_error, Result, ok, err, fault, ◌>>=◌}
use database_45_steps.Core.Platform.{Platform}
use database_45_steps.Kv.EntryCodec.{max_key_size}
use database_45_steps.Kv.EntryCodec.RoundTrip.{IsStorable}
use database_45_steps.Kv.KeyValue.{
  KeyValue, Map, WriteMode, assign, erase, new_store, get, set_ex, del, close_store, open_store,
}
use database_45_steps.Kv.KeyValue.Store.{set_entry}

pub data Call : Type 0 where
  set_call : WriteMode → Bytes → Bytes → Call
  del_call : Bytes → Call
  get_call : Bytes → Call
  restart : Call

pub data Answer : Type 0 where
  changed : Bool → Answer
  value : Option Bytes → Answer
  restarted : Answer

-- A call that the codec can log.
abbrev pub IsValid : Call → Type 0
IsValid (set_call mode key val) = IsStorable (set_entry key val)
IsValid (del_call key) = AreBytes key × (length key ≤ max_key_size)
IsValid (get_call key) = Unit
IsValid restart = Unit

module _ (os : Platform) (fuel : ℕ) (path : Bytes) where
  open os use {World}

  abbrev pub Outcome : Type 0 → Type 0
  Outcome A = Result A × KeyValue × World

  abbrev pub answer : (Bool → Answer) → Outcome Bool → Outcome Answer
  answer f (r, kv, w) = (r >>= λ a. ok (f a), kv, w)

  abbrev pub reopened : Option ErrorCode × KeyValue × World → Outcome Answer
  reopened (none, kv, w) = (fault, kv, w)
  reopened (some e, kv, w) = (if is_error e then err e else ok restarted, kv, w)

  unfoldable pub perform : Call → KeyValue → World → Outcome Answer
  perform (set_call mode key val) kv w = answer changed (set_ex os kv key val mode w)
  perform (del_call key) kv w = answer changed (del os kv key w)
  perform (get_call key) kv w = (get kv key >>= λ val. ok (value val), kv, w)
  perform restart kv w =
      let (e, closed, w') = close_store os kv w in
      if is_error e then (err e, closed, w') else reopened (open_store os fuel (new_store path) w')

  abbrev pub continue : Outcome Answer → Outcome (List Answer) → Outcome (List Answer)
  continue (ok a, kv, w) (rest, kv', w') = (rest >>= λ answers. ok (a ∷ answers), kv', w')
  continue (err e, kv, w) rest = (err e, kv, w)
  continue (fault, kv, w) rest = (fault, kv, w)

  -- The client stops at the first error.
  unfoldable pub run : List Call → KeyValue → World → Outcome (List Answer)
  unfolding perform
  run [] kv w = (ok [], kv, w)
  run (call ∷ calls) kv w =
      let (a, kv', w') = perform call kv w in continue (a, kv', w') (run calls kv' w')

-- The abstract store: a map.
abbrev pub spec_set : WriteMode → Option Bytes → Map → Bytes → Bytes → Bool × Map
spec_set WriteMode.upsert none mem key val = (true, assign mem key val)
spec_set WriteMode.upsert (some old) mem key val =
    if beq_bytes old val then (false, mem) else (true, assign mem key val)
spec_set WriteMode.insert none mem key val = (true, assign mem key val)
spec_set WriteMode.insert (some old) mem key val = (false, mem)
spec_set WriteMode.update none mem key val = (false, mem)
spec_set WriteMode.update (some old) mem key val =
    if beq_bytes old val then (false, mem) else (true, assign mem key val)

abbrev pub spec_del : Option Bytes → Map → Bytes → Bool × Map
spec_del none mem key = (false, mem)
spec_del (some old) mem key = (true, erase mem key)

unfoldable pub spec : Call → Map → Answer × Map
spec (set_call mode key val) mem =
    let (new, mem') = spec_set mode (mem key) mem key val in (changed new, mem')
spec (del_call key) mem = let (new, mem') = spec_del (mem key) mem key in (changed new, mem')
spec (get_call key) mem = (value (mem key), mem)
spec restart mem = (restarted, mem)

unfoldable pub spec_run : List Call → Map → List Answer × Map
unfolding spec
spec_run [] mem = ([], mem)
spec_run (call ∷ calls) mem =
    let (a, mem') = spec call mem in
    let (answers, mem'') = spec_run calls mem' in (a ∷ answers, mem'')
