-- ===== src/Kv/KeyValue/Effects.antt =====
-- What `set_ex`, `set` and `del` do to the map, by the result that they return.
use database_45_steps.Prelude.{
  ◌≡◌, ◌≢◌, refl, sym, ap, ◌∙◌, arith, ◌⊎◌, inl, inr, Bool, true, false, Bool-cases, Option, none,
  some, if◌then◌else◌, beq_bytes, beq_bytes_iff, beq_bytes_refl,
}
use database_45_steps.Core.Types.{Bytes, to_bytes}
use database_45_steps.Core.DbError.{ErrorCode, is_error, Result, ok, err}
use database_45_steps.Core.Platform.{Platform}
use database_45_steps.Kv.Log.{Log}
use database_45_steps.Kv.KeyValue.{
  KeyValue, Map, WriteMode, assign, erase, get, set_ex, del, commit, is_write_due, found,
}

-- The map after a successful write to one key, by what `get` answers.
abbrev pub IsAssigned : KeyValue → Bytes → Option Bytes → KeyValue → Type 0
IsAssigned before key val after =
    (other : Bytes) → get after other ≡ (if beq_bytes key other then ok val else get before other)

beq_bytes-ne : (key other : Bytes) → other ≢ key → beq_bytes key other ≡ false
beq_bytes-ne key other ne = elim (Bool-cases (beq_bytes key other)) [
  | inl e ↦ absurd (ne (sym ((beq_bytes_iff key other).0 e)))
  | inr e ↦ e
]

pub get_assigned :
    (before after : KeyValue) (key : Bytes) (val : Option Bytes)
    → IsAssigned before key val after
    → get after key ≡ ok val
get_assigned before after key val a = a key ∙ rw (beq_bytes_refl key) refl

pub get_other :
    (before after : KeyValue) (key : Bytes) (val : Option Bytes) (other : Bytes)
    → other ≢ key
    → IsAssigned before key val after
    → get after other ≡ get before other
get_other before after key val other ne a = a other ∙ rw (beq_bytes-ne key other ne) refl

assigned :
    (kv : KeyValue) (log : Log) (key val : Bytes)
    → IsAssigned kv key (some val) (record kv { log = log; mem = assign kv.mem key val })
unfolding get assign to_bytes
assigned kv log key val = λ other. ground arith

erased :
    (kv : KeyValue) (log : Log) (key : Bytes)
    → IsAssigned kv key none (record kv { log = log; mem = erase kv.mem key })
unfolding get erase to_bytes
erased kv log key = λ other. ground arith

-- When a mode leaves the map as it is.
abbrev pub IsIdle : WriteMode → Option Bytes → Bytes → Type 0
IsIdle WriteMode.upsert old val = old ≡ some val
IsIdle WriteMode.insert old val = old ≢ none
IsIdle WriteMode.update old val = (old ≡ none) ⊎ (old ≡ some val)

idle :
    (mode : WriteMode) (old : Option Bytes) (val : Bytes)
    → is_write_due mode old val ≡ false
    → IsIdle mode old val
unfolding is_write_due
idle WriteMode.upsert none val h = absurd (cc h)
idle WriteMode.upsert (some old) val h = ap some ((beq_bytes_iff old val).0 (ground (arith, h)))
idle WriteMode.insert none val h = absurd (cc h)
idle WriteMode.insert (some old) val h = λ e. cc e
idle WriteMode.update none val h = inl refl
idle WriteMode.update (some old) val h =
    inr (ap some ((beq_bytes_iff old val).0 (ground (arith, h))))

busy :
    (mode : WriteMode) (old : Option Bytes) (val : Bytes)
    → is_write_due mode old val ≡ true
    → ¬ IsIdle mode old val
unfolding is_write_due
busy WriteMode.upsert none val h e = cc e
busy WriteMode.upsert (some old) val h e = ground (arith, h, (beq_bytes_iff old val).1 (cc e))
busy WriteMode.insert none val h e = e refl
busy WriteMode.insert (some old) val h e = cc h
busy WriteMode.update none val h e = cc h
busy WriteMode.update (some old) val h (inl e) = cc e
busy WriteMode.update (some old) val h (inr e) = ground (arith, h, (beq_bytes_iff old val).1 (cc e))

-- What a call that writes one key may do: nothing at all; fail, with the map as it was; or
-- give the key its new value, and no other key.
pub data Effect {World : Type 0} (kv : KeyValue) (w : World) (key : Bytes) (val : Option Bytes)
    (Idle : Type 0) (r : Result Bool × KeyValue × World) : Type 0 where
  idle_call : Idle → r ≡ (ok false, kv, w) → Effect kv w key val Idle r
  failed_call :
      (e : ErrorCode)
      → ¬ Idle
      → is_error e ≡ true
      → r.0 ≡ err e
      → r.1.mem ≡ kv.mem
      → Effect kv w key val Idle r
  write_call : ¬ Idle → r.0 ≡ ok true → IsAssigned kv key val r.1 → Effect kv w key val Idle r

module _ (os : Platform) where
  open os use {World}

  committed :
      (kv : KeyValue) (w : World) (key : Bytes) (val : Option Bytes) (Idle : Type 0)
      (p : ErrorCode × Log × World) (mem : Map)
      → ¬ Idle
      → IsAssigned kv key val (record kv { log = p.1; mem = mem })
      → Effect kv w key val Idle (commit os p kv mem)
  unfolding commit
  committed kv w key val Idle p mem active h = elim (Bool-cases (is_error p.0)) [
    | inl e ↦ rw e (failed_call p.0 active e refl refl)
    | inr e ↦ rw e (write_call active refl h)
  ]

  -- Whatever the platform does, `set_ex` changes nothing and returns false, with the key already
  -- as the mode leaves it (`upsert`: the key has the value; `insert`: the key is there; `update`:
  -- it is not there, or has the value); or a write is due, and it returns an error with the map as
  -- it was; or a write is due, and it returns true, after which `get` gives the new value for the
  -- key and the old answer for every other key.
  pub set_ex-Effect :
      (kv : KeyValue) (key val : Bytes) (mode : WriteMode) (w : World)
      → Effect kv w key (some val) (IsIdle mode (kv.mem key) val) (set_ex os kv key val mode w)
  unfolding set_ex to_bytes
  set_ex-Effect kv key val mode w = elim (Bool-cases (is_write_due mode (kv.mem key) val)) [
    | inl e ↦ rw e (
        committed kv w key (some val) _ _ (assign kv.mem key val) (busy mode (kv.mem key) val e)
          (assigned kv _ key val))
    | inr e ↦ rw e (idle_call (idle mode (kv.mem key) val e) refl)
  ]

  -- Whatever the platform does, `del` changes nothing and returns false on a key that is not
  -- there; or the key is there and it returns an error with the map as it was; or the key is there
  -- and it returns true, after which `get` finds nothing under the key and gives the old answer
  -- for every other key.
  pub del-Effect :
      (kv : KeyValue) (key : Bytes) (w : World)
      → Effect kv w key none (kv.mem key ≡ none) (del os kv key w)
  unfolding del to_bytes
  del-Effect kv key w = elim (Bool-cases (found (kv.mem key))) [
    | inl e ↦
        rw e (
          committed kv w key none _ _ (erase kv.mem key) (λ h. cc (e, ap found h))
            (erased kv _ key))
    | inr e ↦ rw e (idle_call (missing (kv.mem key) e) refl)
  ]
    where
      missing : (old : Option Bytes) → found old ≡ false → old ≡ none
      missing none h = refl
      missing (some old) h = absurd (cc h)
