-- ===== src/Kv/KeyValue/Replay.antt =====
-- What the loop of `KeyValue::open` rebuilds.
use database_45_steps.Prelude.{
  ℕ, zero, suc, ◌<◌, ◌≡◌, refl, ap, ◌∙◌, arith, Option, some, List, [], ◌∷◌, ◌++◌, length, All,
  append_assoc,
}
use database_45_steps.Core.Types.{Bytes}
use database_45_steps.Core.DbError.{ErrorCode, IsSystemError, success, Result, ok, err}
use database_45_steps.Core.Platform.{Platform}
use database_45_steps.Core.Platform.Laws.{View, FileLaws, unread, IsReading}
use database_45_steps.Kv.Entry.{Entry}
use database_45_steps.Kv.EntryCodec.{encode}
use database_45_steps.Kv.EntryCodec.RoundTrip.{IsStorable, stored_entry}
use database_45_steps.Kv.Log.{LogItem, log_entry, log_eof, read}
use database_45_steps.Kv.Log.Read.{Outcome, next_item, IsTail, next_item-encode, read_outcome}
use database_45_steps.Kv.KeyValue.{KeyValue, Map, apply, replay_log}

-- The bytes of a log of entries.
unfoldable pub encode_all : List Entry → Bytes
encode_all [] = []
encode_all (ent ∷ ents) = encode ent ++ encode_all ents

-- The map that the entries of a log describe.
unfoldable pub replayed : Map → List Entry → Map
replayed mem [] = mem
replayed mem (ent ∷ ents) = replayed (apply mem ent) ents

-- The map does not show that a tombstone has lost its value.
pub apply-stored_entry : (mem : Map) (ent : Entry) → apply mem (stored_entry ent) ≡ apply mem ent
unfolding apply stored_entry
apply-stored_entry mem ent = ground arith

-- One round of the loop, by what was read.
module _ (os : Platform) (fuel : ℕ) (kv : KeyValue) (w : os.World) where
  abbrev after : KeyValue
  after = record kv { log = (read os kv.log w).1 }

  pub replay_log-err :
      (e : ErrorCode)
      → (read os kv.log w).0 ≡ err e
      → replay_log os (suc fuel) kv w ≡ (some e, after, (read os kv.log w).2)
  unfolding replay_log
  replay_log-err e h = rw (h, replay_log)

  pub replay_log-eof :
      (read os kv.log w).0 ≡ ok log_eof
      → replay_log os (suc fuel) kv w ≡ (some success, after, (read os kv.log w).2)
  unfolding replay_log
  replay_log-eof h = rw (h, replay_log)

  pub replay_log-entry :
      (ent : Entry)
      → (read os kv.log w).0 ≡ ok (log_entry ent)
      → replay_log os (suc fuel) kv w
        ≡ replay_log os fuel (record after { mem = apply kv.mem ent }) (read os kv.log w).2
  unfolding replay_log
  replay_log-entry ent h = rw (h, replay_log)

module _ {os : Platform} {view : View os} (laws : FileLaws view) where
  open view use {file, IsFaulty}

  -- The loop stopped at an error of the operating system; or it ended with the given map.
  pub data Replayed (content : Bytes) (mem : Map) (r : Option ErrorCode × KeyValue × os.World)
      : Type 0 where
    failed : IsFaulty → (e : ErrorCode) → IsSystemError e → r.0 ≡ some e → Replayed content mem r
    finished :
        r.0 ≡ some success
        → r.1.mem ≡ mem
        → IsReading view content (r.1.log.fh, r.2)
        → Replayed content mem r

  -- A round whose read failed, or met the end of the log.
  replay_end :
      (fuel : ℕ) (content tail : Bytes) (kv : KeyValue) (w : os.World)
      → IsTail tail
      → unread (file w) ≡ tail
      → Outcome laws content w (read os kv.log w)
      → Replayed content kv.mem (replay_log os (suc fuel) kv w)
  replay_end fuel content tail kv w t e (Outcome.failed fault x c p) =
      rw (replay_log-err os fuel kv w x p) (failed fault x c refl)
  replay_end fuel content tail kv w t e (Outcome.item p q good) =
      rw (replay_log-eof os fuel kv w (p ∙ ap (λ bs. (next_item bs).0) e ∙ t))
        (finished refl refl good)

  -- A round that reads an entry is followed by the rest of the loop.
  replay_next :
      (fuel : ℕ) (content rest : Bytes) (mem : Map) (ent : Entry) (kv : KeyValue) (w : os.World)
      → IsStorable ent
      → unread (file w) ≡ encode ent ++ rest
      → ((kv' : KeyValue) (w' : os.World)
          → kv'.mem ≡ apply kv.mem ent
          → IsReading view content (kv'.log.fh, w')
          → unread (file w') ≡ rest
          → Replayed content mem (replay_log os fuel kv' w'))
      → Outcome laws content w (read os kv.log w)
      → Replayed content mem (replay_log os (suc fuel) kv w)
  replay_next fuel content rest mem ent kv w s e next (Outcome.failed fault x c p) =
      rw (replay_log-err os fuel kv w x p) (failed fault x c refl)
  replay_next fuel content rest mem ent kv w s e next (Outcome.item p q good) =
      let here : next_item (unread (file w)) ≡ (ok (log_entry (stored_entry ent)), rest) =
        ap next_item e ∙ next_item-encode ent rest s in
      rw
        (replay_log-entry os fuel kv w (stored_entry ent)
          (p ∙ ap (λ (r : Result LogItem × Bytes). r.0) here))
        (next _ (read os kv.log w).2 (apply-stored_entry kv.mem ent) good
          (q ∙ ap (λ (r : Result LogItem × Bytes). r.1) here))

  -- `replay_log` on a log of entries and a tail.
  pub replay_outcome :
      (ents : List Entry) (fuel : ℕ) (content tail : Bytes) (mem : Map) (kv : KeyValue)
      (w : os.World)
      → kv.mem ≡ mem
      → All IsStorable ents
      → IsTail tail
      → length ents < fuel
      → IsReading view content (kv.log.fh, w)
      → unread (file w) ≡ encode_all ents ++ tail
      → Replayed content (replayed mem ents) (replay_log os fuel kv w)
  unfolding encode_all replayed
  replay_outcome ents zero content tail mem kv w m s t h good e = absurd (omega arith)
  replay_outcome [] (suc fuel) content tail mem kv w m s t h good e =
      rw (← m) (replay_end fuel content tail kv w t e (read_outcome laws content kv.log w good))
  replay_outcome (ent ∷ ents) (suc fuel) content tail mem kv w m s t h good e =
      replay_next fuel content (encode_all ents ++ tail) (replayed (apply mem ent) ents) ent kv w
        s.0 (e ∙ append_assoc (encode ent) (encode_all ents) tail)
        (λ kv' w' m' good' e'.
          replay_outcome ents fuel content tail (apply mem ent) kv' w'
            (m' ∙ ap (λ x. apply x ent) m) s.1 t (omega arith) good' e')
        (read_outcome laws content kv.log w good)
