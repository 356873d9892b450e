-- ===== src/Kv/KeyValue/Progress.antt =====
-- How many rounds the loop of `KeyValue::open` takes.
use database_45_steps.Prelude.{
  ℕ, zero, suc, ◌<◌, ◌≡◌, refl, ap, ◌∙◌, arith, Option, some, Bool-cases, length, inl, inr,
}
use database_45_steps.Core.Types.{Bytes}
use database_45_steps.Core.DbError.{ErrorCode, success, Result, ok, err}
use database_45_steps.Core.Platform.{Platform}
use database_45_steps.Core.Platform.Laws.{View, FileLaws, unread, IsReading}
use database_45_steps.Kv.Entry.{Entry}
use database_45_steps.Kv.EntryCodec.{Decoded, decode}
use database_45_steps.Kv.EntryCodec.Progress.{Progress, decode-Progress}
use database_45_steps.Core.Reader.{list_reader}
use database_45_steps.Kv.Log.{LogItem, log_entry, log_eof, read, read_result, is_tail_corruption}
use database_45_steps.Kv.Log.Read.{Outcome, next_item, read_outcome}
use database_45_steps.Kv.KeyValue.{KeyValue, replay_log}
use database_45_steps.Kv.KeyValue.Replay.{replay_log-err, replay_log-eof, replay_log-entry}

-- What one round of the loop meets where `size` bytes are left.
data Round (size : ℕ) (r : Result LogItem × Bytes) : Type 0 where
  stopped : (e : ErrorCode) → r.0 ≡ err e → Round size r
  ended : r.0 ≡ ok log_eof → Round size r
  advanced : (ent : Entry) → r.0 ≡ ok (log_entry ent) → length r.1 < size → Round size r

read_result-err : (e : ErrorCode) (size : ℕ) (rest : Bytes) → Round size (read_result (err e), rest)
unfolding read_result
read_result-err e size rest = elim (Bool-cases (is_tail_corruption e)) [
  | inl h ↦ ended (rw h refl)
  | inr h ↦ stopped e (rw h refl)
]

decoded-Round :
    (size : ℕ) (d : Result Decoded × Bytes) → Progress size d → Round size (read_result d.0, d.1)
unfolding read_result
decoded-Round size d (Progress.stopped e p) = rw p (read_result-err e size d.1)
decoded-Round size d (Progress.ended p) = ended (ap read_result p)
decoded-Round size d (Progress.advanced ent p h) = advanced ent (ap read_result p) h

next_item-Round : (bs : Bytes) → Round (length bs) (next_item bs)
unfolding next_item
next_item-Round bs = decoded-Round (length bs) (decode bs) (decode-Progress bs)

module _ {os : Platform} {view : View os} (laws : FileLaws view) where
  open view use {file, IsFaulty}

  -- The loop has ended, with or without an error.
  abbrev pub Ended : Option ErrorCode × KeyValue × os.World → Type 0
  Ended r = (e : ErrorCode) × (r.0 ≡ some e)

  Round-Ended :
      (fuel : ℕ) (content : Bytes) (kv : KeyValue) (w : os.World)
      → ((kv' : KeyValue) (w' : os.World)
          → IsReading view content (kv'.log.fh, w')
          → length (unread (file w')) < length (unread (file w))
          → Ended (replay_log os fuel kv' w'))
      → Outcome laws content w (read os kv.log w)
      → Round (length (unread (file w))) (next_item (unread (file w)))
      → Ended (replay_log os (suc fuel) kv w)
  Round-Ended fuel content kv w next (Outcome.failed fault e sys p) round = (
    e,
    ap (λ (r : Option ErrorCode × KeyValue × os.World). r.0) (replay_log-err os fuel kv w e p),
  )
  Round-Ended fuel content kv w next (Outcome.item p q good) (stopped e r) = (
    e,
    ap (λ (r : Option ErrorCode × KeyValue × os.World). r.0)
        (replay_log-err os fuel kv w e (p ∙ r)),
  )
  Round-Ended fuel content kv w next (Outcome.item p q good) (ended r) = (
    success,
    ap (λ (r : Option ErrorCode × KeyValue × os.World). r.0) (replay_log-eof os fuel kv w (p ∙ r)),
  )
  Round-Ended fuel content kv w next (Outcome.item p q good) (advanced ent r h) =
      rw (replay_log-entry os fuel kv w ent (p ∙ r))
        (next _ (read os kv.log w).2 good (omega (arith, h, ap length q)))

  -- On an open file with any content whatever, with more fuel than there are bytes left to read,
  -- the loop of `open` ends and returns an error code: it neither runs out of fuel nor faults. The
  -- promises of the platform for the file are assumed.
  pub replay_log_ends :
      (fuel : ℕ) (content : Bytes) (kv : KeyValue) (w : os.World)
      → IsReading view content (kv.log.fh, w)
      → length (unread (file w)) < fuel
      → (e : ErrorCode) × ((replay_log os fuel kv w).0 ≡ some e)
  replay_log_ends zero content kv w good h = absurd (omega arith)
  replay_log_ends (suc fuel) content kv w good h =
      Round-Ended fuel content kv w
        (λ kv' w' good' h'. replay_log_ends fuel content kv' w' good' (omega arith))
        (read_outcome laws content kv.log w good) (next_item-Round (unread (file w)))
