-- ===== src/Kv/Log/Write.antt =====
-- What `Log::write` leaves in the file.
use database_45_steps.Prelude.{
  ℕ, ◌^◌, ◌+◌, ◌<◌, ◌≡◌, ap, ◌∙◌, arith, inl, inr, true, ◌++◌, length, take, if◌then◌else◌,
}
use database_45_steps.Core.DbError.{ErrorCode, success, is_error}
use database_45_steps.Core.Platform.{Platform, FileHandle, seek_end}
use database_45_steps.Core.Platform.Laws.{
  File, View, FileLaws, IsOn, SeekOutcome, WriteOutcome, SyncOutcome,
}
use database_45_steps.Kv.Entry.{Entry}
use database_45_steps.Kv.EntryCodec.{encode}
use database_45_steps.Kv.Log.{Log, write}

module _ {os : Platform} {view : View os} (laws : FileLaws view) where
  open view use {file, IsFaulty, IsSilent}

  -- An error was reported; or the entry is at the end of the file and on the disk; or a front of it
  -- is, and nothing was reported.
  pub data Outcome (ent : Entry) (before : File) : ErrorCode × Log × os.World → Type 0 where
    refused :
        {r : ErrorCode × Log × os.World} → IsFaulty → is_error r.0 ≡ true → Outcome ent before r
    stored :
        {r : ErrorCode × Log × os.World}
        → r.0 ≡ success
        → IsOn view r.1.fh
        → (file r.2).content ≡ before.content ++ encode ent
        → (file r.2).durable ≡ before.content ++ encode ent
        → Outcome ent before r
    unnoticed :
        {r : ErrorCode × Log × os.World}
        → IsFaulty
        → (silent : os.World) → IsSilent silent
        → r.0 ≡ success
        → (n : ℕ) → n < length (encode ent)
        → (file r.2).content ≡ before.content ++ take n (encode ent)
        → Outcome ent before r

  abbrev combine :
      Log
      → ErrorCode × FileHandle × os.World
      → ErrorCode × os.World
      → ErrorCode × os.World
      → ErrorCode × Log × os.World
  combine log (sought, fh, w₁) (written, w₂) (synced, w₃) =
      if is_error sought
      then (sought, record log { fh = fh }, w₁)
      else if is_error written
      then (written, record log { fh = fh }, w₂)
      else (synced, record log { fh = fh }, w₃)

  -- The outcome once the seek has succeeded.
  after_seek :
      (log : Log) (ent : Entry) (before : File) (fh : FileHandle) (w : os.World)
      (p y : ErrorCode × os.World)
      → IsOn view fh
      → (file w).content ≡ before.content
      → WriteOutcome view (encode ent) (file w) p
      → SyncOutcome view (file p.1) y
      → Outcome ent before (combine log (success, fh, w) p y)
  after_seek log ent before fh w p y on kept (WriteOutcome.refused fault h) _ =
      refused fault (rw h h)
  after_seek log ent before fh w p y on kept (WriteOutcome.whole f c) (inl h) =
      refused h.0 (rw f h.1)
  after_seek log ent before fh w p y on kept (WriteOutcome.whole f c) (inr (g, synced)) =
      let all : (file p.1).content ≡ before.content ++ encode ent = cc (c, kept) in
      rw f (stored g on (synced.kept ∙ all) (synced.durable ∙ all))
  after_seek log ent before fh w p y on kept (WriteOutcome.unnoticed fault f n h z c) (inl g) =
      rw f (refused g.0 g.1)
  after_seek log ent before fh w p y on kept (WriteOutcome.unnoticed fault f n h z c)
        (inr (g, synced)) =
      rw f (unnoticed fault p.1 z g n h (synced.kept ∙ cc (c, kept)))

  sought :
      (log : Log) (ent : Entry) (before : File) (s : ErrorCode × FileHandle × os.World)
      → SeekOutcome view (length before.content + 0) before s
      → length (encode ent) < 2 ^ 32
      → let p = os.platform_write s.1 (encode ent) s.2 in
        Outcome ent before (combine log s p (os.platform_sync s.1 p.1))
  sought log ent before s (SeekOutcome.refused fault h) small = refused fault (rw h h)
  sought log ent before s (SeekOutcome.moved e on kept at) small = rw e (
      after_seek log ent before s.1 s.2 (os.platform_write s.1 (encode ent) s.2) _ on kept
        (laws.write_outcome s.1 (encode ent) s.2 on small
          (omega (arith, at, ap (λ c. length c) kept)))
        (laws.sync_outcome s.1 (os.platform_write s.1 (encode ent) s.2).1 on))

  -- On a handle that is on its file, and for an entry whose encoding is shorter than 2 ^ 32 bytes,
  -- `Log::write` meets a fault of the platform and reports an error; or reports success with the
  -- encoding of the entry appended to the content, and the new content on the disk; or meets a
  -- fault and reports success with a proper front of the encoding appended. The promises of the
  -- platform for the file are assumed.
  pub log_write_outcome :
      (log : Log) (ent : Entry) (w : os.World)
      → IsOn view log.fh
      → length (encode ent) < 2 ^ 32
      → Outcome ent (file w) (write os log ent w)
  unfolding write
  log_write_outcome log ent w on small =
      sought log ent (file w) (os.platform_seek log.fh 0 seek_end w)
        (laws.seek_end_outcome log.fh 0 w on) small
