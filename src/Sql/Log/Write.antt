-- ===== src/Sql/Log/Write.antt =====
-- What `Log::Write` does to the file.
use database_45_steps.Prelude.{
  ℕ, ◌<◌, ◌≡◌, refl, ap, ◌∙◌, arith, true, not, ◌==◌, Bool-cases, inl, inr, ◌++◌, take, ◌||◌, ◌&&◌,
  if◌then◌else◌, length,
}
use database_45_steps.Core.Types.{Bytes}
use database_45_steps.Core.DbError.{ErrorCode, success, is_error}
use database_45_steps.Kv.Entry.{Entry}
use database_45_steps.Sql.Errors.{no_space_on_device, io_error}
use database_45_steps.Sql.Stream.{Device, Stream, good, stream_write, flush, drain}
use database_45_steps.Sql.Stream.Laws.{FileLaws, IsReady}
use database_45_steps.Sql.Stream.Writing.{Taken, stream_write_outcome, Flushed, flush_outcome}
use database_45_steps.Sql.Entry.{encode}
use database_45_steps.Sql.Log.{Log, write, write_error}

pub write_error-is_error : (errno : ℕ) → is_error (write_error errno) ≡ true
unfolding write_error
write_error-is_error errno = elim (Bool-cases (errno == no_space_on_device)) [
  | inl e ↦ rw e refl
  | inr e ↦ elim (Bool-cases (errno == io_error)) [
    | inl f ↦ rw (e, f) refl
    | inr f ↦ rw (e, f) refl
  ]
]

-- There is nothing to flush.
flush_settled :
    (os : Device) (fs : Stream) (w : os.World)
    → IsReady fs
    → IsReady (flush os fs w).0 × ((flush os fs w).1 ≡ w)
unfolding flush drain
flush_settled os fs w ready =
    let usable : (good fs && fs.is_open) ≡ true = rw (ready.more, ready.sound, ready.on) refl in
    let empty : (length fs.pending == 0) ≡ true = rw (ready.flushed) refl in
    rw (usable, empty)
      (record { on = ready.on; more = ready.more; sound = refl; flushed = ready.flushed }, refl)

module _ {os : Device} {path : Bytes} (laws : FileLaws os path) where
  open laws use {content}

  -- An error is reported; or the entry is in the file; or nothing is reported although only a proper front
  -- of the entry is in the file, and the stream has failed.
  pub data WriteOutcome (ent : Entry) (w : os.World) (r : ErrorCode × Log × os.World) : Type 0 where
    refused :
        is_error r.0 ≡ true
        → r.1.fs.failed ≡ true
        → (n : ℕ) → n < length (encode ent)
        → content r.2 ≡ content w ++ take n (encode ent)
        → WriteOutcome ent w r
    stored :
        r.0 ≡ success
        → IsReady r.1.fs
        → content r.2 ≡ content w ++ encode ent
        → WriteOutcome ent w r
    unnoticed :
        r.0 ≡ success
        → r.1.fs.failed ≡ true
        → (n : ℕ) → n < length (encode ent)
        → content r.2 ≡ content w ++ take n (encode ent)
        → WriteOutcome ent w r

  abbrev rest : Log → Stream × os.World → ErrorCode × Log × os.World
  rest log (fs, w) =
      if fs.failed
      then (write_error (os.errno w), record log { fs = fs }, w)
      else (success, record log { fs = (flush os fs w).0 }, (flush os fs w).1)

  flushed-Write :
      (log : Log) (ent : Entry) (w : os.World) (fs : Stream) (w' : os.World) (r : Stream × os.World)
      → content w' ≡ content w
      → fs.pending ≡ encode ent
      → Flushed laws fs w' r
      → WriteOutcome ent w (success, record log { fs = r.0 }, r.1)
  flushed-Write log ent w fs w' r c p (Flushed.emptied ready e) =
      stored refl ready (e ∙ ap (λ bs. bs ++ fs.pending) c ∙ ap (λ bs. content w ++ bs) p)
  flushed-Write log ent w fs w' r c p (Flushed.lost f n short e) =
      unnoticed refl f n (omega (arith, short, ap (λ bs. length bs) p))
        (e ∙ ap (λ bs. bs ++ take n fs.pending) c ∙ ap (λ bs. content w ++ take n bs) p)

  Taken-Write :
      (log : Log) (ent : Entry) (w : os.World) (t : Stream × os.World)
      → Taken laws (encode ent) log.fs w t
      → WriteOutcome ent w (rest log t)
  Taken-Write log ent w t (Taken.held h p same) = simp (h.2) (
      flushed-Write log ent w t.0 t.1 (flush os t.0 t.1) (ap content same) p
        (flush_outcome laws t.0 t.1 h.0 h.1 h.2))
  Taken-Write log ent w t (Taken.passed ready c) =
      let (ready', same) = flush_settled os t.0 t.1 ready in
      simp (ready.sound) (stored refl ready' (ap content same ∙ c))
  Taken-Write log ent w t (Taken.refused f n short c) =
      rw f (refused (write_error-is_error (os.errno t.1)) refl n short c)

  -- In the single-header store, on a stream in good state, `Write`: reports an error, the stream
  -- has failed, and only a proper front of the entry was appended; or reports success with the
  -- encoding of the entry appended, and the stream in good state; or reports success although the
  -- flush behind the write failed, and only a proper front of the entry was appended. The promises
  -- of the system for the file are assumed.
  pub sql_write_outcome :
      (log : Log) (ent : Entry) (w : os.World)
      → IsReady log.fs
      → WriteOutcome ent w (write os log ent w)
  unfolding write
  sql_write_outcome log ent w ready =
      Taken-Write log ent w (stream_write os (encode ent) log.fs w)
        (stream_write_outcome laws (encode ent) log.fs w ready)

-- On a stream that has failed, `Write` reports an error and changes nothing in the file.
pub write_failed :
    (os : Device) (log : Log) (ent : Entry) (w : os.World)
    → log.fs.failed ≡ true
    → (is_error (write os log ent w).0 ≡ true)
      × ((write os log ent w).2 ≡ w)
      × ((write os log ent w).1.fs.failed ≡ true)
unfolding write stream_write
write_failed os log ent w f =
    let unusable : (not (good log.fs) || not log.fs.is_open) ≡ true = ground arith in
    rw unusable (write_error-is_error (os.errno w), refl, refl)
