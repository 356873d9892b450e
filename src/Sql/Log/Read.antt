-- ===== src/Sql/Log/Read.antt =====
-- What `Log::Read` returns.
use database_45_steps.Prelude.{
  ◌≡◌, ◌⊎◌, inl, inr, refl, ap, ◌∙◌, arith, Bool, true, false, [], if◌then◌else◌,
}
use database_45_steps.Core.Types.{Bytes}
use database_45_steps.Core.DbError.{ErrorCode, success, is_error}
use database_45_steps.Kv.Entry.{Entry}
use database_45_steps.Sql.Errors.{
  DbError, make_error_code, truncated_header, key_too_large, value_too_large,
}
use database_45_steps.Sql.Stream.{Device, Stream, good, clear, peek, stream_read}
use database_45_steps.Sql.Stream.Laws.{FileLaws, IsReady, unread, Peeked, peek_outcome}
use database_45_steps.Sql.Entry.{decode}
use database_45_steps.Sql.Entry.Reading.{complete, bad, parse, Decoding, decode-Decoding}
use database_45_steps.Sql.Entry.Torn.{IsCut}
use database_45_steps.Sql.Log.{Log, read}

-- An error of an entry in the file.
abbrev pub IsRefusal : DbError → Type 0
IsRefusal e = IsCut e ⊎ ((e ≡ key_too_large) ⊎ (e ≡ value_too_large))

pub refusal-is_error : (e : DbError) → IsRefusal e → is_error (make_error_code e) ≡ true
unfolding make_error_code
refusal-is_error e (inl (inl h)) = rw h refl
refusal-is_error e (inl (inr h)) = rw h refl
refusal-is_error e (inr (inl h)) = rw h refl
refusal-is_error e (inr (inr h)) = rw h refl

module _ {os : Device} {path : Bytes} (laws : FileLaws os path) where
  open laws use {content}

  abbrev Read : Type 0
  Read = (Bool × ErrorCode) × Entry × Log × os.World

  -- The log is at its end; or an error says what is wrong, and is one of the entry's or of a read
  -- that was cut short; or the entry is the one that the bytes hold.
  pub data ReadOutcome (before bs : Bytes) (r : Read) : Type 0 where
    ended :
        bs ≡ []
        → r.0 ≡ (true, success)
        → IsReady r.2.fs
        → content r.3 ≡ before
        → ReadOutcome before bs r
    stopped :
        (e : DbError)
        → IsCut e ⊎ (parse bs ≡ bad e)
        → is_error (make_error_code e) ≡ true
        → r.0 ≡ (false, make_error_code e)
        → content r.3 ≡ before
        → ReadOutcome before bs r
    found :
        (ent : Entry) (rest : Bytes)
        → parse bs ≡ complete ent rest
        → r.0 ≡ (false, success)
        → r.1 ≡ ent
        → IsReady r.2.fs
        → unread laws r.2.fs r.3 ≡ rest
        → content r.3 ≡ before
        → ReadOutcome before bs r

  -- A stream that has failed gives no header.
  decode_failed :
      (ent : Entry) (fs : Stream) (w : os.World)
      → fs.failed ≡ true
      → fs.eof ≡ false
      → ((decode os ent fs w).0 ≡ make_error_code truncated_header) × ((decode os ent fs w).3 ≡ w)
  unfolding decode stream_read
  decode_failed ent fs w f e = simp (f, e) (refl, refl)

  -- A stream that has failed gives no entry.
  pub read_failed :
      (log : Log) (ent : Entry) (w : os.World)
      → log.fs.failed ≡ true
      → log.fs.eof ≡ false
      → (read os log ent w).0 ≡ (false, make_error_code truncated_header)
  unfolding read peek
  read_failed log ent w f e =
      let unusable : good log.fs ≡ false = rw (e, f) refl in
      let header = (decode_failed ent (record log.fs { failed = true }) w refl e).0 in
      let is = refusal-is_error truncated_header (inl (inl refl)) in
      rw (unusable, e) (ground (arith, header, is))

  abbrev decoded : Log → ErrorCode × Entry × Stream × os.World → Read
  decoded log r =
      ((false, if is_error r.0 then r.0 else success), r.1, record log { fs = r.2 }, r.3)

  Decoding-Read :
      (before bs : Bytes) (log : Log) (r : ErrorCode × Entry × Stream × os.World)
      → Decoding laws before (parse bs) r
      → ReadOutcome before bs (decoded log r)
  Decoding-Read before bs log r (Decoding.cut e c p f kept) =
      let is = refusal-is_error e (inl c) in stopped e (inl c) is (rw (p, is) refl) kept
  Decoding-Read before bs log r (Decoding.rejected e c q p kept) =
      let is = refusal-is_error e (inr c) in stopped e (inr q) is (rw (p, is) refl) kept
  Decoding-Read before bs log r (Decoding.accepted ent rest q p s ready left kept) =
      found ent rest q (rw p refl) s ready left kept

  peeked-Read :
      (log : Log) (ent : Entry) (w : os.World) (p : Stream × os.World)
      → IsReady log.fs
      → Peeked laws log.fs w p
      → ReadOutcome (content w) (unread laws log.fs w) (
          if p.0.eof
          then ((true, success), ent, record log { fs = clear p.0 }, p.1)
          else decoded log (decode os ent p.0 p.1))
  peeked-Read log ent w p ready (Peeked.stopped f e kept) =
      let (header, same) = decode_failed ent p.0 p.1 f e in
      let is = refusal-is_error truncated_header (inl (inl refl)) in
      simp (e) (
        stopped truncated_header (inl (inl refl)) is (rw (header, is) refl)
          (ap content same ∙ kept))
  peeked-Read log ent w p ready (Peeked.ended none_left q kept) = rw q (
      ended none_left refl
        (record { on = ready.on; more = refl; sound = refl; flushed = ready.flushed }) kept)
  peeked-Read log ent w p ready (Peeked.waiting h ready' same kept) = simp (ready'.more) (
      rw (← same, ← kept)
        (Decoding-Read (content p.1) (unread laws p.0 p.1) log (decode os ent p.0 p.1)
          (decode-Decoding laws ent p.0 p.1 ready')))

  -- On an open log in good state, `Read` reports the end of the log exactly if no byte is left; or
  -- an error: that the entry is cut short, or what is wrong with the bytes; or the entry that the
  -- bytes hold, with the stream behind it. The file stays as it was.
  pub sql_read_outcome :
      (log : Log) (ent : Entry) (w : os.World)
      → IsReady log.fs
      → ReadOutcome (content w) (unread laws log.fs w) (read os log ent w)
  unfolding read
  sql_read_outcome log ent w ready =
      peeked-Read log ent w (peek os log.fs w) ready (peek_outcome laws log.fs w ready)
