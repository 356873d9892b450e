-- ===== src/Kv/Log/Open.antt =====
-- What `Log::open` makes of a file.
use database_45_steps.Prelude.{
  ℕ, ◌^◌, ◌<◌, ◌≡◌, refl, sym, ap, ◌∙◌, arith, ◌⊎◌, inl, inr, true, false, ◌&&◌, none, [], ◌∷◌,
  ◌++◌, if◌then◌else◌, ◌==◌, Bool-cases, length, take,
}
use database_45_steps.Core.Types.{Bytes}
use database_45_steps.Core.DbError.{ErrorCode, success, is_error, Result, ok, err}
use database_45_steps.Core.BitUtils.{pack_le}
use database_45_steps.Core.Reader.{ReadOutcome}
use database_45_steps.Core.Platform.{Platform, FileHandle, is_open, seek_set, handle_read}
use database_45_steps.Core.Platform.Laws.{
  File, View, FileLaws, PathLaws, IsOn, IsReading, unread_of, SeekOutcome, WriteOutcome,
  OpenOutcome,
}
use database_45_steps.Kv.Log.{
  Log, file_header, file_header_size, validate_header, validate_read, write_file_header,
  read_and_validate_file_header, check_header, open_log,
}

module _ {os : Platform} {view : View os} (laws : FileLaws view) where
  open view use {file, IsFaulty}

  -- The verdict on the header of the file, from its first six bytes.
  abbrev verdict : File → ErrorCode
  verdict before = validate_header (take file_header_size before.content)

  -- The system reported an error; or the file had bytes, is unchanged, and the result is the
  -- verdict on its header; or it was empty, and the header (or a front of it, where that goes unreported)
  -- was written.
  pub data Opened (before : File) (r : ErrorCode × Log × os.World) : Type 0 where
    refused : IsFaulty → is_error r.0 ≡ true → Opened before r
    checked :
        0 < length before.content
        → r.0 ≡ validate_header (take file_header_size before.content)
        → IsOn view r.1.fh
        → (file r.2).content ≡ before.content
        → Opened before r
    fresh :
        before.content ≡ []
        → is_error r.0 ≡ false
        → IsOn view r.1.fh
        → ((file r.2).content ≡ file_header)
          ⊎ (IsFaulty
              × ((n : ℕ) × (n < file_header_size)
                  × view.IsSilent r.2
                  × ((file r.2).content ≡ take n file_header)))
        → Opened before r

  -- Reading and checking the header of a file that is at its start.
  data Checked (before : File) (r : ErrorCode × FileHandle × os.World) : Type 0 where
    refused : IsFaulty → is_error r.0 ≡ true → Checked before r
    read_in :
        r.0 ≡ validate_header (take file_header_size before.content)
        → IsOn view r.1
        → (file r.2).content ≡ before.content
        → Checked before r

  header_outcome :
      (before : File) (fh : FileHandle) (w : os.World)
      → (file w).content ≡ before.content
      → (file w).offset ≡ 0
      → ReadOutcome
          (unread_of view)
          (IsReading view before.content)
          IsFaulty
          (fh, w)
          file_header_size
          (handle_read os (fh, w) file_header_size)
      → Checked before (read_and_validate_file_header os fh w)
  unfolding read_and_validate_file_header handle_read
  header_outcome before fh w same start (inl (fault, (e, sys, p))) =
      refused fault (ap (λ x. is_error (validate_read x)) p ∙ sys.1)
  header_outcome before fh w same start (inr (p, q, good)) =
      read_in
        (ap validate_read p
          ∙ ap (λ bs. validate_header (take file_header_size bs)) (cc (same, start)))
        good.0 good.1

  fresh_outcome :
      (before : File) (log : Log) (w : os.World) (p : ErrorCode × os.World)
      → IsOn view log.fh
      → before.content ≡ []
      → (file w).content ≡ []
      → WriteOutcome view file_header (file w) p
      → Opened before (p.0, log, p.1)
  unfolding file_header pack_le
  fresh_outcome before log w p on empty e (WriteOutcome.refused fault h) = refused fault h
  fresh_outcome before log w p on empty e (WriteOutcome.whole h c) =
      fresh empty (ap is_error h) on (inl (c ∙ ap (λ bs. bs ++ file_header) e))
  fresh_outcome before log w p on empty e (WriteOutcome.unnoticed fault h n k z c) =
      fresh empty h on (inr (fault, (n, k, z, c ∙ ap (λ bs. bs ++ take n file_header) e)))

  abbrev after_seek :
      Log
      → ErrorCode × FileHandle × os.World
      → ErrorCode × FileHandle × os.World
      → ErrorCode × Log × os.World
  after_seek log (sought, fh₂, w₂) (valid, fh₃, w₃) =
      if is_error sought
      then (sought, record log { fh = fh₂ }, w₂)
      else (valid, record log { fh = fh₃ }, w₃)

  Checked-outcome :
      (before : File) (log : Log) (s v : ErrorCode × FileHandle × os.World)
      → 0 < length before.content
      → s.0 ≡ success
      → Checked before v
      → Opened before (after_seek log s v)
  Checked-outcome before log s v some_bytes e (Checked.refused fault h) = rw e (refused fault h)
  Checked-outcome before log s v some_bytes e (Checked.read_in p on c) =
      rw e (checked some_bytes p on c)

  found_outcome :
      (before : File) (log : Log) (w : os.World) (s : ErrorCode × FileHandle × os.World)
      → 0 < length before.content
      → (file w).content ≡ before.content
      → SeekOutcome view 0 (file w) s
      → Opened before (after_seek log s (read_and_validate_file_header os s.1 s.2))
  found_outcome before log w s some_bytes same (SeekOutcome.refused fault h) =
      refused fault (rw h h)
  found_outcome before log w s some_bytes same (SeekOutcome.moved e on kept at) =
      Checked-outcome before log s (read_and_validate_file_header os s.1 s.2) some_bytes e (
        header_outcome before s.1 s.2 (kept ∙ same) at (
          (laws.handle_supplies before.content).reads (s.1, s.2) file_header_size (on, kept ∙ same)
            (omega arith)))

  header_small : length file_header < 2 ^ 32
  unfolding file_header pack_le
  header_small = omega arith

  nil_of_length : (bs : Bytes) → (length bs == 0) ≡ true → bs ≡ []
  nil_of_length [] h = refl
  nil_of_length (b ∷ bs) h = absurd (ground (arith, h))

  some_length : (bs : Bytes) → (length bs == 0) ≡ false → 0 < length bs
  some_length bs h = ground arith

  check_outcome :
      (before : File) (log : Log) (w : os.World) (size : Result ℕ)
      → IsOn view log.fh
      → (file w).content ≡ before.content
      → (file w).offset ≡ 0
      → (IsFaulty × ((e : ErrorCode) × (is_error e ≡ true) × (size ≡ err e)))
        ⊎ (size ≡ ok (length (file w).content))
      → Opened before (check_header os size log w)
  unfolding check_header write_file_header
  check_outcome before log w size on same start (inl (fault, (e, h, p))) =
      rw (p, check_header) (refused fault h)
  check_outcome before log w size on same start (inr p) =
      elim (Bool-cases (length (file w).content == 0)) [
        | inl e ↦
            let empty : (file w).content ≡ [] = nil_of_length (file w).content e in
            rw (p, check_header, e)
              (fresh_outcome before log w (write_file_header os log.fh w) on (sym same ∙ empty)
                empty
                (laws.write_outcome log.fh file_header w on header_small
                  (start ∙ sym (ap (λ bs. length bs) empty))))
        | inr e ↦
            rw (p, check_header, e)
              (found_outcome before log w (os.platform_seek log.fh 0 seek_set w)
                (some_length before.content (ap (λ bs. length bs == 0) (sym same) ∙ e)) same
                (laws.seek_set_outcome log.fh 0 w on))
      ]

  -- The rest of `open`, once the file is open.
  Opened-outcome :
      (log : Log) (w : os.World) (o : ErrorCode × FileHandle × os.World)
      → PathLaws view log.filename
      → OpenOutcome view (file w) o
      → Opened (file w) (
          if is_error o.0
          then (o.0, record log { fh = o.1 }, o.2)
          else check_header os (os.file_size log.filename o.2) (record log { fh = o.1 }) o.2)
  Opened-outcome log w o paths (OpenOutcome.refused fault h) = refused fault (rw h h)
  Opened-outcome log w o paths (OpenOutcome.ready e on kept start) = rw e (
      check_outcome (file w) (record log { fh = o.1 }) o.2 (os.file_size log.filename o.2) on kept
        start (paths.size_law o.2))

  pub not_open : (fh : FileHandle) → fh.fd ≡ none → is_open fh ≡ false
  unfolding is_open
  not_open fh h = rw (h, is_open)

  -- `Log::open` on a closed handle, on a path that is no directory: meets a fault and reports an
  -- error; or the file had bytes, is unchanged, and the result is the verdict on its first six
  -- bytes; or the file was empty, there is no error, and it now holds the header, or a proper
  -- front of it at a fault of the platform that goes unreported. The promises of the platform for
  -- the path are assumed.
  pub open_log_outcome :
      (log : Log) (w : os.World)
      → PathLaws view log.filename
      → log.fh.fd ≡ none
      → (os.exists log.filename w && os.is_directory log.filename w) ≡ false
      → Opened (file w) (open_log os log w)
  unfolding open_log
  open_log_outcome log w paths closed plain =
      rw (not_open log.fh closed, plain)
        (Opened-outcome log w (os.platform_open_file log.filename log.fh w) paths
          (paths.open_outcome log.fh w))
