-- ===== src/Core/Unix/Outcomes.antt =====
-- The platform functions on a handle whose descriptor keeps the promises of POSIX.
use database_45_steps.Prelude.{
  ℕ, ◌+◌, ◌<◌, ◌≡◌, refl, sym, ◌∙◌, arith, ◌⊎◌, inl, inr, true, Option, none, some, length,
}
use mathlib.Core.Path.{subst}
use database_45_steps.Core.Types.{Bytes}
use database_45_steps.Core.DbError.{is_error}
use database_45_steps.Core.Reader.{ReadOutcome, Supplies}
use database_45_steps.Core.Platform.{FileHandle, seek_set, seek_end, handle_reader, handle_read}
use database_45_steps.Core.Platform.Laws.{
  File, View, IsOn, IsReading, unread_of, SeekOutcome, refused, moved,
}
use database_45_steps.Core.Unix.Laws.{PosixFile, Failed, HasRead, HasSought}
use database_45_steps.Core.Unix.{
  Posix, unix, platform_read, platform_seek, errno_to_error, filled, sought,
}

module _ {os : Posix} {fd : ℕ} (laws : PosixFile os fd) where
  open laws use {file, IsFaulty}

  -- The file as the rest of the program sees it. A short write is silent where `errno` is 0.
  abbrev pub view : View (unix os)
  view = record { fd = fd; file = file; IsFaulty = IsFaulty; IsSilent = λ w. os.errno w ≡ 0 }

  pub errno-is_error : (w : os.World) → 0 < os.errno w → is_error (errno_to_error os w) ≡ true
  unfolding errno_to_error
  errno-is_error w h = ground arith

  filled_outcome :
      (content : Bytes) (fh : FileHandle) (w w' : os.World) (size : ℕ) (result : Option Bytes)
      → IsReading view content (fh, w)
      → Failed IsFaulty result (os.errno w') ⊎ HasRead size (file w) (file w') result
      → let (r, fh', w'') = filled os result fh w' in
        ReadOutcome (unread_of view) (IsReading view content) IsFaulty (fh, w) size (r, (fh', w''))
  unfolding filled
  filled_outcome content fh w w' size none good (inl failed) = inl (
    failed.fault,
    (errno_to_error os w', (unfold errno_to_error in refl, errno-is_error w' failed.code), refl),
  )
  filled_outcome content fh w w' size none good (inr done) = absurd (cc done.bytes)
  filled_outcome content fh w w' size (some bs) good (inl failed) = absurd (cc failed.absent)
  filled_outcome content fh w w' size (some bs) good (inr done) =
      inr (ground (arith, done.bytes), done.left, (good.0, done.kept ∙ good.1))

  -- Under the promises, a handle supplies the bytes from its offset on.
  pub handle_supplies :
      (content : Bytes)
      → Supplies ⦃reader = handle_reader (unix os)⦄
          (unread_of view)
          (IsReading view content)
          IsFaulty
  unfolding handle_read platform_read
  handle_supplies content = record {
    reads = λ state size good small.
        filled_outcome content state.0 state.1 (os.sys_read state.0.fd size state.1).1 size
          (os.sys_read state.0.fd size state.1).0 good
          (subst
            (λ f.
              let (result, w') = os.sys_read f size state.1 in
              Failed IsFaulty result (os.errno w') ⊎ HasRead size (file state.1) (file w') result)
            (sym good.0) (laws.read_law size state.1));
  }

  sought_outcome :
      (offset : ℕ) (before : File) (fh : FileHandle) (w : os.World) (result : Option ℕ)
      → IsOn view fh
      → Failed IsFaulty result (os.errno w) ⊎ HasSought offset before (file w) result
      → SeekOutcome view offset before (sought os result fh w)
  unfolding sought
  sought_outcome offset before fh w none on (inl failed) =
      refused failed.fault (errno-is_error w failed.code)
  sought_outcome offset before fh w none on (inr done) = absurd (cc done.moved)
  sought_outcome offset before fh w (some p) on (inl failed) = absurd (cc failed.absent)
  sought_outcome offset before fh w (some p) on (inr done) = moved refl on done.kept done.at

  pub seek_set_outcome :
      (fh : FileHandle) (offset : ℕ) (w : os.World)
      → IsOn view fh
      → SeekOutcome view offset (file w) (platform_seek os fh offset seek_set w)
  unfolding platform_seek
  seek_set_outcome fh offset w on =
      sought_outcome offset (file w) fh (os.sys_lseek fh.fd offset seek_set w).1
        (os.sys_lseek fh.fd offset seek_set w).0 on
        (subst
          (λ f.
            let (result, w') = os.sys_lseek f offset seek_set w in
            Failed IsFaulty result (os.errno w') ⊎ HasSought offset (file w) (file w') result)
          (sym on) (laws.seek_set_law offset w))

  pub seek_end_outcome :
      (fh : FileHandle) (offset : ℕ) (w : os.World)
      → IsOn view fh
      → SeekOutcome view
          (length (file w).content + offset)
          (file w)
          (platform_seek os fh offset seek_end w)
  unfolding platform_seek
  seek_end_outcome fh offset w on =
      sought_outcome (length (file w).content + offset) (file w) fh
        (os.sys_lseek fh.fd offset seek_end w).1 (os.sys_lseek fh.fd offset seek_end w).0 on
        (subst
          (λ f.
            let (result, w') = os.sys_lseek f offset seek_end w in
            Failed IsFaulty result (os.errno w')
            ⊎ HasSought (length (file w).content + offset) (file w) (file w') result)
          (sym on) (laws.seek_end_law offset w))
