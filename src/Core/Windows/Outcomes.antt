-- ===== src/Core/Windows/Outcomes.antt =====
-- The platform functions on a handle that keeps the promises of Windows.
use database_45_steps.Prelude.{
  ℕ, ◌+◌, ◌^◌, ◌<◌, ◌≡◌, ◌≢◌, refl, sym, ◌∙◌, arith, ◌⊎◌, inl, inr, true, false, not, ◌&&◌, Option,
  none, some, length, ◌==◌,
}
use mathlib.Core.Path.{subst}
use database_45_steps.Core.Types.{Bytes}
use database_45_steps.Core.DbError.{is_error}
use database_45_steps.Core.Reader.{ReadOutcome, Supplies}
use database_45_steps.Core.Platform.{FileHandle, seek_set, seek_end, handle_reader, handle_read}
use database_45_steps.Core.Platform.Laws.{
  File, View, IsOn, IsReading, unread_of, SeekOutcome, refused, moved,
}
use database_45_steps.Core.Windows.Laws.{WindowsFile, Failed, HasRead, Seeking}
use database_45_steps.Core.Windows.{
  Win32, windows, file_begin, file_end, invalid_set_file_pointer, to_dword, platform_read,
  platform_seek, last_win32_error, filled, sought,
}

module _ {os : Win32} {h : ℕ} (laws : WindowsFile os h) where
  open laws use {file, IsFaulty}

  -- The file as the rest of the program sees it. No short write is silent.
  abbrev pub view : View (windows os)
  view = record { fd = h; file = file; IsFaulty = IsFaulty; IsSilent = λ w. ⊥ }

  pub last_error-is_error :
      (w : os.World) → 0 < os.last_error w → is_error (last_win32_error os w) ≡ true
  unfolding last_win32_error
  last_error-is_error w p = ground arith

  filled_outcome :
      (content : Bytes) (fh : FileHandle) (w w' : os.World) (size : ℕ) (result : Option Bytes)
      → IsReading view content (fh, w)
      → Failed IsFaulty result (os.last_error w') ⊎ HasRead size (file w) (file w') result
      → let (r, fh', w'') = filled os result fh w' in
        ReadOutcome (unread_of view) (IsReading view content) IsFaulty (fh, w) size (r, (fh', w''))
  unfolding filled
  filled_outcome content fh w w' size none good (inl failed) = inl (
    failed.fault,
    (
      last_win32_error os w',
      (unfold last_win32_error in refl, last_error-is_error w' failed.positive),
      refl,
    ),
  )
  filled_outcome content fh w w' size none good (inr done) = absurd (cc done.bytes)
  filled_outcome content fh w w' size (some bs) good (inl failed) = absurd (cc failed.absent)
  filled_outcome content fh w w' size (some bs) good (inr done) =
      inr (ground (arith, done.bytes), done.left, (good.0, done.kept ∙ good.1))

  pub dword_small : (size : ℕ) → size < 2 ^ 32 → to_dword size ≡ size
  dword_small size small = omega arith

  -- Under the promises, a handle supplies the bytes from its offset on.
  pub handle_supplies :
      (content : Bytes)
      → Supplies ⦃reader = handle_reader (windows os)⦄
          (unread_of view)
          (IsReading view content)
          IsFaulty
  unfolding handle_read platform_read
  handle_supplies content = record {
    reads = λ state size good small. rw (dword_small size small) (
        filled_outcome content state.0 state.1 (os.read_file state.0.fd size state.1).1 size
          (os.read_file state.0.fd size state.1).0 good
          (subst
            (λ f.
              let (result, w') = os.read_file f size state.1 in
              Failed IsFaulty result (os.last_error w')
              ⊎ HasRead size (file state.1) (file w') result)
            (sym good.0) (laws.read_law size state.1)));
  }

  sought_outcome :
      (offset : ℕ) (before : File) (fh : FileHandle) (w : os.World) (result : ℕ)
      → IsOn view fh
      → Seeking IsFaulty offset before (file w) result (os.last_error w)
      → SeekOutcome view offset before (sought os result fh w)
  unfolding sought
  sought_outcome offset before fh w result on (Seeking.failed fault same code) =
      let bad : (result == invalid_set_file_pointer && not (os.last_error w == 0)) ≡ true =
        ground arith in
      rw bad (refused fault (last_error-is_error w code))
  sought_outcome offset before fh w result on (Seeking.moved fine kept at) =
      rw (accepted fine) (moved refl on kept at)
    where
      accepted :
          (result ≢ invalid_set_file_pointer) ⊎ (os.last_error w ≡ 0)
          → (result == invalid_set_file_pointer && not (os.last_error w == 0)) ≡ false
      accepted (inl ne) = ground (arith, ne)
      accepted (inr e) = ground arith

  pub seek_set_outcome :
      (fh : FileHandle) (offset : ℕ) (w : os.World)
      → IsOn view fh
      → SeekOutcome view offset (file w) (platform_seek os fh offset seek_set w)
  unfolding platform_seek
  seek_set_outcome fh offset w on =
      sought_outcome offset (file w) fh (os.set_file_pointer fh.fd offset file_begin w).1
        (os.set_file_pointer fh.fd offset file_begin w).0 on
        (subst
          (λ f.
            let (result, w') = os.set_file_pointer f offset file_begin w in
            Seeking IsFaulty offset (file w) (file w') result (os.last_error w'))
          (sym on) (laws.seek_begin_law offset w))

  pub seek_end_outcome :
      (fh : FileHandle) (offset : ℕ) (w : os.World)
      → IsOn view fh
      → SeekOutcome view
          (length (file w).content + offset)
          (file w)
          (platform_seek os fh offset seek_end w)
  unfolding platform_seek
  seek_end_outcome fh offset w on =
      sought_outcome (length (file w).content + offset) (file w) fh
        (os.set_file_pointer fh.fd offset file_end w).1
        (os.set_file_pointer fh.fd offset file_end w).0 on
        (subst
          (λ f.
            let (result, w') = os.set_file_pointer f offset file_end w in
            Seeking IsFaulty (length (file w).content + offset) (file w) (file w') result
              (os.last_error w'))
          (sym on) (laws.seek_end_law offset w))
