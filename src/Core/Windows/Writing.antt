-- ===== src/Core/Windows/Writing.antt =====
-- Writing, flushing and closing a file that keeps the promises of Windows.
use database_45_steps.Prelude.{
  ℕ, ◌^◌, ◌≤◌, ◌<◌, ◌≡◌, refl, sym, ap, ◌∙◌, arith, ◌⊎◌, inl, inr, Bool, true, false, not, Option,
  none, some, ◌++◌, length, take, ◌==◌, if◌then◌else◌, Bool-cases, ==_iff, take_all,
}
use mathlib.Core.Path.{subst}
use database_45_steps.Core.Types.{Bytes}
use database_45_steps.Core.DbError.{success}
use database_45_steps.Core.Platform.{FileHandle, handle_reader, is_open}
use database_45_steps.Core.Platform.Laws.{
  File, HasSynced, IsOn, WriteOutcome, CloseOutcome, SyncOutcome, refused, whole,
}
use database_45_steps.Core.Windows.Laws.{WindowsFile, Failed, HasWritten}
use database_45_steps.Core.Windows.{
  Win32, platform_write, platform_sync, platform_close, last_win32_error, written,
}
use database_45_steps.Core.Windows.Outcomes.{view, dword_small, last_error-is_error}

module _ {os : Win32} {h : ℕ} (laws : WindowsFile os h) where
  open laws use {file, IsFaulty}

  short : (n m : ℕ) → (n == m) ≡ false → n ≤ m → n < m
  short n m p k = ground arith

  written_outcome :
      (buf : Bytes) (before : File) (w : os.World) (result : Option ℕ)
      → length buf < 2 ^ 32
      → Failed IsFaulty result (os.last_error w)
        ⊎ HasWritten IsFaulty buf (length buf) before (file w) result
      → WriteOutcome (view laws) buf before (written os result (length buf) w, w)
  unfolding written
  written_outcome buf before w none small (inl failed) =
      refused failed.fault (last_error-is_error laws w failed.positive)
  written_outcome buf before w none small (inr done) = absurd (cc done.counted)
  written_outcome buf before w (some n) small (inl failed) = absurd (cc failed.absent)
  written_outcome buf before w (some n) small (inr done) =
      let same : n ≡ done.count = cc done.counted in
      let appended : (file w).content ≡ before.content ++ take n buf = cc (same, done.appended) in
      rw (dword_small laws (length buf) small) (elim (Bool-cases (n == length buf)) [
        | inl e ↦ whole (rw e refl) (
            appended
            ∙ ap (λ bs. before.content ++ bs)
                (take_all n buf (omega (arith, (==_iff n (length buf)).0 e))))
        | inr e ↦
            let less : n < length buf = short n (length buf) e (omega (arith, same, done.fits)) in
            refused (done.short (omega (arith, same, less))) (rw e refl)
      ])

  pub write_outcome :
      (fh : FileHandle) (buf : Bytes) (w : os.World)
      → IsOn (view laws) fh
      → length buf < 2 ^ 32
      → (file w).offset ≡ length (file w).content
      → WriteOutcome (view laws) buf (file w) (platform_write os fh buf w)
  unfolding platform_write
  write_outcome fh buf w on small end = rw (dword_small laws (length buf) small) (
      written_outcome buf (file w) (os.write_file fh.fd buf (length buf) w).1
        (os.write_file fh.fd buf (length buf) w).0 small
        (subst
          (λ f.
            let (result, w') = os.write_file f buf (length buf) w in
            Failed IsFaulty result (os.last_error w')
            ⊎ HasWritten IsFaulty buf (length buf) (file w) (file w') result)
          (sym on) (laws.write_law buf (length buf) w (omega arith) end)))

  synced_outcome :
      (before : File) (w : os.World) (done : Bool)
      → (IsFaulty × (done ≡ false) × (0 < os.last_error w))
        ⊎ ((done ≡ true) × HasSynced before (file w))
      → SyncOutcome (view laws) before (if not done then last_win32_error os w else success, w)
  synced_outcome before w false (inl failed) = inl (failed.0, last_error-is_error laws w failed.2)
  synced_outcome before w false (inr done) = absurd (cc done.0)
  synced_outcome before w true (inl failed) = absurd (cc failed.1)
  synced_outcome before w true (inr done) = inr (refl, done.1)

  pub sync_outcome :
      (fh : FileHandle) (w : os.World)
      → IsOn (view laws) fh
      → SyncOutcome (view laws) (file w) (platform_sync os fh w)
  unfolding platform_sync
  sync_outcome fh w on =
      synced_outcome (file w) (os.flush_file_buffers fh.fd w).1 (os.flush_file_buffers fh.fd w).0 (
        subst
          (λ f.
            let (done, w') = os.flush_file_buffers f w in
            (IsFaulty × (done ≡ false) × (0 < os.last_error w'))
            ⊎ ((done ≡ true) × HasSynced (file w) (file w')))
          (sym on) (laws.flush_law w))

  closed_outcome :
      (before : File) (fh : FileHandle) (w : os.World) (done : Bool)
      → ((IsFaulty × (done ≡ false) × (0 < os.last_error w)) ⊎ (done ≡ true))
        × ((file w).content ≡ before.content)
      → CloseOutcome
          (view laws)
          before
          (if done then success else last_win32_error os w, record fh { fd = none }, w)
  closed_outcome before fh w false (inl failed, kept) =
      (inl (failed.0, last_error-is_error laws w failed.2), kept, refl)
  closed_outcome before fh w false (inr done, kept) = absurd (cc done)
  closed_outcome before fh w true (inl failed, kept) = absurd (cc failed.1)
  closed_outcome before fh w true (inr done, kept) = (inr refl, kept, refl)

  pub close_outcome :
      (fh : FileHandle) (w : os.World)
      → IsOn (view laws) fh
      → CloseOutcome (view laws) (file w) (platform_close os fh w)
  unfolding platform_close
  close_outcome fh w on =
      let open_handle : is_open fh ≡ true = unfold is_open in rw (on, is_open) refl in
      rw open_handle (
        closed_outcome (file w) fh (os.close_handle fh.fd w).1 (os.close_handle fh.fd w).0 (
          subst
            (λ f.
              let (done, w') = os.close_handle f w in
              ((IsFaulty × (done ≡ false) × (0 < os.last_error w')) ⊎ (done ≡ true))
              × ((file w').content ≡ (file w).content))
            (sym on) (laws.close_law w)))
