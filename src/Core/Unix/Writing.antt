-- ===== src/Core/Unix/Writing.antt =====
-- Writing, syncing and closing a file that keeps the promises of POSIX.
use database_45_steps.Prelude.{
  ℕ, ◌^◌, ◌≤◌, ◌<◌, ◌≡◌, refl, sym, ap, ◌∙◌, arith, ◌⊎◌, inl, inr, Bool, true, false, Option, none,
  some, ◌++◌, length, take, ◌==◌, if◌then◌else◌, Bool-cases, ==_iff, take_all,
}
use mathlib.Core.Path.{subst}
use database_45_steps.Core.Types.{Bytes}
use database_45_steps.Core.DbError.{ErrorCode, success, is_error}
use database_45_steps.Core.Platform.{FileHandle, handle_reader, is_open}
use database_45_steps.Core.Platform.Laws.{
  File, HasSynced, IsOn, WriteOutcome, CloseOutcome, refused, whole, unnoticed,
}
use database_45_steps.Core.Unix.Laws.{PosixFile, Failed, HasWritten}
use database_45_steps.Core.Unix.{
  Posix, platform_write, platform_sync, platform_close, errno_to_error, written,
}
use database_45_steps.Core.Unix.Outcomes.{view, errno-is_error}

module _ {os : Posix} {fd : ℕ} (laws : PosixFile os fd) where
  open laws use {file, IsFaulty}

  errno-unnoticed :
      (w : os.World) → (os.errno w == 0) ≡ true → is_error (errno_to_error os w) ≡ false
  unfolding errno_to_error
  errno-unnoticed w h = ground arith

  short : (n m : ℕ) → (n == m) ≡ false → n ≤ m → n < m
  short n m h k = ground arith

  written_outcome :
      (buf : Bytes) (before : File) (w : os.World) (result : Option ℕ)
      → Failed IsFaulty result (os.errno w) ⊎ HasWritten IsFaulty buf before (file w) result
      → WriteOutcome (view laws) buf before (written os result (length buf) w, w)
  unfolding written
  written_outcome buf before w none (inl failed) =
      refused failed.fault (errno-is_error laws w failed.code)
  written_outcome buf before w none (inr done) = absurd (cc done.counted)
  written_outcome buf before w (some n) (inl failed) = absurd (cc failed.absent)
  written_outcome buf before w (some n) (inr done) =
      let same : n ≡ done.count = cc done.counted in
      let appended : (file w).content ≡ before.content ++ take n buf = cc (same, done.appended) in
      elim (Bool-cases (n == length buf)) [
        | inl e ↦ whole (rw e) (
            appended
            ∙ ap (λ bs. before.content ++ bs)
                (take_all n buf (omega (arith, (==_iff n (length buf)).0 e))))
        | inr e ↦
            let less : n < length buf = short n (length buf) e (omega (arith, same, done.fits)) in
            let fault : IsFaulty = done.short (omega (arith, same, less)) in
            elim (Bool-cases (os.errno w == 0)) [
              | inl z ↦
                  unnoticed fault (rw e (errno-unnoticed w z)) n less ((==_iff (os.errno w) 0).0 z)
                    appended
              | inr z ↦ refused fault (rw e (errno-is_error laws w (ground arith)))
            ]
      ]

  pub write_outcome :
      (fh : FileHandle) (buf : Bytes) (w : os.World)
      → IsOn (view laws) fh
      → length buf < 2 ^ 32
      → (file w).offset ≡ length (file w).content
      → WriteOutcome (view laws) buf (file w) (platform_write os fh buf w)
  unfolding platform_write
  write_outcome fh buf w on small end =
      written_outcome buf (file w) (os.sys_write fh.fd buf w).1 (os.sys_write fh.fd buf w).0 (
        subst
          (λ f.
            let (result, w') = os.sys_write f buf w in
            Failed IsFaulty result (os.errno w')
            ⊎ HasWritten IsFaulty buf (file w) (file w') result)
          (sym on) (laws.write_law buf w end))

  synced_outcome :
      (before : File) (w : os.World) (done : Bool)
      → (IsFaulty × (done ≡ false) × (0 < os.errno w)) ⊎ ((done ≡ true) × HasSynced before (file w))
      → let e : ErrorCode = if done then success else errno_to_error os w in
        (IsFaulty × (is_error e ≡ true)) ⊎ ((e ≡ success) × HasSynced before (file w))
  synced_outcome before w false (inl failed) = inl (failed.0, errno-is_error laws w failed.2)
  synced_outcome before w false (inr done) = absurd (cc done.0)
  synced_outcome before w true (inl failed) = absurd (cc failed.1)
  synced_outcome before w true (inr done) = inr (refl, done.1)

  -- A sync reports an error, or has put the content on the disk.
  pub sync_outcome :
      (fh : FileHandle) (w : os.World)
      → IsOn (view laws) fh
      → let (e, w') = platform_sync os fh w in
        (IsFaulty × (is_error e ≡ true)) ⊎ ((e ≡ success) × HasSynced (file w) (file w'))
  unfolding platform_sync
  sync_outcome fh w on = synced_outcome (file w) (os.sys_fsync fh.fd w).1 (os.sys_fsync fh.fd w).0 (
      subst
        (λ f.
          let (done, w') = os.sys_fsync f w in
          (IsFaulty × (done ≡ false) × (0 < os.errno w'))
          ⊎ ((done ≡ true) × HasSynced (file w) (file w')))
        (sym on) (laws.sync_law w))

  closed_outcome :
      (before : File) (fh : FileHandle) (w : os.World) (done : Bool)
      → ((IsFaulty × (done ≡ false) × (0 < os.errno w)) ⊎ (done ≡ true))
        × ((file w).content ≡ before.content)
      → CloseOutcome
          (view laws)
          before
          (if done then success else errno_to_error os w, record fh { fd = none }, w)
  closed_outcome before fh w false (inl failed, kept) =
      (inl (failed.0, errno-is_error laws w failed.2), kept, refl)
  closed_outcome before fh w false (inr done, kept) = absurd (cc done)
  closed_outcome before fh w true (inl failed, kept) = absurd (cc failed.1)
  closed_outcome before fh w true (inr done, kept) = (inr refl, kept, refl)

  pub close_outcome :
      (fh : FileHandle) (w : os.World)
      → IsOn (view laws) fh
      → CloseOutcome (view laws) (file w) (platform_close os fh w)
  unfolding platform_close
  close_outcome fh w on =
      let open_handle : is_open fh ≡ true = unfold is_open in rw (on, is_open) refl in
      rw open_handle (
        closed_outcome (file w) fh (os.sys_close fh.fd w).1 (os.sys_close fh.fd w).0 (
          subst
            (λ f.
              let (done, w') = os.sys_close f w in
              ((IsFaulty × (done ≡ false) × (0 < os.errno w')) ⊎ (done ≡ true))
              × ((file w').content ≡ (file w).content))
            (sym on) (laws.close_law w)))
