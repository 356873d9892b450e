-- ===== src/Core/Unix/Opening.antt =====
-- `platform_open_file` on a path that keeps the promises of POSIX, and the interface that the rest
-- of the program relies on.
use database_45_steps.Prelude.{ℕ, ◌≡◌, ◌≢◌, refl, ap, ◌∙◌, ◌⊎◌, inl, inr, Option, none, some}
use database_45_steps.Core.Types.{Bytes}
use database_45_steps.Core.Platform.{FileHandle}
use database_45_steps.Core.Platform.Laws.{File, OpenOutcome, FileLaws, PathLaws}
use database_45_steps.Core.Unix.{
  Posix, sync_directory, opened, parent_directory, platform_open_file,
}
use database_45_steps.Core.Unix.Laws.{PosixFile, PosixPath, Failed}
use database_45_steps.Core.Unix.Outcomes.{
  view, errno-is_error, handle_supplies, seek_set_outcome, seek_end_outcome,
}
use database_45_steps.Core.Unix.Writing.{write_outcome, sync_outcome, close_outcome}

module _ {os : Posix} {fd : ℕ} (laws : PosixFile os fd) where
  open laws use {file, IsFaulty}

  module _ {path : Bytes} (paths : PosixPath laws path) where
    directory_kept :
        (dirfd : Option ℕ) (w : os.World)
        → dirfd ≢ some fd
        → file (sync_directory os dirfd w) ≡ file w
    unfolding sync_directory
    directory_kept none w ne = refl
    directory_kept (some dirfd) w ne = paths.sync_directory_keeps dirfd w (λ e. ne (ap some e))

    opened_outcome :
        (out : FileHandle) (before : File) (w : os.World) (result : Option ℕ)
        → Failed IsFaulty result (os.errno w)
          ⊎ ((result ≡ some fd) × ((file w).content ≡ before.content) × ((file w).offset ≡ 0))
        → OpenOutcome (view laws) before (opened os result path out w)
    unfolding opened
    opened_outcome out before w none (inl failed) =
        OpenOutcome.refused failed.fault (errno-is_error laws w failed.code)
    opened_outcome out before w none (inr done) = absurd (cc done.0)
    opened_outcome out before w (some n) (inl failed) = absurd (cc failed.absent)
    opened_outcome out before w (some n) (inr (e, kept, start)) =
        let dir : Bytes = parent_directory path in
        let same : file
              (sync_directory os (os.sys_open_directory dir w).0 (os.sys_open_directory dir w).1)
            ≡ file w =
          directory_kept (os.sys_open_directory dir w).0 (os.sys_open_directory dir w).1
            (paths.open_directory_keeps dir w).0
          ∙ (paths.open_directory_keeps dir w).1 in
        OpenOutcome.ready refl e (ap (λ f. f.content) same ∙ kept) (ap (λ f. f.offset) same ∙ start)

    pub open_outcome :
        (out : FileHandle) (w : os.World)
        → OpenOutcome (view laws) (file w) (platform_open_file os path out w)
    unfolding platform_open_file
    open_outcome out w =
        opened_outcome out (file w) (os.sys_open path w).1 (os.sys_open path w).0 (paths.open_law w)

  -- If the system calls do on one file what POSIX says, or fail with an error number, then the
  -- POSIX layer keeps the promises of the platform for that file: reading gives the bytes that are
  -- left, a write appends all of the buffer, or reports an error, or is cut short at a fault and
  -- may go unreported; seeking, syncing and closing do what they are for or report an error.
  pub unix-FileLaws : FileLaws (view laws)
  unix-FileLaws = record {
    handle_supplies = handle_supplies laws;
    write_outcome = write_outcome laws;
    seek_set_outcome = seek_set_outcome laws;
    seek_end_outcome = seek_end_outcome laws;
    sync_outcome = sync_outcome laws;
    close_outcome = close_outcome laws;
  }

  -- And for its path.
  pub unix-PathLaws : {path : Bytes} → PosixPath laws path → PathLaws (view laws) path
  unix-PathLaws paths = record { open_outcome = open_outcome paths; size_law = paths.size_law }
