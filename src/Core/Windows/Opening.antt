-- ===== src/Core/Windows/Opening.antt =====
-- `platform_open_file` on a path that keeps the promises of Windows, and the interface that the
-- rest of the program relies on.
use database_45_steps.Prelude.{ℕ, ◌≡◌, refl, ◌⊎◌, inl, inr, Option, none, some}
use database_45_steps.Core.Types.{Bytes}
use database_45_steps.Core.Platform.{FileHandle}
use database_45_steps.Core.Platform.Laws.{File, OpenOutcome, FileLaws, PathLaws}
use database_45_steps.Core.Windows.{Win32, created, to_wide, platform_open_file}
use database_45_steps.Core.Windows.Laws.{WindowsFile, WindowsPath, Failed}
use database_45_steps.Core.Windows.Outcomes.{
  view, last_error-is_error, handle_supplies, seek_set_outcome, seek_end_outcome,
}
use database_45_steps.Core.Windows.Writing.{write_outcome, sync_outcome, close_outcome}

module _ {os : Win32} {h : ℕ} (laws : WindowsFile os h) where
  open laws use {file, IsFaulty}

  created_outcome :
      (out : FileHandle) (before : File) (w : os.World) (result : Option ℕ)
      → Failed IsFaulty result (os.last_error w)
        ⊎ ((result ≡ some h) × ((file w).content ≡ before.content) × ((file w).offset ≡ 0))
      → OpenOutcome (view laws) before (created os result out w)
  unfolding created
  created_outcome out before w none (inl failed) =
      OpenOutcome.refused failed.fault (last_error-is_error laws w failed.positive)
  created_outcome out before w none (inr done) = absurd (cc done.0)
  created_outcome out before w (some n) (inl failed) = absurd (cc failed.absent)
  created_outcome out before w (some n) (inr (e, kept, start)) = OpenOutcome.ready refl e kept start

  pub open_outcome :
      {path : Bytes}
      → WindowsPath laws path
      → (out : FileHandle) (w : os.World)
      → OpenOutcome (view laws) (file w) (platform_open_file os path out w)
  unfolding platform_open_file
  open_outcome {path} paths out w =
      created_outcome out (file w) (os.create_file (to_wide os path) w).1
        (os.create_file (to_wide os path) w).0 (paths.create_law w)

  -- If the Win32 calls do on one file what Windows says, or fail with an error number, then the
  -- Windows layer keeps the promises of the platform for that file, under a view in which no write
  -- that was cut short goes unreported.
  pub windows-FileLaws : FileLaws (view laws)
  windows-FileLaws = record {
    handle_supplies = handle_supplies laws;
    write_outcome = write_outcome laws;
    seek_set_outcome = seek_set_outcome laws;
    seek_end_outcome = seek_end_outcome laws;
    sync_outcome = sync_outcome laws;
    close_outcome = close_outcome laws;
  }

  -- And for its path.
  pub windows-PathLaws : {path : Bytes} → WindowsPath laws path → PathLaws (view laws) path
  windows-PathLaws paths = record { open_outcome = open_outcome paths; size_law = paths.size_law }
