-- ===== src/Core/Unix.antt =====
-- include/core/platform_unix.h and src/core/platform_unix.cpp: the platform over POSIX calls. The
-- operating system is the parameter `Posix`. An absent result of a call is its negative return
-- value.
pub mod Laws
pub mod Outcomes
pub mod Writing
pub mod Opening
pub mod Handles
use database_45_steps.Prelude.{
  ℕ, Bool, true, false, Option, none, some, [], ◌∷◌, ◌==◌, if◌then◌else◌, length,
}
use database_45_steps.Core.Types.{Bytes}
use database_45_steps.Core.DbError.{ErrorCode, success, generic_error, Result, ok, err}
use database_45_steps.Core.Platform.{Whence, FileHandle, is_open, swap, move_construct, Platform}

-- The system calls and the queries of `std::filesystem` that the program makes.
pub record Posix : Type 1 where
  pub World : Type 0
  pub errno : World → ℕ
  -- open(path, O_RDWR | O_CREAT, 0644) and open(path, O_RDONLY | O_DIRECTORY)
  pub sys_open : Bytes → World → Option ℕ × World
  pub sys_open_directory : Bytes → World → Option ℕ × World
  -- read(fd, buf, size), with the bytes that were read
  pub sys_read : Option ℕ → ℕ → World → Option Bytes × World
  pub sys_write : Option ℕ → Bytes → World → Option ℕ × World
  pub sys_lseek : Option ℕ → ℕ → Whence → World → Option ℕ × World
  -- whether the return value is not negative
  pub sys_fsync : Option ℕ → World → Bool × World
  pub sys_close : Option ℕ → World → Bool × World
  pub exists : Bytes → World → Bool
  pub is_directory : Bytes → World → Bool
  pub file_size : Bytes → World → Result ℕ

-- `path.substr(0, path.find_last_of('/'))`, where that finds a slash.
pub before_last_slash : Bytes → Option Bytes
before_last_slash [] = none
before_last_slash (c ∷ path) = elim (before_last_slash path) [
  | some dir ↦ some (c ∷ dir)
  | none ↦ if c == b'/' then some [] else none
]

-- The directory that is synced. `find_last_of` answers `npos` where there is no slash, and then
-- `substr` takes the whole path.
pub parent_directory : Bytes → Bytes
parent_directory path =
    let dir : Bytes = elim (before_last_slash path) [ some dir ↦ dir | none ↦ path ] in
    if length dir == 0 then b'.' ∷ [] else dir

module _ (os : Posix) where
  open os use {
    World, errno, sys_open, sys_open_directory, sys_read, sys_write, sys_lseek, sys_fsync,
    sys_close,
  }

  unfoldable pub errno_to_error : World → ErrorCode
  errno_to_error w = generic_error (errno w)

  -- A failure to open or to sync the directory is not reported.
  pub sync_directory : Option ℕ → World → World
  sync_directory none w = w
  sync_directory (some dirfd) w = (sys_close (some dirfd) (sys_fsync (some dirfd) w).1).1

  pub opened : Option ℕ → Bytes → FileHandle → World → ErrorCode × FileHandle × World
  opened none path out w = (errno_to_error w, out, w)
  opened (some fd) path out w =
      let (dirfd, w') = sys_open_directory (parent_directory path) w in
      (success, record out { fd = some fd }, sync_directory dirfd w')

  unfoldable pub platform_open_file : Bytes → FileHandle → World → ErrorCode × FileHandle × World
  unfolding opened sync_directory errno_to_error parent_directory before_last_slash
  platform_open_file path out w = let (fd, w') = sys_open path w in opened fd path out w'

  -- A short write reports what `errno` holds, which the call has not set.
  pub written : Option ℕ → ℕ → World → ErrorCode
  written none size w = errno_to_error w
  written (some n) size w = if n == size then success else errno_to_error w

  unfoldable pub platform_write : FileHandle → Bytes → World → ErrorCode × World
  unfolding written errno_to_error
  platform_write fh buf w = let (n, w') = sys_write fh.fd buf w in (written n (length buf) w', w')

  pub filled : Option Bytes → FileHandle → World → Result Bytes × FileHandle × World
  filled none fh w = (err (errno_to_error w), fh, w)
  filled (some bs) fh w = (ok bs, record fh { at_eof = length bs == 0 }, w)

  -- A failed call has set `errno` to a positive number, so its code is an error.
  unfoldable pub platform_read : FileHandle → ℕ → World → Result Bytes × FileHandle × World
  unfolding filled errno_to_error
  platform_read fh size w = let (bs, w') = sys_read fh.fd size w in filled bs fh w'

  pub sought : Option ℕ → FileHandle → World → ErrorCode × FileHandle × World
  sought none fh w = (errno_to_error w, fh, w)
  sought (some position) fh w = (success, record fh { at_eof = false }, w)

  unfoldable pub platform_seek : FileHandle → ℕ → Whence → World → ErrorCode × FileHandle × World
  unfolding sought errno_to_error
  platform_seek fh offset whence w =
      let (position, w') = sys_lseek fh.fd offset whence w in sought position fh w'

  unfoldable pub platform_sync : FileHandle → World → ErrorCode × World
  unfolding errno_to_error
  platform_sync fh w =
      let (done, w') = sys_fsync fh.fd w in (if done then success else errno_to_error w', w')

  unfoldable pub platform_close : FileHandle → World → ErrorCode × FileHandle × World
  unfolding is_open errno_to_error
  platform_close fh w =
      let (done, w') = sys_close fh.fd w in
      if is_open fh
      then (if done then success else errno_to_error w', record fh { fd = none }, w')
      else (success, fh, w)

  -- `~FileHandle`
  unfoldable pub destroy : FileHandle → World → World
  unfolding is_open
  destroy fh w = if is_open fh then (sys_close fh.fd w).1 else w

  -- `operator=(FileHandle &&)`: what the handle held is closed by the temporary.
  unfoldable pub move_assign : FileHandle → FileHandle → World → FileHandle × FileHandle × World
  unfolding move_construct swap destroy
  move_assign this other w =
      let (temp, other') = move_construct other in
      let (this', temp') = swap this temp in (this', other', destroy temp' w)

  abbrev pub unix : Platform
  unix = record {
    World = World;
    platform_open_file = platform_open_file;
    platform_write = platform_write;
    platform_read = platform_read;
    platform_seek = platform_seek;
    platform_sync = platform_sync;
    platform_close = platform_close;
    exists = os.exists;
    is_directory = os.is_directory;
    file_size = os.file_size;
  }
