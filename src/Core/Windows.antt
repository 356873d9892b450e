-- ===== src/Core/Windows.antt =====
-- include/core/platform_windows.h and src/core/platform_windows.cpp: the platform over Win32 calls.
-- The operating system is the parameter `Win32`. A size is a `DWORD`, of 32 bits.
pub mod Laws
pub mod Outcomes
pub mod Writing
pub mod Opening
pub mod Handles
use database_45_steps.Prelude.{
  ℕ, ◌%◌, ◌^◌, Bool, true, false, not, ◌&&◌, Option, none, some, List, [], ◌==◌, if◌then◌else◌,
  length,
}
use database_45_steps.Core.Types.{Bytes}
use database_45_steps.Core.DbError.{ErrorCode, Category, success, generic_error, Result, ok, err}
use database_45_steps.Core.Platform.{Whence, FileHandle, is_open, swap, move_construct, Platform}

pub data MoveMethod : Type 0 where
  file_begin file_current file_end : MoveMethod

-- The Win32 calls and the queries of `std::filesystem` that the program makes.
pub record Win32 : Type 1 where
  pub World : Type 0
  -- GetLastError()
  pub last_error : World → ℕ
  -- MultiByteToWideChar(CP_UTF8, …) on a text that is not empty; none for no characters
  pub multi_byte_to_wide_char : Bytes → Option (List ℕ)
  -- CreateFileW(path, GENERIC_READ | GENERIC_WRITE, FILE_SHARE_READ, …, OPEN_ALWAYS, …)
  pub create_file : List ℕ → World → Option ℕ × World
  -- WriteFile(h, buf, size): the bytes that were written; none if it returned false
  pub write_file : Option ℕ → Bytes → ℕ → World → Option ℕ × World
  -- ReadFile(h, buf, size), with the bytes that were read
  pub read_file : Option ℕ → ℕ → World → Option Bytes × World
  -- SetFilePointer(h, offset, nullptr, method), with the `DWORD` that it returns
  pub set_file_pointer : Option ℕ → ℕ → MoveMethod → World → ℕ × World
  pub flush_file_buffers : Option ℕ → World → Bool × World
  pub close_handle : Option ℕ → World → Bool × World
  pub exists : Bytes → World → Bool
  pub is_directory : Bytes → World → Bool
  pub file_size : Bytes → World → Result ℕ

-- `static_cast<DWORD>(size)`
abbrev pub to_dword : ℕ → ℕ
to_dword size = size % 2 ^ 32

-- `INVALID_SET_FILE_POINTER`
abbrev pub invalid_set_file_pointer : ℕ
invalid_set_file_pointer = 0xFFFFFFFF

-- `EIO`, the value of `std::errc::io_error`
abbrev pub io_error : ℕ
io_error = 5

pub move_method : Whence → MoveMethod
move_method Whence.seek_set = MoveMethod.file_begin
move_method Whence.seek_cur = MoveMethod.file_current
move_method Whence.seek_end = MoveMethod.file_end

module _ (os : Win32) where
  open os use {
    World, last_error, multi_byte_to_wide_char, create_file, write_file, read_file,
    set_file_pointer, flush_file_buffers, close_handle,
  }

  unfoldable pub last_win32_error : World → ErrorCode
  last_win32_error w = record { category = Category.system; value = last_error w }

  -- The empty text where there is nothing to convert or the conversion fails.
  unfoldable pub to_wide : Bytes → List ℕ
  to_wide path =
      let wide : List ℕ = elim (multi_byte_to_wide_char path) [ none ↦ [] | some wide ↦ wide ] in
      if length path == 0 then [] else wide

  pub created : Option ℕ → FileHandle → World → ErrorCode × FileHandle × World
  created none out w = (last_win32_error w, out, w)
  created (some h) out w = (success, record out { fd = some h }, w)

  unfoldable pub platform_open_file : Bytes → FileHandle → World → ErrorCode × FileHandle × World
  unfolding created last_win32_error
  platform_open_file path out w = let (h, w') = create_file (to_wide path) w in created h out w'

  pub written : Option ℕ → ℕ → World → ErrorCode
  written none size w = last_win32_error w
  written (some n) size w = if not (n == to_dword size) then generic_error io_error else success

  unfoldable pub platform_write : FileHandle → Bytes → World → ErrorCode × World
  unfolding written last_win32_error
  platform_write fh buf w =
      let (n, w') = write_file fh.fd buf (to_dword (length buf)) w in
      (written n (length buf) w', w')

  pub filled : Option Bytes → FileHandle → World → Result Bytes × FileHandle × World
  filled none fh w = (err (last_win32_error w), fh, w)
  filled (some bs) fh w = (ok bs, record fh { at_eof = length bs == 0 }, w)

  unfoldable pub platform_read : FileHandle → ℕ → World → Result Bytes × FileHandle × World
  unfolding filled last_win32_error
  platform_read fh size w = let (bs, w') = read_file fh.fd (to_dword size) w in filled bs fh w'

  pub sought : ℕ → FileHandle → World → ErrorCode × FileHandle × World
  sought result fh w =
      if result == invalid_set_file_pointer && not (last_error w == 0)
      then (last_win32_error w, fh, w)
      else (success, record fh { at_eof = false }, w)

  -- The `default` of the switch is for none of the three values of `Whence`.
  unfoldable pub platform_seek : FileHandle → ℕ → Whence → World → ErrorCode × FileHandle × World
  unfolding sought move_method last_win32_error
  platform_seek fh offset whence w =
      let (result, w') = set_file_pointer fh.fd offset (move_method whence) w in sought result fh w'

  unfoldable pub platform_sync : FileHandle → World → ErrorCode × World
  unfolding last_win32_error
  platform_sync fh w =
      let (done, w') = flush_file_buffers fh.fd w in
      (if not done then last_win32_error w' else success, w')

  unfoldable pub platform_close : FileHandle → World → ErrorCode × FileHandle × World
  unfolding is_open last_win32_error
  platform_close fh w =
      let (done, w') = close_handle fh.fd w in
      if not (is_open fh)
      then (success, fh, w)
      else (if done then success else last_win32_error w', record fh { fd = none }, w')

  -- `~FileHandle`
  unfoldable pub destroy : FileHandle → World → World
  unfolding is_open
  destroy fh w = if is_open fh then (close_handle fh.fd w).1 else w

  -- `operator=(FileHandle &&)`: what the handle held is closed by the temporary.
  unfoldable pub move_assign : FileHandle → FileHandle → World → FileHandle × FileHandle × World
  unfolding move_construct swap destroy
  move_assign this other w =
      let (temp, other') = move_construct other in
      let (this', temp') = swap this temp in (this', other', destroy temp' w)

  abbrev pub windows : Platform
  windows = record {
    World = World;
    platform_open_file = platform_open_file;
    platform_write = platform_write;
    platform_read = platform_read;
    platform_seek = platform_seek;
    platform_sync = platform_sync;
    platform_close = platform_close;
    exists = os.exists;
    is_directory = os.is_directory;
    file_size = os.file_size;
  }
