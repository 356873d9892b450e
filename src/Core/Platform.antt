-- ===== src/Core/Platform.antt =====
-- include/core/platform.h: files, whatever the operating system. `Platform` is what the build
-- selects one implementation of.
pub mod Laws
use database_45_steps.Prelude.{ℕ, Bool, true, false, Option, none, some}
use database_45_steps.Core.Types.{Bytes}
use database_45_steps.Core.DbError.{ErrorCode, Result}
use database_45_steps.Core.Reader.{Reader}

pub data Whence : Type 0 where
  seek_set seek_cur seek_end : Whence

-- The descriptor of POSIX or the `HANDLE` of Windows; `none` for -1 and `INVALID_HANDLE_VALUE`.
pub record FileHandle : Type 0 where
  pub fd : Option ℕ
  pub at_eof : Bool

-- `FileHandle()`
abbrev pub closed_handle : FileHandle
closed_handle = record { fd = none; at_eof = false }

unfoldable pub is_open : FileHandle → Bool
is_open fh = elim fh.fd [ none ↦ false | some fd ↦ true ]

unfoldable pub swap : FileHandle → FileHandle → FileHandle × FileHandle
swap this other = (other, this)

-- `FileHandle(FileHandle &&)`: the new handle, and what is left of the old one.
unfoldable pub move_construct : FileHandle → FileHandle × FileHandle
unfolding swap
move_construct other = swap closed_handle other

-- The functions of the header, and the queries of `std::filesystem` that the program makes. A
-- function that changes the handle returns it.
pub record Platform : Type 1 where
  pub World : Type 0
  pub platform_open_file : Bytes → FileHandle → World → ErrorCode × FileHandle × World
  pub platform_write : FileHandle → Bytes → World → ErrorCode × World
  pub platform_read : FileHandle → ℕ → World → Result Bytes × FileHandle × World
  pub platform_seek : FileHandle → ℕ → Whence → World → ErrorCode × FileHandle × World
  pub platform_sync : FileHandle → World → ErrorCode × World
  pub platform_close : FileHandle → World → ErrorCode × FileHandle × World
  pub exists : Bytes → World → Bool
  pub is_directory : Bytes → World → Bool
  pub file_size : Bytes → World → Result ℕ

module _ (os : Platform) where
  open os use {World, platform_read}

  -- A handle as a source of bytes: `FileHandle::read`.
  unfoldable pub handle_read : FileHandle × World → ℕ → Result Bytes × (FileHandle × World)
  handle_read (fh, w) size = let (r, fh', w') = platform_read fh size w in (r, (fh', w'))

  instance abbrev pub handle_reader : Reader (FileHandle × World)
  handle_reader = record { read = handle_read }
