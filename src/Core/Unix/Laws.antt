-- ===== src/Core/Unix/Laws.antt =====
-- What POSIX promises of the calls on an open regular file.
use database_45_steps.Prelude.{
  ℕ, ◌+◌, ◌≤◌, ◌<◌, ◌≡◌, ◌≢◌, ◌⊎◌, true, false, Option, none, some, ◌++◌, length, take, drop,
}
use database_45_steps.Core.Types.{Bytes}
use database_45_steps.Core.DbError.{ErrorCode, is_error, ok, err}
use database_45_steps.Core.Platform.{seek_set, seek_end}
use database_45_steps.Core.Platform.Laws.{File, unread, HasSynced}
use database_45_steps.Core.Unix.{Posix}

-- A call that failed has set `errno` to a positive number.
pub record Failed {A : Type 0} (IsFaulty : Type 0) (result : Option A) (errno : ℕ) : Type 0 where
  pub fault : IsFaulty
  pub absent : result ≡ none
  pub code : 0 < errno

-- A read of a regular file is full: it falls short only at the end.
pub record HasRead (size : ℕ) (before after : File) (result : Option Bytes) : Type 0 where
  pub bytes : result ≡ some (take size (unread before))
  pub kept : after.content ≡ before.content
  pub left : unread after ≡ drop size (unread before)

-- A write at the end of the file appends a front of the buffer: less than all of it only where
-- something is wrong, such as a full disk.
pub record HasWritten (IsFaulty : Type 0) (buf : Bytes) (before after : File) (result : Option ℕ)
    : Type 0 where
  pub count : ℕ
  pub counted : result ≡ some count
  pub fits : count ≤ length buf
  pub short : count < length buf → IsFaulty
  pub appended : after.content ≡ before.content ++ take count buf

pub record HasSought (offset : ℕ) (before after : File) (result : Option ℕ) : Type 0 where
  pub position : ℕ
  pub moved : result ≡ some position
  pub kept : after.content ≡ before.content
  pub at : after.offset ≡ offset

-- The promises for the descriptor `fd`.
pub record PosixFile (os : Posix) (fd : ℕ) : Type 1 where
  pub file : os.World → File
  -- that a call may fail
  pub IsFaulty : Type 0
  pub read_law :
      (size : ℕ) (w : os.World)
      → let (result, w') = os.sys_read (some fd) size w in
        Failed IsFaulty result (os.errno w') ⊎ HasRead size (file w) (file w') result
  pub write_law :
      (buf : Bytes) (w : os.World)
      → (file w).offset ≡ length (file w).content
      → let (result, w') = os.sys_write (some fd) buf w in
        Failed IsFaulty result (os.errno w') ⊎ HasWritten IsFaulty buf (file w) (file w') result
  pub seek_set_law :
      (offset : ℕ) (w : os.World)
      → let (result, w') = os.sys_lseek (some fd) offset seek_set w in
        Failed IsFaulty result (os.errno w') ⊎ HasSought offset (file w) (file w') result
  pub seek_end_law :
      (offset : ℕ) (w : os.World)
      → let (result, w') = os.sys_lseek (some fd) offset seek_end w in
        Failed IsFaulty result (os.errno w')
        ⊎ HasSought (length (file w).content + offset) (file w) (file w') result
  pub sync_law :
      (w : os.World)
      → let (done, w') = os.sys_fsync (some fd) w in
        (IsFaulty × (done ≡ false) × (0 < os.errno w'))
        ⊎ ((done ≡ true) × HasSynced (file w) (file w'))
  pub close_law :
      (w : os.World)
      → let (done, w') = os.sys_close (some fd) w in
        ((IsFaulty × (done ≡ false) × (0 < os.errno w')) ⊎ (done ≡ true))
        × ((file w').content ≡ (file w).content)

-- The promises for the path of that file. Before it is open, `file` is what a call of `open` finds:
-- a file that is not there is created, and is empty. A directory has a descriptor of its own, and no
-- call on it touches the file.
pub record PosixPath {os : Posix} {fd : ℕ} (laws : PosixFile os fd) (path : Bytes) : Type 0 where
  pub open_law :
      (w : os.World)
      → let (result, w') = os.sys_open path w in
        Failed laws.IsFaulty result (os.errno w')
        ⊎ ((result ≡ some fd)
            × ((laws.file w').content ≡ (laws.file w).content)
            × ((laws.file w').offset ≡ 0))
  pub size_law :
      (w : os.World)
      → (laws.IsFaulty × ((e : ErrorCode) × (is_error e ≡ true) × (os.file_size path w ≡ err e)))
        ⊎ (os.file_size path w ≡ ok (length (laws.file w).content))
  pub open_directory_keeps :
      (dir : Bytes) (w : os.World)
      → let (dirfd, w') = os.sys_open_directory dir w in
        (dirfd ≢ some fd) × (laws.file w' ≡ laws.file w)
  pub sync_directory_keeps :
      (dirfd : ℕ) (w : os.World)
      → dirfd ≢ fd
      → laws.file (os.sys_close (some dirfd) (os.sys_fsync (some dirfd) w).1).1 ≡ laws.file w
