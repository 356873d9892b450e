-- ===== src/Core/Windows/Laws.antt =====
-- What Windows promises of the calls on an open regular file.
use database_45_steps.Prelude.{
  ℕ, ◌+◌, ◌≤◌, ◌<◌, ◌≡◌, ◌⊎◌, ◌≢◌, true, false, Option, none, some, ◌++◌, length, take, drop,
}
use database_45_steps.Core.Types.{Bytes}
use database_45_steps.Core.DbError.{ErrorCode, is_error, ok, err}
use database_45_steps.Core.Platform.Laws.{File, unread, HasSynced}
use database_45_steps.Core.Windows.{Win32, file_begin, file_end, invalid_set_file_pointer, to_wide}

-- A call that failed has set the error code that `GetLastError` returns.
pub record Failed {A : Type 0} (IsFaulty : Type 0) (result : Option A) (code : ℕ) : Type 0 where
  pub fault : IsFaulty
  pub absent : result ≡ none
  pub positive : 0 < code

-- A read of a file falls short only at the end.
pub record HasRead (size : ℕ) (before after : File) (result : Option Bytes) : Type 0 where
  pub bytes : result ≡ some (take size (unread before))
  pub kept : after.content ≡ before.content
  pub left : unread after ≡ drop size (unread before)

-- A write at the end of the file appends a front of what it was given the size of: less than all of
-- it only where something is wrong.
pub record HasWritten (IsFaulty : Type 0) (buf : Bytes) (size : ℕ) (before after : File)
    (result : Option ℕ) : Type 0 where
  pub count : ℕ
  pub counted : result ≡ some count
  pub fits : count ≤ size
  pub short : count < size → IsFaulty
  pub appended : after.content ≡ before.content ++ take count buf

-- A seek that failed returns a special value and an error code; one that succeeded returns the low
-- word of the position, with no error code where that is the special value.
pub data Seeking (IsFaulty : Type 0) (offset : ℕ) (before after : File) (result code : ℕ)
    : Type 0 where
  failed :
      IsFaulty
      → result ≡ invalid_set_file_pointer
      → 0 < code
      → Seeking IsFaulty offset before after result code
  moved :
      (result ≢ invalid_set_file_pointer) ⊎ (code ≡ 0)
      → after.content ≡ before.content
      → after.offset ≡ offset
      → Seeking IsFaulty offset before after result code

-- The promises for the handle `h`.
pub record WindowsFile (os : Win32) (h : ℕ) : Type 1 where
  pub file : os.World → File
  -- that a call may fail
  pub IsFaulty : Type 0
  pub read_law :
      (size : ℕ) (w : os.World)
      → let (result, w') = os.read_file (some h) size w in
        Failed IsFaulty result (os.last_error w') ⊎ HasRead size (file w) (file w') result
  pub write_law :
      (buf : Bytes) (size : ℕ) (w : os.World)
      → size ≤ length buf
      → (file w).offset ≡ length (file w).content
      → let (result, w') = os.write_file (some h) buf size w in
        Failed IsFaulty result (os.last_error w')
        ⊎ HasWritten IsFaulty buf size (file w) (file w') result
  pub seek_begin_law :
      (offset : ℕ) (w : os.World)
      → let (result, w') = os.set_file_pointer (some h) offset file_begin w in
        Seeking IsFaulty offset (file w) (file w') result (os.last_error w')
  pub seek_end_law :
      (offset : ℕ) (w : os.World)
      → let (result, w') = os.set_file_pointer (some h) offset file_end w in
        Seeking IsFaulty
          (length (file w).content + offset)
          (file w)
          (file w')
          result
          (os.last_error w')
  pub flush_law :
      (w : os.World)
      → let (done, w') = os.flush_file_buffers (some h) w in
        (IsFaulty × (done ≡ false) × (0 < os.last_error w'))
        ⊎ ((done ≡ true) × HasSynced (file w) (file w'))
  pub close_law :
      (w : os.World)
      → let (done, w') = os.close_handle (some h) w in
        ((IsFaulty × (done ≡ false) × (0 < os.last_error w')) ⊎ (done ≡ true))
        × ((file w').content ≡ (file w).content)

-- The promises for the path of that file. A file that is not there is created, and is empty.
pub record WindowsPath {os : Win32} {h : ℕ} (laws : WindowsFile os h) (path : Bytes) : Type 0 where
  pub create_law :
      (w : os.World)
      → let (result, w') = os.create_file (to_wide os path) w in
        Failed laws.IsFaulty result (os.last_error w')
        ⊎ ((result ≡ some h)
            × ((laws.file w').content ≡ (laws.file w).content)
            × ((laws.file w').offset ≡ 0))
  pub size_law :
      (w : os.World)
      → (laws.IsFaulty × ((e : ErrorCode) × (is_error e ≡ true) × (os.file_size path w ≡ err e)))
        ⊎ (os.file_size path w ≡ ok (length (laws.file w).content))
