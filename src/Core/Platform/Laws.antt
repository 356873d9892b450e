-- ===== src/Core/Platform/Laws.antt =====
-- What a platform promises of an open regular file, with a view of the file that the program does
-- not have. Each implementation has a theorem that it keeps these promises.
use database_45_steps.Prelude.{
  ℕ, ◌+◌, ◌<◌, ◌≡◌, ◌⊎◌, ◌^◌, true, false, some, none, ◌++◌, length, take, drop,
}
use database_45_steps.Core.Types.{Bytes}
use database_45_steps.Core.DbError.{ErrorCode, is_error, success, ok, err}
use database_45_steps.Core.Reader.{Supplies}
use database_45_steps.Core.Platform.{Platform, FileHandle, seek_set, seek_end, handle_reader}

-- The view of an open file: its content, the offset of the descriptor, and what is on the disk.
pub record File : Type 0 where
  pub content : Bytes
  pub offset : ℕ
  pub durable : Bytes

-- The bytes from the offset on.
abbrev pub unread : File → Bytes
unread f = drop f.offset f.content

pub record HasSynced (before after : File) : Type 0 where
  pub kept : after.content ≡ before.content
  pub durable : after.durable ≡ before.content

-- One file of a platform. `IsFaulty` says that calls may fail; `IsSilent` holds where a write that
-- was cut short may be reported as a success.
pub record View (os : Platform) : Type 1 where
  pub fd : ℕ
  pub file : os.World → File
  pub IsFaulty : Type 0
  pub IsSilent : os.World → Type 0

module _ {os : Platform} (view : View os) where
  open view use {fd, file, IsFaulty, IsSilent}

  -- The handle that owns the descriptor.
  abbrev pub IsOn : FileHandle → Type 0
  IsOn fh = fh.fd ≡ some fd

  -- A handle on the file while that has the given content.
  abbrev pub IsReading : Bytes → FileHandle × os.World → Type 0
  IsReading content (fh, w) = IsOn fh × ((file w).content ≡ content)

  abbrev pub unread_of : FileHandle × os.World → Bytes
  unread_of (fh, w) = unread (file w)

  -- A seek reports an error, or moves the offset and keeps the content.
  pub data SeekOutcome (offset : ℕ) (before : File)
      : ErrorCode × FileHandle × os.World → Type 0 where
    refused :
        {r : ErrorCode × FileHandle × os.World}
        → IsFaulty
        → is_error r.0 ≡ true
        → SeekOutcome offset before r
    moved :
        {r : ErrorCode × FileHandle × os.World}
        → r.0 ≡ success
        → IsOn r.1
        → (file r.2).content ≡ before.content
        → (file r.2).offset ≡ offset
        → SeekOutcome offset before r

  -- A write at the end reports an error, or appends the buffer, or appends less of it and reports
  -- nothing.
  pub data WriteOutcome (buf : Bytes) (before : File) : ErrorCode × os.World → Type 0 where
    refused :
        {r : ErrorCode × os.World} → IsFaulty → is_error r.0 ≡ true → WriteOutcome buf before r
    whole :
        {r : ErrorCode × os.World}
        → r.0 ≡ success
        → (file r.1).content ≡ before.content ++ buf
        → WriteOutcome buf before r
    unnoticed :
        {r : ErrorCode × os.World}
        → IsFaulty
        → is_error r.0 ≡ false
        → (n : ℕ) → n < length buf
        → IsSilent r.1
        → (file r.1).content ≡ before.content ++ take n buf
        → WriteOutcome buf before r

  -- A sync reports an error, or has put the content on the disk.
  abbrev pub SyncOutcome : File → ErrorCode × os.World → Type 0
  SyncOutcome before (e, w) =
      (IsFaulty × (is_error e ≡ true)) ⊎ ((e ≡ success) × HasSynced before (file w))

  -- Closing keeps the content, whatever it reports, and the handle is closed.
  abbrev pub CloseOutcome : File → ErrorCode × FileHandle × os.World → Type 0
  CloseOutcome before (e, fh, w) =
      ((IsFaulty × (is_error e ≡ true)) ⊎ (e ≡ success))
      × ((file w).content ≡ before.content)
      × (fh.fd ≡ none)

  -- Opening reports an error, or gives the descriptor, at the start of the file as it was.
  pub data OpenOutcome (before : File) : ErrorCode × FileHandle × os.World → Type 0 where
    refused :
        {r : ErrorCode × FileHandle × os.World}
        → IsFaulty
        → is_error r.0 ≡ true
        → OpenOutcome before r
    ready :
        {r : ErrorCode × FileHandle × os.World}
        → r.0 ≡ success
        → IsOn r.1
        → (file r.2).content ≡ before.content
        → (file r.2).offset ≡ 0
        → OpenOutcome before r

  -- The promises for the open file, for buffers that a 32-bit size can describe.
  pub record FileLaws : Type 0 where
    pub handle_supplies :
        (content : Bytes)
        → Supplies ⦃reader = handle_reader os⦄ unread_of (IsReading content) IsFaulty
    pub write_outcome :
        (fh : FileHandle) (buf : Bytes) (w : os.World)
        → IsOn fh
        → length buf < 2 ^ 32
        → (file w).offset ≡ length (file w).content
        → WriteOutcome buf (file w) (os.platform_write fh buf w)
    pub seek_set_outcome :
        (fh : FileHandle) (offset : ℕ) (w : os.World)
        → IsOn fh
        → SeekOutcome offset (file w) (os.platform_seek fh offset seek_set w)
    pub seek_end_outcome :
        (fh : FileHandle) (offset : ℕ) (w : os.World)
        → IsOn fh
        → SeekOutcome
            (length (file w).content + offset)
            (file w)
            (os.platform_seek fh offset seek_end w)
    pub sync_outcome :
        (fh : FileHandle) (w : os.World) → IsOn fh → SyncOutcome (file w) (os.platform_sync fh w)
    pub close_outcome :
        (fh : FileHandle) (w : os.World) → IsOn fh → CloseOutcome (file w) (os.platform_close fh w)

  -- The promises for the path of the file. Before it is open, `file` is what opening it finds: a
  -- file that is not there is created, and is empty.
  pub record PathLaws (path : Bytes) : Type 0 where
    pub open_outcome :
        (out : FileHandle) (w : os.World) → OpenOutcome (file w) (os.platform_open_file path out w)
    pub size_law :
        (w : os.World)
        → (IsFaulty × ((e : ErrorCode) × (is_error e ≡ true) × (os.file_size path w ≡ err e)))
          ⊎ (os.file_size path w ≡ ok (length (file w).content))
