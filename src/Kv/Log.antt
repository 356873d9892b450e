-- ===== src/Kv/Log.antt =====
-- include/kv/log.h, include/kv/log_format.h and src/kv/log.cpp: the append-only log of entries,
-- [ magic(4) | version(2) | entry | entry | … ].
pub mod Read
pub mod Write
pub mod Header
pub mod Open
use database_45_steps.Prelude.{
  ℕ, Bool, true, false, ◌&&◌, ◌||◌, ltb, ◌==◌, not, if◌then◌else◌, length, replicate, copy_to,
  slice,
}
use database_45_steps.Core.Types.{Bytes}
use database_45_steps.Core.DbError.{
  ErrorCode, success, is_error, generic_error, make_error_code, is_db_error, Result, ok, err, fault,
  bad_checksum, truncated_header, truncated_payload, bad_magic, unsupported_version,
}
use database_45_steps.Core.BitUtils.{pack_le, unpack_le}
use database_45_steps.Core.Platform.{
  Platform, FileHandle, is_open, seek_set, seek_end, handle_reader,
}
use database_45_steps.Core.Platform.Laws.{
  File, View, FileLaws, PathLaws, unread, IsOn, IsReading, unread_of, SeekOutcome, WriteOutcome,
  SyncOutcome, OpenOutcome, HasSynced,
}
use database_45_steps.Kv.Entry.{Entry}
use database_45_steps.Kv.EntryCodec.{Decoded, entry, entry_eof, encode, decode}

abbrev pub magic_number : ℕ
magic_number = 0x4B564442

abbrev pub format_version : ℕ
format_version = 2

-- `log_format::HEADER_SIZE`
abbrev pub file_header_size : ℕ
file_header_size = 6

-- `EISDIR`, the value of `std::errc::is_a_directory`
abbrev pub is_a_directory : ℕ
is_a_directory = 21

pub record Log : Type 0 where
  pub filename : Bytes
  pub fh : FileHandle

-- `std::variant<Entry, LogEOF>`
pub data LogItem : Type 0 where
  log_entry : Entry → LogItem
  log_eof : LogItem

-- The six bytes at the start of every log file.
unfoldable pub file_header : Bytes
file_header =
    copy_to (copy_to (replicate file_header_size 0) 0 (pack_le 4 magic_number)) 4
      (pack_le 2 format_version)

-- `read_and_validate_file_header`, from the bytes that were read.
unfoldable pub validate_header : Bytes → ErrorCode
validate_header header =
    if ltb (length header) file_header_size
    then make_error_code truncated_header
    else if not (unpack_le (slice 0 4 header) == magic_number)
    then make_error_code bad_magic
    else if ltb format_version (unpack_le (slice 4 2 header))
    then make_error_code unsupported_version
    else success

abbrev pub validate_read : Result Bytes → ErrorCode
validate_read (ok header) = validate_header header
validate_read (err e) = e
validate_read fault = success

-- Damage that `read` takes for the end of the log.
unfoldable pub is_tail_corruption : ErrorCode → Bool
is_tail_corruption e =
    is_db_error e bad_checksum || is_db_error e truncated_header || is_db_error e truncated_payload

unfoldable pub read_result : Result Decoded → Result LogItem
unfolding is_tail_corruption
read_result (ok (entry ent)) = ok (log_entry ent)
read_result (ok entry_eof) = ok log_eof
read_result (err e) = if is_tail_corruption e then ok log_eof else err e
read_result fault = fault

module _ (os : Platform) where
  open os use {World, exists, is_directory, file_size}

  unfoldable pub write_file_header : FileHandle → World → ErrorCode × World
  unfolding file_header
  write_file_header fh w = os.platform_write fh file_header w

  unfoldable pub read_and_validate_file_header : FileHandle → World → ErrorCode × FileHandle × World
  unfolding validate_header
  read_and_validate_file_header fh w =
      let (header, fh', w') = os.platform_read fh file_header_size w in
      (validate_read header, fh', w')

  -- The end of `open`, once the size of the file is known.
  unfoldable pub check_header : Result ℕ → Log → World → ErrorCode × Log × World
  check_header (err e) log w = (e, log, w)
  check_header fault log w = (success, log, w)
  check_header (ok size) log w =
      let (written, w₁) = write_file_header log.fh w in
      let (sought, fh₂, w₂) = os.platform_seek log.fh 0 seek_set w in
      let (valid, fh₃, w₃) = read_and_validate_file_header fh₂ w₂ in
      if size == 0
      then (written, log, w₁)
      else if is_error sought
      then (sought, record log { fh = fh₂ }, w₂)
      else (valid, record log { fh = fh₃ }, w₃)

  -- `Log::open`
  unfoldable pub open_log : Log → World → ErrorCode × Log × World
  unfolding check_header write_file_header read_and_validate_file_header
  open_log log w =
      let (opened, fh, w') = os.platform_open_file log.filename log.fh w in
      if is_open log.fh
      then (success, log, w)
      else if exists log.filename w && is_directory log.filename w
      then (generic_error is_a_directory, log, w)
      else if is_error opened
      then (opened, record log { fh = fh }, w')
      else check_header (file_size log.filename w') (record log { fh = fh }) w'

  -- `Log::close`
  unfoldable pub close_log : Log → World → ErrorCode × Log × World
  close_log log w = let (e, fh, w') = os.platform_close log.fh w in (e, record log { fh = fh }, w')

  -- `Log::write`
  unfoldable pub write : Log → Entry → World → ErrorCode × Log × World
  write log ent w =
      let (sought, fh, w₁) = os.platform_seek log.fh 0 seek_end w in
      let (written, w₂) = os.platform_write fh (encode ent) w₁ in
      let (synced, w₃) = os.platform_sync fh w₂ in
      if is_error sought
      then (sought, record log { fh = fh }, w₁)
      else if is_error written
      then (written, record log { fh = fh }, w₂)
      else (synced, record log { fh = fh }, w₃)

  -- `Log::read`
  unfoldable pub read : Log → World → Result LogItem × Log × World
  unfolding read_result
  read log w =
      let (result, (fh, w')) = decode ⦃reader = handle_reader os⦄ (log.fh, w) in
      (read_result result, record log { fh = fh }, w')

  -- `Log::seek_to_first_entry`
  unfoldable pub seek_to_first_entry : Log → World → ErrorCode × Log × World
  seek_to_first_entry log w =
      let (e, fh, w') = os.platform_seek log.fh file_header_size seek_set w in
      (e, record log { fh = fh }, w')

  -- `~Log`
  unfoldable pub destroy_log : Log → World → World
  destroy_log log w = if is_open log.fh then (os.platform_close log.fh w).2 else w
