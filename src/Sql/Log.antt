-- ===== src/Sql/Log.antt =====
-- include/sql/database.h: `Log`, a stream that entries are appended to and read from.
pub mod Read
pub mod Write
use database_45_steps.Prelude.{ℕ, Bool, true, false, ◌&&◌, ◌==◌, if◌then◌else◌}
use database_45_steps.Core.Types.{Bytes}
use database_45_steps.Core.DbError.{ErrorCode, success, is_error, generic_error}
use database_45_steps.Kv.Entry.{Entry}
use database_45_steps.Sql.Errors.{
  no_such_file_or_directory, io_error, permission_denied, is_a_directory, no_space_on_device,
  broken_pipe,
}
use database_45_steps.Sql.Stream.{
  Device, Stream, new_stream, clear, peek, stream_write, flush, stream_open, stream_close,
}
use database_45_steps.Sql.Entry.{encode, decode}

pub record Log : Type 0 where
  pub filename : Bytes
  pub fs : Stream

-- `Log(fname)`
abbrev pub new_log : Bytes → Log
new_log fname = record { filename = fname; fs = new_stream }

-- The code for a file that could not be opened; the values of `errno` are those of `std::errc`.
unfoldable pub open_error : ℕ → ErrorCode
open_error errno =
    if errno == permission_denied
    then generic_error permission_denied
    else if errno == no_such_file_or_directory
    then generic_error no_such_file_or_directory
    else if errno == no_space_on_device
    then generic_error no_space_on_device
    else generic_error io_error

-- The code for a write that the stream did not take.
unfoldable pub write_error : ℕ → ErrorCode
write_error errno =
    if errno == no_space_on_device
    then generic_error no_space_on_device
    else if errno == io_error
    then generic_error io_error
    else generic_error broken_pipe

module _ (os : Device) where
  open os use {World, errno, exists, is_directory}

  -- `Log::Open`
  unfoldable pub open_log : Log → World → ErrorCode × Log × World
  unfolding open_error
  open_log log w =
      let (fs, w') = stream_open os log.filename log.fs w in
      if log.fs.is_open
      then (success, log, w)
      else if exists log.filename w && is_directory log.filename w
      then (generic_error is_a_directory, log, w)
      else if fs.is_open
      then (success, record log { fs = clear fs }, w')
      else (open_error (errno w'), record log { fs = fs }, w')

  -- `Log::Close`
  unfoldable pub close_log : Log → World → ErrorCode × Log × World
  close_log log w =
      let (fs, w') = stream_close os log.fs w in
      if log.fs.is_open
      then (if fs.failed then generic_error io_error else success, record log { fs = fs }, w')
      else (success, log, w)

  -- `Log::Write`. What becomes of the flush is not looked at.
  unfoldable pub write : Log → Entry → World → ErrorCode × Log × World
  unfolding write_error
  write log ent w =
      let (fs, w₁) = stream_write os (encode ent) log.fs w in
      let (fs', w₂) = flush os fs w₁ in
      if fs.failed
      then (write_error (errno w₁), record log { fs = fs }, w₁)
      else (success, record log { fs = fs' }, w₂)

  -- `Log::Read`: whether the log is at its end, and the entry as it is left.
  unfoldable pub read : Log → Entry → World → (Bool × ErrorCode) × Entry × Log × World
  read log ent w =
      let (fs, w₁) = peek os log.fs w in
      let (e, ent', fs', w₂) = decode os ent fs w₁ in
      if fs.eof
      then ((true, success), ent, record log { fs = clear fs }, w₁)
      else ((false, if is_error e then e else success), ent', record log { fs = fs' }, w₂)

  -- `~Log`
  unfoldable pub destroy : Log → World → World
  destroy log w = if log.fs.is_open then (stream_close os log.fs w).1 else w
