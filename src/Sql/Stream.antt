-- ===== src/Sql/Stream.antt =====
-- What include/sql/database.h uses of `std::fstream`, opened with in | out | binary | app. The
-- operating system below the stream is the parameter `Device`: one file, read at a position and
-- written at its end.
pub mod Laws
pub mod Writing
use database_45_steps.Prelude.{
  ℕ, ◌+◌, Bool, true, false, not, ◌&&◌, ◌||◌, Option, none, some, [], ◌++◌, ltb, ◌==◌, length,
  if◌then◌else◌,
}
use database_45_steps.Core.Types.{Bytes}

pub record Device : Type 1 where
  pub World : Type 0
  pub errno : World → ℕ
  pub exists : Bytes → World → Bool
  pub is_directory : Bytes → World → Bool
  -- whether the file was opened or created
  pub open_file : Bytes → World → Bool × World
  -- up to so many bytes from a position on; none if the read failed
  pub load : ℕ → ℕ → World → Option Bytes × World
  -- the end of the file after an append of the whole buffer; none if some of it was refused
  pub append : Bytes → World → Option ℕ × World
  pub seek : ℕ → World → Bool × World
  pub close_file : World → Bool × World
  -- how many bytes a stream holds back before it calls `append`
  pub capacity : ℕ

-- `failed` is failbit or badbit, which the code never tells apart. `pending` has been written to the
-- stream and not yet to the file.
pub record Stream : Type 0 where
  pub is_open : Bool
  pub eof : Bool
  pub failed : Bool
  pub position : ℕ
  pub pending : Bytes

-- `std::fstream()`
abbrev pub new_stream : Stream
new_stream = record { is_open = false; eof = false; failed = false; position = 0; pending = [] }

abbrev pub good : Stream → Bool
good fs = not fs.eof && not fs.failed

-- `clear()`
abbrev pub clear : Stream → Stream
clear fs = record fs { eof = false; failed = false }

-- What a read of `size` bytes makes of the bytes that arrived.
pub received : ℕ → Option Bytes → Stream → Bytes × Stream
received size none fs = ([], record fs { failed = true })
received size (some bs) fs =
    let fs' : Stream = record fs { position = fs.position + length bs } in
    if ltb (length bs) size then (bs, record fs' { eof = true; failed = true }) else (bs, fs')

-- What a look at the next byte shows.
pub peeked : Option Bytes → Stream → Stream
peeked none fs = record fs { failed = true }
peeked (some bs) fs = record fs { eof = length bs == 0 }

-- What an append makes of the bytes held back: after a failure they are still there.
pub appended : Option ℕ → Stream → Bool × Stream
appended none fs = (false, fs)
appended (some end) fs = (true, record fs { position = end; pending = [] })

module _ (os : Device) where
  open os use {World, open_file, load, append, seek, close_file, capacity}

  -- The buffer of a stream that is not open is at its end.
  pub fetch : Stream → ℕ → World → Option Bytes × World
  fetch fs size w = if fs.is_open then load fs.position size w else (some [], w)

  -- `read(buf, size)`, with the bytes that arrived. A stream that is not good only fails.
  unfoldable pub stream_read : ℕ → Stream → World → Bytes × Stream × World
  unfolding fetch received
  stream_read size fs w =
      let (result, w') = fetch fs size w in
      let (bs, fs') = received size result fs in
      if good fs then (bs, fs', w') else ([], record fs { failed = true }, w)

  -- `peek()`, of which the code uses only the end-of-file bit.
  unfoldable pub peek : Stream → World → Stream × World
  unfolding fetch peeked
  peek fs w =
      let (result, w') = fetch fs 1 w in
      if good fs then (peeked result fs, w') else (record fs { failed = true }, w)

  -- What is held back goes to the file.
  unfoldable pub drain : Stream → World → Bool × Stream × World
  unfolding appended
  drain fs w =
      let (result, w') = append fs.pending w in
      let (done, fs') = appended result fs in
      if length fs.pending == 0 then (true, fs, w) else (done, fs', w')

  -- `write(buf)`
  unfoldable pub stream_write : Bytes → Stream → World → Stream × World
  stream_write buf fs w =
      let held : Stream = record fs { pending = fs.pending ++ buf } in
      let (done, fs', w') = drain held w in
      if not (good fs) || not fs.is_open
      then (record fs { failed = true }, w)
      else if ltb (length held.pending) capacity
      then (held, w)
      else (record fs' { failed = not done }, w')

  -- `flush()`
  unfoldable pub flush : Stream → World → Stream × World
  flush fs w =
      let (done, fs', w') = drain fs w in
      if good fs && fs.is_open then (record fs' { failed = not done }, w') else (fs, w)

  -- `seekg(offset, beg)`
  unfoldable pub seekg : ℕ → Stream → World → Stream × World
  seekg offset fs w =
      let (done, w') = seek offset w in
      if fs.failed
      then (record fs { eof = false }, w)
      else if fs.is_open && done
      then (record fs { eof = false; position = offset }, w')
      else (record fs { eof = false; failed = true }, w')

  -- `open(path)` on a stream that is not open
  unfoldable pub stream_open : Bytes → Stream → World → Stream × World
  stream_open path fs w =
      let (done, w') = open_file path w in
      if done then (record new_stream { is_open = true }, w') else (record fs { failed = true }, w')

  -- `close()`. What is held back goes to the file first.
  unfoldable pub stream_close : Stream → World → Stream × World
  stream_close fs w =
      let (drained, fs', w₁) = drain fs w in
      let (closed, w₂) = close_file w₁ in
      if fs.is_open
      then (
        record fs {
          is_open = false;
          pending = [];
          position = 0;
          failed = fs.failed || not (drained && closed);
        },
        w₂,
      )
      else (record fs { failed = true }, w)
