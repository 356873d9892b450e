-- ===== src/Core/Reader.antt =====
-- include/core/reader.h: what can supply bytes on demand; and test/test_utils.h: the reader over a
-- buffer in memory.
use database_45_steps.Prelude.{ℕ, ◌<◌, ◌^◌, ◌+◌, ◌-◌, ◌≡◌, ◌⊎◌, min, length, take, drop}
use database_45_steps.Core.Types.{Bytes}
use database_45_steps.Core.DbError.{ErrorCode, IsSystemError, Result, ok, err}

-- `read` is given the size of the buffer to fill. A success carries the bytes that were filled in;
-- none of them means the end of the source.
pub record Reader (R : Type 0) : Type 0 where
  pub read : R → ℕ → Result Bytes × R

pub record BufferReader : Type 0 where
  pub src : Bytes
  pub pos : ℕ

unfoldable pub buffer_read : BufferReader → ℕ → Result Bytes × BufferReader
buffer_read r size =
    let bytes_read = min size (length r.src - r.pos) in
    (ok (take bytes_read (drop r.pos r.src)), record r { pos = r.pos + bytes_read })

instance abbrev pub buffer_reader : Reader BufferReader
buffer_reader = record { read = buffer_read }

-- The reference source: a list of the bytes that are left.
instance abbrev pub list_reader : Reader Bytes
list_reader = record { read = λ bs size. (ok (take size bs), drop size bs) }

-- One read from a source whose rest is known: it fails, where that can happen, with a code that is
-- not the engine's own, or gives the front of the rest, and drops it.
abbrev pub ReadOutcome :
    {R : Type 0} → (R → Bytes) → (R → Type 0) → Type 0 → R → ℕ → Result Bytes × R → Type 0
ReadOutcome rest IsGood IsFaulty r size (result, r') =
    (IsFaulty × ((e : ErrorCode) × IsSystemError e × (result ≡ err e)))
    ⊎ ((result ≡ ok (take size (rest r))) × (rest r' ≡ drop size (rest r)) × IsGood r')

-- A reader over a known rest, in its good states, for sizes of 32 bits.
pub record Supplies {R : Type 0} ⦃reader : Reader R⦄ (rest : R → Bytes) (IsGood : R → Type 0)
    (IsFaulty : Type 0) : Type 0 where
  pub reads :
      (r : R) (size : ℕ)
      → IsGood r
      → size < 2 ^ 32
      → ReadOutcome rest IsGood IsFaulty r size (reader.read r size)
