-- ===== src/Table/Int64.antt =====
-- `int64_t`, and its representation in include/core/bit_utils.h: `std::bit_cast` to eight bytes in
-- two's complement.
use database_45_steps.Prelude.{ℕ, ◌-◌, ◌%◌, ◌^◌, ◌<◌, ◌≡◌, ap, ◌∙◌, arith, ltb, if◌then◌else◌}
use database_45_steps.Core.Types.{Bytes}
use database_45_steps.Core.BitUtils.{pack_le, unpack_le}
use database_45_steps.Core.BitUtils.RoundTrip.{unpack_le-pack_le}

-- The integers over native numbers: `negsuc n` is -n - 1.
pub data ℤ : Type 0 where
  pos negsuc : ℕ → ℤ

abbrev pub IsI64 : ℤ → Type 0
IsI64 (ℤ.pos n) = n < 2 ^ 63
IsI64 (ℤ.negsuc n) = n < 2 ^ 63

unfoldable pub to_word : ℤ → ℕ
to_word (ℤ.pos n) = n % 2 ^ 64
to_word (ℤ.negsuc n) = 2 ^ 64 - 1 - n % 2 ^ 64

unfoldable pub from_word : ℕ → ℤ
from_word n = if ltb n (2 ^ 63) then ℤ.pos n else ℤ.negsuc (2 ^ 64 - 1 - n)

-- `pack_le<int64_t>` and `unpack_le<int64_t>`
unfoldable pub pack_le_i64 : ℤ → Bytes
unfolding to_word
pack_le_i64 v = pack_le 8 (to_word v)

unfoldable pub unpack_le_i64 : Bytes → ℤ
unfolding from_word
unpack_le_i64 buf = from_word (unpack_le buf)

to_word-lt : (v : ℤ) → to_word v < 256 ^ 8
unfolding to_word
to_word-lt (ℤ.pos n) = omega arith
to_word-lt (ℤ.negsuc n) = omega arith

from_word-to_word : (v : ℤ) → IsI64 v → from_word (to_word v) ≡ v
unfolding to_word from_word
from_word-to_word (ℤ.pos n) h = ground arith
from_word-to_word (ℤ.negsuc n) h = ground arith

-- Every signed integer of 64 bits, negative or not, is unpacked from its eight packed bytes.
pub unpack_le_i64-pack_le_i64 : (v : ℤ) → IsI64 v → unpack_le_i64 (pack_le_i64 v) ≡ v
unfolding pack_le_i64 unpack_le_i64
unpack_le_i64-pack_le_i64 v h =
    ap from_word (unpack_le-pack_le 8 (to_word v) (to_word-lt v)) ∙ from_word-to_word v h
