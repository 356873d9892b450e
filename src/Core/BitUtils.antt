-- ===== src/Core/BitUtils.antt =====
-- include/core/bit_utils.h: little-endian packing and length-prefixed strings. A span that a
-- function takes by reference and shrinks is an argument, and comes back beside the result.
pub mod RoundTrip
use database_45_steps.Prelude.{
  ℕ, zero, suc, ◌+◌, ◌*◌, ◌/◌, ◌%◌, ◌^◌, List, [], ◌∷◌, ◌++◌, Option, none, some, ltb, length, take,
  drop, if◌then◌else◌,
}
use database_45_steps.Core.Types.{Bytes}

-- `pack_le<T>` for a type of `size` bytes: the lowest byte first. Bits above the type are cut off.
unfoldable pub pack_le : ℕ → ℕ → Bytes
pack_le zero val = []
pack_le (suc size) val = (val % 256) ∷ pack_le size (val / 256)

unfoldable pub unpack_le : Bytes → ℕ
unpack_le [] = 0
unpack_le (b ∷ buf) = b + 256 * unpack_le buf

unfoldable pub push_u32 : Bytes → ℕ → Bytes
push_u32 out v = out ++ pack_le 4 v

unfoldable pub push_str : Bytes → Bytes → Bytes
push_str out s = push_u32 out (length s % 2 ^ 32) ++ s

unfoldable pub read_u32 : Bytes → Option ℕ × Bytes
read_u32 buf =
    if ltb (length buf) 4 then (none, buf) else (some (unpack_le (take 4 buf)), drop 4 buf)

-- If the length is there and its bytes are not, the span has lost the length.
abbrev read_str_data : Option ℕ → Bytes → Option Bytes × Bytes
read_str_data none buf = (none, buf)
read_str_data (some len) buf =
    if ltb (length buf) len then (none, buf) else (some (take len buf), drop len buf)

unfoldable pub read_str : Bytes → Option Bytes × Bytes
read_str buf = let (len, rest) = read_u32 buf in read_str_data len rest
