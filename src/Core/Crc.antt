-- ===== src/Core/Crc.antt =====
-- include/core/bit_utils.h: the table-driven CRC-32. `c >> 1` is `c / 2`, `c & 1` is `c % 2`,
-- `crc >> 8` is `crc / 256` and `crc & 0xFF` is `crc % 256`.
pub mod Bitwise
pub mod Detection
use database_45_steps.Prelude.{
  ℕ, zero, suc, ◌+◌, ◌/◌, ◌%◌, List, [], ◌∷◌, ◌++◌, ◌≡◌, refl, bit_xor, get_or, ◌==◌, if◌then◌else◌,
}
use database_45_steps.Core.Types.{Bytes}

unfoldable pub crc32_init : ℕ
crc32_init = 0xFFFFFFFF

abbrev pub polynomial : ℕ
polynomial = 0xEDB88320

-- The body of the inner loop, and the loop with `j` rounds to go.
pub crc_round : ℕ → ℕ
crc_round c = bit_xor (c / 2) (if c % 2 == 1 then polynomial else 0)

pub crc_rounds : ℕ → ℕ → ℕ
crc_rounds zero c = c
crc_rounds (suc j) c = crc_rounds j (crc_round c)

-- The outer loop, which fills the table from index `i` on.
pub table_from : ℕ → ℕ → List ℕ
table_from zero i = []
table_from (suc n) i = crc_rounds 8 i ∷ table_from n (i + 1)

unfoldable pub table : List ℕ
table = table_from 256 0

unfoldable pub crc32_update : ℕ → Bytes → ℕ
unfolding table table_from crc_rounds crc_round
crc32_update crc [] = crc
crc32_update crc (b ∷ bs) =
    crc32_update (bit_xor (crc / 256) (get_or table (bit_xor b (crc % 256)) 0)) bs

unfoldable pub crc32_final : ℕ → ℕ
crc32_final crc = bit_xor crc 0xFFFFFFFF

unfoldable pub crc32_ieee : Bytes → ℕ
unfolding crc32_init crc32_update crc32_final
crc32_ieee bs = crc32_final (crc32_update crc32_init bs)

pub crc32_ieee_lem : (bs : Bytes) → crc32_ieee bs ≡ crc32_final (crc32_update crc32_init bs)
unfolding crc32_ieee
crc32_ieee_lem bs = refl

-- Folding in two buffers is folding in one after the other.
pub crc32_update-append :
    (crc : ℕ) (xs ys : Bytes) → crc32_update (crc32_update crc xs) ys ≡ crc32_update crc (xs ++ ys)
unfolding crc32_update
crc32_update-append crc [] ys = refl
crc32_update-append crc (x ∷ xs) ys =
    crc32_update-append (bit_xor (crc / 256) (get_or table (bit_xor x (crc % 256)) 0)) xs ys
