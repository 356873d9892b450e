-- ===== src/Examples/Core.antt =====
-- Examples for the checksum of Core/Crc.
use database_45_steps.Prelude.{◌≡◌, refl, arith, [], ◌∷◌, bit_xor}
use database_45_steps.Core.Crc.{crc32_ieee}
use database_45_steps.Core.Crc.Bitwise.{crc_bitwise, crc32_ieee-bitwise}

-- The check value of this checksum, of the digits 1 to 9.
crc32_check : crc32_ieee (49 ∷ 50 ∷ 51 ∷ 52 ∷ 53 ∷ 54 ∷ 55 ∷ 56 ∷ 57 ∷ []) ≡ 0xCBF43926
unfolding crc32_ieee
crc32_check = refl

crc32_ieee-bitwise_example :
    crc32_ieee (49 ∷ 50 ∷ []) ≡ bit_xor (crc_bitwise 0xFFFFFFFF (49 ∷ 50 ∷ [])) 0xFFFFFFFF
crc32_ieee-bitwise_example = crc32_ieee-bitwise (49 ∷ 50 ∷ []) (omega arith, (omega arith, tt))
