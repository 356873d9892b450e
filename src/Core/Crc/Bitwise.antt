-- ===== src/Core/Crc/Bitwise.antt =====
-- The bit-by-bit CRC, and the table-driven one.
use database_45_steps.Prelude.{
  ℕ, zero, suc, ◌+◌, ◌*◌, ◌/◌, ◌%◌, ◌^◌, ◌<◌, ◌≡◌, refl, sym, ap, ◌∙◌, arith, [], ◌∷◌, bit_xor,
  get_or, AreBytes, ◌==◌, if◌then◌else◌,
}
use native.Mathlib.Nat.{pow-suc}
use database_45_steps.Prelude.Xor.{
  xor_step, half-xor, parity-xor, xor-zero, xor_comm, xor_assoc, xor_medial, xor-lt_pow,
}
use database_45_steps.Core.Types.{Bytes}
use database_45_steps.Core.Crc.{
  polynomial, crc_round, crc_rounds, table_from, table, crc32_update, crc32_ieee,
}

-- The CRC as the standard states it: eight rounds for each byte, with no table.
unfoldable pub crc_bitwise : ℕ → Bytes → ℕ
crc_bitwise crc [] = crc
crc_bitwise crc (b ∷ bs) = crc_bitwise (crc_rounds 8 (bit_xor crc b)) bs

abbrev pub feedback : ℕ → ℕ
feedback c = if c % 2 == 1 then polynomial else 0

feedback-xor : (a b : ℕ) → feedback (bit_xor a b) ≡ bit_xor (feedback a) (feedback b)
feedback-xor a b = ground (arith, parity-xor a b)

pub crc_round-xor : (a b : ℕ) → crc_round (bit_xor a b) ≡ bit_xor (crc_round a) (crc_round b)
unfolding crc_round
crc_round-xor a b =
    ap (λ t. bit_xor t (feedback (bit_xor a b))) (half-xor a b)
    ∙ ap (bit_xor (bit_xor (a / 2) (b / 2))) (feedback-xor a b)
    ∙ xor_medial (a / 2) (b / 2) (feedback a) (feedback b)

pub crc_rounds-xor :
    (j a b : ℕ) → crc_rounds j (bit_xor a b) ≡ bit_xor (crc_rounds j a) (crc_rounds j b)
unfolding crc_rounds
crc_rounds-xor zero a b = refl
crc_rounds-xor (suc j) a b =
    ap (crc_rounds j) (crc_round-xor a b) ∙ crc_rounds-xor j (crc_round a) (crc_round b)

crc_round-double : (q : ℕ) → crc_round (2 * q) ≡ q
unfolding crc_round
crc_round-double q = ground (arith, xor-zero q)

-- A number whose low byte is 0 is shifted out unchanged.
crc_rounds-shift : (j q : ℕ) → crc_rounds j (q * 2 ^ j) ≡ q
unfolding crc_rounds
crc_rounds-shift zero q = omega arith
crc_rounds-shift (suc j) q =
    ap (crc_rounds j) (ap crc_round (shift_suc q j) ∙ crc_round-double (q * 2 ^ j))
    ∙ crc_rounds-shift j q
  where
    shift_suc : (q j : ℕ) → q * 2 ^ suc j ≡ 2 * (q * 2 ^ j)
    shift_suc q j = omega (arith, ap (λ (t : ℕ). q * t) (pow-suc 2 j))

-- Disjoint fields are joined by exclusive or as by a sum.
xor_fields : (k q r : ℕ) → r < 2 ^ k → bit_xor (q * 2 ^ k) r ≡ q * 2 ^ k + r
xor_fields zero q r h = let e : r ≡ 0 = omega arith in rw e (xor-zero _ ∙ omega arith)
xor_fields (suc k) q r h = omega (
  arith,
  xor_step (q * 2 ^ suc k) r,
  ap (λ (t : ℕ). bit_xor t (r / 2)) half_fields,
  ap (λ (t : ℕ). q * t) (pow-suc 2 k),
  xor_fields k q (r / 2) (omega (arith, pow-suc 2 k)),
)
  where
    half_fields : q * 2 ^ suc k / 2 ≡ q * 2 ^ k
    half_fields = omega (arith, ap (λ (t : ℕ). q * t) (pow-suc 2 k))

get_or-table_from : (n i j : ℕ) → j < n → get_or (table_from n i) j 0 ≡ crc_rounds 8 (i + j)
unfolding table_from
get_or-table_from zero i j h = absurd (omega arith)
get_or-table_from (suc n) i zero h = ap (crc_rounds 8) (omega arith)
get_or-table_from (suc n) i (suc j) h =
    get_or-table_from n (i + 1) j (omega arith) ∙ ap (crc_rounds 8) (omega arith)

pub get_or-table : (j : ℕ) → j < 256 → get_or table j 0 ≡ crc_rounds 8 j
unfolding table
get_or-table j h = get_or-table_from 256 0 j h ∙ ap (crc_rounds 8) (omega arith)

split_low : (crc b : ℕ) → bit_xor (crc / 256 * 256) (bit_xor b (crc % 256)) ≡ bit_xor crc b
split_low crc b =
    ap (bit_xor (crc / 256 * 256)) (xor_comm b (crc % 256))
    ∙ sym (xor_assoc (crc / 256 * 256) (crc % 256) b)
    ∙ ap (λ t. bit_xor t b) (xor_fields 8 (crc / 256) (crc % 256) (omega arith) ∙ omega arith)

-- One step of the table-driven loop is eight rounds of the bitwise one.
table_step :
    (crc b : ℕ)
    → b < 256
    → bit_xor (crc / 256) (get_or table (bit_xor b (crc % 256)) 0) ≡ crc_rounds 8 (bit_xor crc b)
table_step crc b h =
    ap (bit_xor (crc / 256)) (get_or-table low (xor-lt_pow 8 b (crc % 256) h (omega arith)))
    ∙ ap (λ t. bit_xor t (crc_rounds 8 low)) (sym (crc_rounds-shift 8 (crc / 256)))
    ∙ sym (crc_rounds-xor 8 (crc / 256 * 256) low)
    ∙ ap (crc_rounds 8) (split_low crc b)
  where
    low : ℕ
    low = bit_xor b (crc % 256)

-- Where no byte is left the accumulator is the result; a byte takes one step of the loop.
crc32_update-nil : (crc : ℕ) → crc32_update crc [] ≡ crc
unfolding crc32_update
crc32_update-nil crc = refl

crc32_update-cons :
    (crc b : ℕ) (bs : Bytes)
    → crc32_update crc (b ∷ bs)
      ≡ crc32_update (bit_xor (crc / 256) (get_or table (bit_xor b (crc % 256)) 0)) bs
unfolding crc32_update
crc32_update-cons crc b bs = refl

pub crc32_update-bitwise :
    (crc : ℕ) (bs : Bytes) → AreBytes bs → crc32_update crc bs ≡ crc_bitwise crc bs
unfolding crc_bitwise
crc32_update-bitwise crc [] h = crc32_update-nil crc
crc32_update-bitwise crc (b ∷ bs) h =
    crc32_update-cons crc b bs
    ∙ ap (λ t. crc32_update t bs) (table_step crc b h.0)
    ∙ crc32_update-bitwise (crc_rounds 8 (bit_xor crc b)) bs h.1

-- On bytes, the table-driven checksum is the bit-by-bit one: the accumulator starts at 0xFFFFFFFF,
-- each byte is combined into it and followed by eight rounds of the shift register, and the result
-- is inverted.
pub crc32_ieee-bitwise :
    (bs : Bytes) → AreBytes bs → crc32_ieee bs ≡ bit_xor (crc_bitwise 0xFFFFFFFF bs) 0xFFFFFFFF
crc32_ieee-bitwise bs h =
    ieee_parts bs ∙ ap (λ t. bit_xor t 0xFFFFFFFF) (crc32_update-bitwise 0xFFFFFFFF bs h)
  where
    ieee_parts : (bs : Bytes) → crc32_ieee bs ≡ bit_xor (crc32_update 0xFFFFFFFF bs) 0xFFFFFFFF
    ieee_parts bs = unfold crc32_ieee in refl
