-- ===== src/Core/Crc/Detection.antt =====
-- What the digest detects.
use database_45_steps.Prelude.{
  ℕ, zero, suc, ◌/◌, ◌^◌, ◌<◌, ◌≡◌, ◌≢◌, refl, sym, ap, ◌∙◌, arith, [], ◌∷◌, ◌++◌, bit_xor,
  AreBytes, All-append,
}
use database_45_steps.Prelude.Xor.{xor-zero, xor_comm, xor_injective, xor_cancel, xor-lt_pow}
use database_45_steps.Core.Types.{Bytes}
use database_45_steps.Core.Crc.{polynomial, crc_round, crc_rounds, crc32_ieee}
use database_45_steps.Core.Crc.Bitwise.{crc_bitwise, feedback, crc32_ieee-bitwise}

feedback-lt : (c : ℕ) → feedback c < 2 ^ 32
feedback-lt c = ground arith

crc_round-lt : (c : ℕ) → c < 2 ^ 32 → crc_round c < 2 ^ 32
unfolding crc_round
crc_round-lt c h = xor-lt_pow 32 (c / 2) (feedback c) (omega arith) (feedback-lt c)

pub crc_rounds-lt : (j c : ℕ) → c < 2 ^ 32 → crc_rounds j c < 2 ^ 32
unfolding crc_rounds
crc_rounds-lt zero c h = h
crc_rounds-lt (suc j) c h = crc_rounds-lt j (crc_round c) (crc_round-lt c h)

-- The polynomial has its top bit set, and the halves have not: so equal results of a round come
-- from numbers of equal parity.
halves_differ : (a b : ℕ) → a < 2 ^ 31 → b < 2 ^ 31 → bit_xor a polynomial ≢ bit_xor b 0
halves_differ a b ha hb e = absurd (
    omega
      (arith, xor-lt_pow 31 a b ha hb, ap (bit_xor a) (e ∙ xor-zero b), xor_cancel a polynomial))

crc_round-injective : (a b : ℕ) → a < 2 ^ 32 → b < 2 ^ 32 → crc_round a ≡ crc_round b → a ≡ b
unfolding crc_round
crc_round-injective a b ha hb e = ground (
  arith,
  halves_differ (a / 2) (b / 2),
  halves_differ (b / 2) (a / 2),
  xor_injective (feedback a) (a / 2) (b / 2),
  xor_comm (feedback a) (a / 2),
  xor_comm (feedback a) (b / 2),
)

pub crc_rounds-injective :
    (j a b : ℕ) → a < 2 ^ 32 → b < 2 ^ 32 → crc_rounds j a ≡ crc_rounds j b → a ≡ b
unfolding crc_rounds
crc_rounds-injective zero a b ha hb e = e
crc_rounds-injective (suc j) a b ha hb e =
    crc_round-injective a b ha hb
      (crc_rounds-injective j (crc_round a) (crc_round b) (crc_round-lt a ha) (crc_round-lt b hb) e)

xor_byte-lt : (crc b : ℕ) → crc < 2 ^ 32 → b < 256 → bit_xor crc b < 2 ^ 32
xor_byte-lt crc b h k = xor-lt_pow 32 crc b h (omega arith)

crc_bitwise-lt : (crc : ℕ) (bs : Bytes) → crc < 2 ^ 32 → AreBytes bs → crc_bitwise crc bs < 2 ^ 32
unfolding crc_bitwise
crc_bitwise-lt crc [] h k = h
crc_bitwise-lt crc (b ∷ bs) h k =
    crc_bitwise-lt (crc_rounds 8 (bit_xor crc b)) bs
      (crc_rounds-lt 8 (bit_xor crc b) (xor_byte-lt crc b h k.0)) k.1

-- A digest is a `uint32_t`.
pub crc32_ieee-lt : (bs : Bytes) → AreBytes bs → crc32_ieee bs < 2 ^ 32
crc32_ieee-lt bs h = rw (crc32_ieee-bitwise bs h) (
    xor-lt_pow 32 (crc_bitwise 0xFFFFFFFF bs) 0xFFFFFFFF
      (crc_bitwise-lt 0xFFFFFFFF bs (omega arith) h) (omega arith))

-- The accumulator is determined by the result and the bytes folded in.
crc_bitwise-injective :
    (bs : Bytes) (a b : ℕ)
    → a < 2 ^ 32
    → b < 2 ^ 32
    → AreBytes bs
    → crc_bitwise a bs ≡ crc_bitwise b bs
    → a ≡ b
unfolding crc_bitwise
crc_bitwise-injective [] a b ha hb k e = e
crc_bitwise-injective (x ∷ bs) a b ha hb k e = xor_injective x a b (
    xor_comm x a
    ∙ crc_rounds-injective 8 (bit_xor a x) (bit_xor b x) (xor_byte-lt a x ha k.0)
        (xor_byte-lt b x hb k.0)
        (crc_bitwise-injective bs (crc_rounds 8 (bit_xor a x)) (crc_rounds 8 (bit_xor b x))
          (crc_rounds-lt 8 (bit_xor a x) (xor_byte-lt a x ha k.0))
          (crc_rounds-lt 8 (bit_xor b x) (xor_byte-lt b x hb k.0)) k.1 e)
    ∙ xor_comm b x)

crc_bitwise-append :
    (crc : ℕ) (xs ys : Bytes) → crc_bitwise crc (xs ++ ys) ≡ crc_bitwise (crc_bitwise crc xs) ys
unfolding crc_bitwise
crc_bitwise-append crc [] ys = refl
crc_bitwise-append crc (x ∷ xs) ys = crc_bitwise-append (crc_rounds 8 (bit_xor crc x)) xs ys

crc_bitwise-detects :
    (front back : Bytes) (crc x y : ℕ)
    → crc < 2 ^ 32
    → AreBytes front
    → AreBytes back
    → x < 256
    → y < 256
    → crc_bitwise crc (front ++ (x ∷ back)) ≡ crc_bitwise crc (front ++ (y ∷ back))
    → x ≡ y
unfolding crc_bitwise
crc_bitwise-detects [] back crc x y h hf hb hx hy e = xor_injective crc x y (
    crc_rounds-injective 8 (bit_xor crc x) (bit_xor crc y) (xor_byte-lt crc x h hx)
      (xor_byte-lt crc y h hy)
      (crc_bitwise-injective back (crc_rounds 8 (bit_xor crc x)) (crc_rounds 8 (bit_xor crc y))
        (crc_rounds-lt 8 (bit_xor crc x) (xor_byte-lt crc x h hx))
        (crc_rounds-lt 8 (bit_xor crc y) (xor_byte-lt crc y h hy)) hb e))
crc_bitwise-detects (f ∷ front) back crc x y h hf hb hx hy e =
    crc_bitwise-detects front back (crc_rounds 8 (bit_xor crc f)) x y
      (crc_rounds-lt 8 (bit_xor crc f) (xor_byte-lt crc f h hf.0)) hf.1 hb hx hy e

crc32_ieee_injective :
    (front back : Bytes) (x y : ℕ)
    → AreBytes front
    → AreBytes back
    → x < 256
    → y < 256
    → crc32_ieee (front ++ (x ∷ back)) ≡ crc32_ieee (front ++ (y ∷ back))
    → x ≡ y
crc32_ieee_injective front back x y hf hb hx hy e =
    crc_bitwise-detects front back 0xFFFFFFFF x y (omega arith) hf hb hx hy (
      xor_injective 0xFFFFFFFF _ _ (
        xor_comm 0xFFFFFFFF _
        ∙ sym (crc32_ieee-bitwise (front ++ (x ∷ back)) (All-append _ front _ hf (hx, hb)))
        ∙ e
        ∙ crc32_ieee-bitwise (front ++ (y ∷ back)) (All-append _ front _ hf (hy, hb))
        ∙ xor_comm _ 0xFFFFFFFF))

-- Two buffers of bytes that differ in exactly one byte have different checksums.
pub crc32_ieee_detects :
    (front back : Bytes) (x y : ℕ)
    → AreBytes front
    → AreBytes back
    → x < 256
    → y < 256
    → x ≢ y
    → crc32_ieee (front ++ (x ∷ back)) ≢ crc32_ieee (front ++ (y ∷ back))
crc32_ieee_detects front back x y hf hb hx hy ne e =
    ne (crc32_ieee_injective front back x y hf hb hx hy e)
