-- ===== src/Core/BitUtils/RoundTrip.antt =====
-- Reading what was packed or pushed.
use database_45_steps.Prelude.{
  ℕ, zero, suc, ◌+◌, ◌*◌, ◌/◌, ◌%◌, ◌^◌, ◌<◌, ◌≡◌, refl, ap, ◌∙◌, arith, [], ◌∷◌, ◌++◌, some,
  length, length-append, take-append, drop-append, take-append_eq, drop-append_eq, append_assoc,
  AreBytes,
}
use native.Mathlib.Nat.{pow-suc}
use database_45_steps.Core.Types.{Bytes}
use database_45_steps.Core.BitUtils.{
  pack_le, unpack_le, push_u32, push_str, read_u32, read_str, read_str_data,
}

pub length-pack_le : (size val : ℕ) → length (pack_le size val) ≡ size
unfolding pack_le
length-pack_le zero val = refl
length-pack_le (suc size) val = ap suc (length-pack_le size (val / 256))

pub pack_le-AreBytes : (size val : ℕ) → AreBytes (pack_le size val)
unfolding pack_le
pack_le-AreBytes zero val = tt
pack_le-AreBytes (suc size) val = (omega arith, pack_le-AreBytes size (val / 256))

-- Every number that a type of the given size holds is unpacked from its packed bytes.
pub unpack_le-pack_le : (size val : ℕ) → val < 256 ^ size → unpack_le (pack_le size val) ≡ val
unfolding pack_le unpack_le
unpack_le-pack_le zero val h = omega arith
unpack_le-pack_le (suc size) val h =
    omega (
      arith,
      pow-suc 256 size,
      unpack_le-pack_le size (val / 256) (omega (arith, pow-suc 256 size)),
    )

low_byte : (b n : ℕ) → b < 256 → (b + 256 * n) % 256 ≡ b
low_byte b n h = omega arith

high_bytes : (b n : ℕ) → b < 256 → (b + 256 * n) / 256 ≡ n
high_bytes b n h = omega arith

-- Every buffer of bytes is the packing of the value read from it.
pub pack_le-unpack_le : (buf : Bytes) → AreBytes buf → pack_le (length buf) (unpack_le buf) ≡ buf
unfolding pack_le unpack_le
pack_le-unpack_le [] h = refl
pack_le-unpack_le (b ∷ buf) h =
    ground (arith, pack_le-unpack_le buf, low_byte b (unpack_le buf), high_bytes b (unpack_le buf))

mod_small : (n : ℕ) → n < 2 ^ 32 → n % 2 ^ 32 ≡ n
mod_small n h = omega arith

pub unpack_le-lt : (buf : Bytes) → AreBytes buf → unpack_le buf < 256 ^ length buf
unfolding unpack_le
unpack_le-lt [] h = omega arith
unpack_le-lt (b ∷ buf) h = omega (arith, pow-suc 256 (length buf), unpack_le-lt buf h.1, h.0)

pub read_u32-append :
    (buf rest : Bytes) → length buf ≡ 4 → read_u32 (buf ++ rest) ≡ (some (unpack_le buf), rest)
unfolding read_u32
read_u32-append buf rest h =
    ground (arith, length-append buf rest, take-append_eq 4 buf rest, drop-append_eq 4 buf rest)

-- `read_u32` takes back what `push_u32` wrote, and leaves what follows it.
pub read_u32-push_u32 :
    (v : ℕ) (rest : Bytes) → v < 2 ^ 32 → read_u32 (push_u32 [] v ++ rest) ≡ (some v, rest)
unfolding push_u32
read_u32-push_u32 v rest h =
    read_u32-append (pack_le 4 v) rest (length-pack_le 4 v)
    ∙ ap (λ x. (some x, rest)) (unpack_le-pack_le 4 v (omega arith))

read_str_data-append :
    (s rest : Bytes) → read_str_data (some (length s)) (s ++ rest) ≡ (some s, rest)
read_str_data-append s rest =
    ground (arith, length-append s rest, take-append s rest, drop-append s rest)

-- A string whose length fits 32 bits is read back from what `push_str` wrote, followed by any
-- bytes, and those are left.
pub read_str-push_str :
    (s rest : Bytes) → length s < 2 ^ 32 → read_str (push_str [] s ++ rest) ≡ (some s, rest)
unfolding read_str push_str
read_str-push_str s rest h =
    ap (λ buf. read_str buf) (append_assoc (push_u32 [] (length s % 2 ^ 32)) s rest)
    ∙ ap (λ p. read_str_data p.0 p.1)
        (read_u32-push_u32 (length s % 2 ^ 32) (s ++ rest) (omega arith))
    ∙ ap (λ n. read_str_data (some n) (s ++ rest)) (mod_small (length s) h)
    ∙ read_str_data-append s rest
