-- ===== src/Kv/EntryCodec/Layout.antt =====
-- What `encode` writes, field by field.
use database_45_steps.Prelude.{
  ℕ, suc, ◌+◌, ◌%◌, ◌^◌, ◌<◌, ◌≡◌, refl, ap, ap₂, ◌∙◌, arith, Bool, true, false, [], ◌∷◌, ◌++◌,
  if◌then◌else◌, length, drop, set, replicate, copy_to, copy_to-nil, copy_to-replicate,
  copy_to-replicate_self, copy_to-append,
}
use database_45_steps.Core.Types.{Bytes}
use database_45_steps.Core.BitUtils.{pack_le}
use database_45_steps.Core.Crc.{crc32_ieee}
use database_45_steps.Kv.Entry.{Entry}
use database_45_steps.Kv.EntryCodec.{
  encode, fill, klen_offset, vlen_offset, flag_offset, header_size, cksum_offset,
}

-- The value that is written: none for a tombstone.
abbrev pub stored_val : Entry → Bytes
stored_val ent = if ent.deleted then [] else ent.val

abbrev pub flag_byte : Bool → ℕ
flag_byte deleted = if deleted then 1 else 0

-- The fields after the checksum.
unfoldable pub covered : Entry → Bytes
covered ent =
    pack_le 4 (length ent.key)
    ++ (pack_le 4 (length (stored_val ent))
        ++ (flag_byte ent.deleted ∷ (ent.key ++ stored_val ent)))

header_room :
    (n : ℕ)
    → header_size + n
      ≡ suc (suc (suc (suc (suc (suc (suc (suc (suc (suc (suc (suc (suc n))))))))))))
header_room n = omega arith

-- The buffer once the header fields and the key are in.
abbrev keyed : ℕ → ℕ → ℕ → Bytes → Bytes
keyed klen vlen flag key =
    let buf : Bytes = replicate (header_size + (klen + vlen)) 0 in
    let buf = copy_to buf klen_offset (pack_le 4 klen) in
    let buf = copy_to buf vlen_offset (pack_le 4 vlen) in
    copy_to (set buf flag_offset flag) header_size key

abbrev fields : ℕ → ℕ → ℕ → Bytes → Bytes
fields klen vlen flag payload = pack_le 4 klen ++ (pack_le 4 vlen ++ (flag ∷ payload))

keyed-layout :
    (vlen flag : ℕ) (key : Bytes)
    → keyed (length key) vlen flag key
      ≡ 0 ∷ 0 ∷ 0 ∷ 0 ∷ fields (length key) vlen flag (key ++ replicate vlen 0)
unfolding pack_le
keyed-layout vlen flag key = rw (header_room (length key + vlen), copy_to-replicate key vlen 0) refl

value-layout :
    (flag vlen : ℕ) (key val : Bytes)
    → copy_to
        (0 ∷ 0 ∷ 0 ∷ 0 ∷ fields (length key) vlen flag (key ++ replicate (length val) 0))
        (header_size + length key)
        val
      ≡ 0 ∷ 0 ∷ 0 ∷ 0 ∷ fields (length key) vlen flag (key ++ val)
unfolding pack_le
value-layout flag vlen key val = rw (
  header_room (length key),
  copy_to-append key (replicate (length val) 0) val,
  copy_to-replicate_self val 0,
)

mod_small : (n : ℕ) → n < 2 ^ 32 → n % 2 ^ 32 ≡ n
mod_small n h = omega arith

fill-layout :
    (key val : Bytes) (deleted : Bool)
    → length key < 2 ^ 32
    → length val < 2 ^ 32
    → let ent : Entry = record { key = key; val = val; deleted = deleted } in
      fill ent ≡ 0 ∷ 0 ∷ 0 ∷ 0 ∷ covered ent
unfolding fill covered
fill-layout key val true hk hv =
    ap (λ (n : ℕ). keyed n 0 1 key) (mod_small (length key) hk) ∙ keyed-layout 0 1 key
fill-layout key val false hk hv =
    ap₂ (λ (n m : ℕ). copy_to (keyed n m 0 key) (header_size + n) val) (mod_small (length key) hk)
      (mod_small (length val) hv)
    ∙ ap (λ buf. copy_to buf (header_size + length key) val) (keyed-layout (length val) 0 key)
    ∙ value-layout 0 (length val) key val

seal : Bytes → Bytes
seal buf = copy_to buf cksum_offset (pack_le 4 (crc32_ieee (drop klen_offset buf)))

-- For a key and value whose lengths fit 32 bits, the buffer that `encode` fills step by step is
-- the checksum of all that follows it, then the lengths, the flag, the key and the stored value.
pub encode-layout :
    (ent : Entry)
    → length ent.key < 2 ^ 32
    → length ent.val < 2 ^ 32
    → encode ent ≡ pack_le 4 (crc32_ieee (covered ent)) ++ covered ent
encode-layout ent hk hv =
    encode-seal ent
    ∙ ap seal (fill-layout ent.key ent.val ent.deleted hk hv)
    ∙ seal_zeros (covered ent)
  where
    encode-seal : (ent : Entry) → encode ent ≡ seal (fill ent)
    encode-seal ent = unfold encode seal in refl

    seal_zeros : (body : Bytes) → seal (0 ∷ 0 ∷ 0 ∷ 0 ∷ body) ≡ pack_le 4 (crc32_ieee body) ++ body
    seal_zeros body = unfold seal pack_le in rw (copy_to-nil body 0)
