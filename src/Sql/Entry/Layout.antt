-- ===== src/Sql/Entry/Layout.antt =====
-- What `encode` writes, field by field.
use database_45_steps.Prelude.{
  ℕ, suc, ◌+◌, ◌/◌, ◌%◌, ◌^◌, ◌<◌, ◌≡◌, refl, ap, ap₂, ◌∙◌, arith, Bool, true, false, [], ◌∷◌, ◌++◌,
  length, set, replicate, copy_to, copy_to-replicate, copy_to-replicate_self, copy_to-append,
}
use database_45_steps.Core.Types.{Bytes}
use database_45_steps.Core.BitUtils.{pack_le}
use database_45_steps.Kv.Entry.{Entry}
use database_45_steps.Kv.EntryCodec.Layout.{stored_val, flag_byte}
use database_45_steps.Sql.Entry.{
  encode, pack_u32, unpack_u32, header_size, klen_offset, vlen_offset, flag_offset,
}

-- The bytes of a 32-bit number, the lowest first.
abbrev pub u32_bytes : ℕ → Bytes
u32_bytes val = (val % 256) ∷ (val / 2 ^ 8 % 256) ∷ (val / 2 ^ 16 % 256) ∷ (val / 2 ^ 24 % 256) ∷ []

pub u32_bytes-pack_le : (val : ℕ) → u32_bytes val ≡ pack_le 4 val
unfolding pack_le
u32_bytes-pack_le val =
    ap₂ (λ (a b : ℕ). (val % 256) ∷ (val / 2 ^ 8 % 256) ∷ a ∷ b ∷ []) (omega arith) (omega arith)

pub unpack_u32-u32_bytes :
    (val : ℕ) (rest : Bytes) → val < 2 ^ 32 → unpack_u32 (u32_bytes val ++ rest) ≡ val
unfolding unpack_u32
unpack_u32-u32_bytes val rest h = omega arith

-- The fields of an entry around a payload.
abbrev pub framed : ℕ → ℕ → ℕ → Bytes → Bytes
framed klen vlen flag payload = u32_bytes klen ++ (u32_bytes vlen ++ (flag ∷ payload))

header_room : (n : ℕ) → header_size + n ≡ suc (suc (suc (suc (suc (suc (suc (suc (suc n))))))))
header_room n = omega arith

-- The buffer once the header fields and the key are in.
abbrev keyed : ℕ → ℕ → ℕ → ℕ → Bytes → Bytes
keyed klen vlen room flag key =
    let buf : Bytes = replicate (header_size + (klen + room)) 0 in
    let buf = pack_u32 buf klen_offset klen in
    let buf = pack_u32 buf vlen_offset vlen in copy_to (set buf flag_offset flag) header_size key

keyed-framed :
    (vlen room flag : ℕ) (key : Bytes)
    → keyed (length key) vlen room flag key
      ≡ framed (length key) vlen flag (key ++ replicate room 0)
unfolding pack_u32
keyed-framed vlen room flag key =
    rw (header_room (length key + room), copy_to-replicate key room 0) refl

value-framed :
    (klen vlen flag : ℕ) (key val : Bytes)
    → copy_to
        (framed klen vlen flag (key ++ replicate (length val) 0))
        (header_size + length key)
        val
      ≡ framed klen vlen flag (key ++ val)
value-framed klen vlen flag key val = rw (
  header_room (length key),
  copy_to-append key (replicate (length val) 0) val,
  copy_to-replicate_self val 0,
)

mod_small : (n : ℕ) → n < 2 ^ 32 → n % 2 ^ 32 ≡ n
mod_small n h = omega arith

encode-parts :
    (key val : Bytes) (deleted : Bool)
    → length key < 2 ^ 32
    → length val < 2 ^ 32
    → let ent : Entry = record { key = key; val = val; deleted = deleted } in
      encode ent ≡ framed (length key) (length val) (flag_byte deleted) (key ++ stored_val ent)
unfolding encode
encode-parts key val true hk hv =
    ap₂ (λ (n m : ℕ). keyed n m 0 1 key) (mod_small (length key) hk) (mod_small (length val) hv)
    ∙ keyed-framed (length val) 0 1 key
encode-parts key val false hk hv =
    ap₂ (λ (n m : ℕ). copy_to (keyed n m m 0 key) (header_size + n) val) (mod_small (length key) hk)
      (mod_small (length val) hv)
    ∙ ap (λ buf. copy_to buf (header_size + length key) val)
        (keyed-framed (length val) (length val) 0 key)
    ∙ value-framed (length key) (length val) 0 key val

pub encode-framed :
    (ent : Entry)
    → length ent.key < 2 ^ 32
    → length ent.val < 2 ^ 32
    → encode ent
      ≡ framed (length ent.key) (length ent.val) (flag_byte ent.deleted) (ent.key ++ stored_val ent)
encode-framed ent hk hv = encode-parts ent.key ent.val ent.deleted hk hv
