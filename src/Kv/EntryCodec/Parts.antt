-- ===== src/Kv/EntryCodec/Parts.antt =====
-- `decode` on a list of bytes, in terms of the header's fields.
use database_45_steps.Prelude.{
  ℕ, ◌+◌, ◌^◌, ◌<◌, ◌≡◌, ◌≢◌, refl, sym, ap, ap₂, ◌∙◌, arith, Bool, not, [], ◌∷◌, ◌++◌,
  if◌then◌else◌, ltb, ◌==◌, length, length-take, take, drop,
}
use database_45_steps.Core.Types.{Bytes}
use database_45_steps.Core.DbError.{
  Result, ok, fail, key_too_large, value_too_large, truncated_payload, bad_checksum,
}
use database_45_steps.Core.BitUtils.{pack_le, unpack_le}
use database_45_steps.Core.BitUtils.RoundTrip.{unpack_le-pack_le}
use database_45_steps.Core.Crc.{
  crc32_init, crc32_final, crc32_ieee, crc32_ieee_lem, crc32_update-append,
}
use database_45_steps.Core.Reader.{list_reader}
use database_45_steps.Kv.EntryCodec.{
  Decoded, entry, klen_offset, max_key_size, max_val_size, unpack_payload, checksum, verify,
  decode_payload, decode_body, decode_header, decode,
}

-- What the checksum of an entry with these fields and this payload should be.
abbrev pub digest : ℕ → ℕ → ℕ → Bytes → ℕ
digest klen vlen flag payload = crc32_ieee (pack_le 4 klen ++ (pack_le 4 vlen ++ (flag ∷ payload)))

abbrev pub is_set : ℕ → Bool
is_set flag = not (flag == 0)

abbrev pub payload_size : ℕ → ℕ → ℕ → ℕ
payload_size klen vlen flag = klen + (if is_set flag then 0 else vlen)

-- The verdict on a payload that was read in full.
unfoldable pub judge : (stored klen vlen flag : ℕ) → Bytes → Result Decoded
judge stored klen vlen flag payload =
    if digest klen vlen flag payload == stored
    then ok (entry (unpack_payload klen (is_set flag) payload))
    else fail bad_checksum

pub judge-eq :
    (stored klen vlen flag : ℕ) (payload : Bytes)
    → digest klen vlen flag payload ≡ stored
    → judge stored klen vlen flag payload ≡ ok (entry (unpack_payload klen (is_set flag) payload))
unfolding judge
judge-eq stored klen vlen flag payload h = ground arith

pub judge-ne :
    (stored klen vlen flag : ℕ) (payload : Bytes)
    → digest klen vlen flag payload ≢ stored
    → judge stored klen vlen flag payload ≡ fail bad_checksum
unfolding judge
judge-ne stored klen vlen flag payload h = ground arith

-- The verdict on the bytes behind a header, and the bytes that are left.
unfoldable pub decode_rest : (stored klen vlen flag : ℕ) → Bytes → Result Decoded × Bytes
decode_rest stored klen vlen flag rest =
    let size = payload_size klen vlen flag in
    if ltb max_key_size klen
    then (fail key_too_large, rest)
    else if ltb max_val_size vlen
    then (fail value_too_large, rest)
    else if ltb (length rest) size
    then (fail truncated_payload, drop size rest)
    else (judge stored klen vlen flag (take size rest), drop size rest)

abbrev header : ℕ → ℕ → ℕ → ℕ → Bytes
header stored klen vlen flag =
    pack_le 4 stored ++ (pack_le 4 klen ++ (pack_le 4 vlen ++ (flag ∷ [])))

checksum-digest :
    (stored klen vlen flag : ℕ) (payload : Bytes)
    → checksum (header stored klen vlen flag) payload ≡ digest klen vlen flag payload
unfolding pack_le
checksum-digest stored klen vlen flag payload =
    ap crc32_final (crc32_update-append crc32_init (drop klen_offset head) payload)
    ∙ sym (crc32_ieee_lem (drop klen_offset head ++ payload))
  where
    head : Bytes
    head = header stored klen vlen flag

-- `verify` in terms of the fields as they are stored.
verify-fields :
    (stored klen vlen flag : ℕ) (payload : Bytes)
    → verify (header stored klen vlen flag) payload ≡ (
        if checksum (header stored klen vlen flag) payload == unpack_le (pack_le 4 stored)
        then ok (entry (unpack_payload (unpack_le (pack_le 4 klen)) (is_set flag) payload))
        else fail bad_checksum)
unfolding verify pack_le
verify-fields stored klen vlen flag payload = refl

verify-judge :
    (stored klen vlen flag : ℕ) (payload : Bytes)
    → stored < 2 ^ 32
    → klen < 2 ^ 32
    → verify (header stored klen vlen flag) payload ≡ judge stored klen vlen flag payload
unfolding judge
verify-judge stored klen vlen flag payload hs hk =
    verify-fields stored klen vlen flag payload
    ∙ ap₂ (λ (a w : ℕ). verdict a w (unpack_le (pack_le 4 klen)))
        (checksum-digest stored klen vlen flag payload) (unpack_le-pack_le 4 stored (omega arith))
    ∙ ap (verdict (digest klen vlen flag payload) stored) (unpack_le-pack_le 4 klen (omega arith))
  where
    verdict : ℕ → ℕ → ℕ → Result Decoded
    verdict actual wanted size =
        if actual == wanted
        then ok (entry (unpack_payload size (is_set flag) payload))
        else fail bad_checksum

-- `decode` with the sizes as they are stored.
decode_sized : (klen vlen : ℕ) (flag : ℕ) → Bytes → Bytes → Result Decoded × Bytes
decode_sized klen vlen flag head rest =
    let size = payload_size klen vlen flag in
    if ltb max_key_size klen
    then (fail key_too_large, rest)
    else if ltb max_val_size vlen
    then (fail value_too_large, rest)
    else if ltb 0 size
    then (decode_payload head size (ok (take size rest)), drop size rest)
    else (verify head [], rest)

decode-sized :
    (stored klen vlen flag : ℕ) (rest : Bytes)
    → decode {R = Bytes} (pack_le 4 stored ++ (pack_le 4 klen ++ (pack_le 4 vlen ++ (flag ∷ rest))))
      ≡ decode_sized
          (unpack_le (pack_le 4 klen))
          (unpack_le (pack_le 4 vlen))
          flag
          (header stored klen vlen flag)
          rest
unfolding decode decode_header decode_body pack_le decode_sized
decode-sized stored klen vlen flag rest = refl

sized-rest :
    (stored klen vlen flag : ℕ) (rest : Bytes)
    → ((payload : Bytes)
        → verify (header stored klen vlen flag) payload ≡ judge stored klen vlen flag payload)
    → decode_sized klen vlen flag (header stored klen vlen flag) rest
      ≡ decode_rest stored klen vlen flag rest
unfolding decode_sized decode_rest decode_payload
sized-rest stored klen vlen flag rest h = ground (
  arith,
  h [],
  h (take (payload_size klen vlen flag) rest),
  length-take (payload_size klen vlen flag) rest,
)

pub decode-fields :
    (stored klen vlen flag : ℕ) (rest : Bytes)
    → stored < 2 ^ 32
    → klen < 2 ^ 32
    → vlen < 2 ^ 32
    → decode {R = Bytes} (pack_le 4 stored ++ (pack_le 4 klen ++ (pack_le 4 vlen ++ (flag ∷ rest))))
      ≡ decode_rest stored klen vlen flag rest
decode-fields stored klen vlen flag rest hs hk hv =
    decode-sized stored klen vlen flag rest
    ∙ ap₂ (λ (k v : ℕ). decode_sized k v flag (header stored klen vlen flag) rest)
        (unpack_le-pack_le 4 klen (omega arith)) (unpack_le-pack_le 4 vlen (omega arith))
    ∙ sized-rest stored klen vlen flag rest
        (λ payload. verify-judge stored klen vlen flag payload hs hk)
