-- ===== src/Kv/EntryCodec.antt =====
-- include/kv/entry_codec.h and src/kv/entry_codec.cpp: the wire format of an entry,
-- [ cksum(4) | klen(4) | vlen(4) | flag(1) | key(klen) | val(vlen) ].
pub mod Layout
pub mod Parts
pub mod RoundTrip
pub mod Bounds
pub mod Corruption
pub mod Torn
pub mod Source
pub mod Progress
use database_45_steps.Prelude.{
  ℕ, zero, suc, ◌+◌, ◌*◌, ◌%◌, ◌^◌, Bool, not, List, [], ◌∷◌, ltb, ◌==◌, if◌then◌else◌, length,
  take, drop, set, get_or, replicate, copy_to, slice,
}
use database_45_steps.Core.Types.{Bytes}
use database_45_steps.Core.DbError.{
  DbError, Result, ok, err, fault, fail, key_too_large, value_too_large, truncated_header,
  truncated_payload, bad_checksum,
}
use database_45_steps.Core.BitUtils.{pack_le, unpack_le}
use database_45_steps.Core.Crc.{crc32_init, crc32_update, crc32_final, crc32_ieee}
use database_45_steps.Core.Reader.{Reader}
use database_45_steps.Kv.Entry.{Entry}

abbrev pub cksum_offset : ℕ
cksum_offset = 0

abbrev pub klen_offset : ℕ
klen_offset = cksum_offset + 4

abbrev pub vlen_offset : ℕ
vlen_offset = klen_offset + 4

abbrev pub flag_offset : ℕ
flag_offset = vlen_offset + 4

abbrev pub header_size : ℕ
header_size = flag_offset + 1

abbrev pub max_key_size : ℕ
max_key_size = 1024

abbrev pub max_val_size : ℕ
max_val_size = 1024 * 1024

-- `encode` up to the checksum, which is still zero: header fields and payload are copied into a
-- buffer of the final size. A key or value of 2 ^ 32 bytes or more would be cut in its length
-- field only, and overrun the buffer; `copy_to` drops what overruns.
pub fill : Entry → Bytes
fill ent =
    let klen = length ent.key % 2 ^ 32 in
    let vlen : ℕ = if ent.deleted then 0 else length ent.val % 2 ^ 32 in
    let buf : Bytes = replicate (header_size + (klen + (if ent.deleted then 0 else vlen))) 0 in
    let buf = copy_to buf klen_offset (pack_le 4 klen) in
    let buf = copy_to buf vlen_offset (pack_le 4 vlen) in
    let buf = set buf flag_offset (if ent.deleted then 1 else 0) in
    let buf = copy_to buf header_size ent.key in
    if ent.deleted then buf else copy_to buf (header_size + klen) ent.val

-- `EntryCodec::encode`
unfoldable pub encode : Entry → Bytes
unfolding fill
encode ent =
    let buf = fill ent in
    let cksum = crc32_ieee (drop klen_offset buf) in copy_to buf cksum_offset (pack_le 4 cksum)

-- `std::variant<Entry, EntryEOF>`
pub data Decoded : Type 0 where
  entry : Entry → Decoded
  entry_eof : Decoded

-- The entry of a payload: key first, and then the value of an entry that is not a tombstone.
abbrev pub unpack_payload : ℕ → Bool → Bytes → Entry
unpack_payload klen is_deleted payload = record {
  key = take klen payload;
  val = if is_deleted then [] else drop klen payload;
  deleted = is_deleted;
}

-- The checksum covers the header from `klen_offset` on, and the payload.
abbrev pub checksum : Bytes → Bytes → ℕ
checksum header payload =
    crc32_final (crc32_update (crc32_update crc32_init (drop klen_offset header)) payload)

-- The end of `decode`, from a payload that was read in full.
pub verify : Bytes → Bytes → Result Decoded
verify header payload =
    if checksum header payload == unpack_le (slice cksum_offset 4 header)
    then ok (
        entry (
          unpack_payload (unpack_le (slice klen_offset 4 header))
            (not (get_or header flag_offset 0 == 0)) payload))
    else fail bad_checksum

-- What `decode` does with the result of reading the payload.
pub decode_payload : Bytes → ℕ → Result Bytes → Result Decoded
decode_payload header payload_size (err e) = err e
decode_payload header payload_size fault = fault
decode_payload header payload_size (ok payload) =
    if ltb (length payload) payload_size then fail truncated_payload else verify header payload

module _ {R : Type 0} ⦃reader : Reader R⦄ where
  -- `decode` from the limits on: it reads a payload only if that has a byte.
  pub decode_body : R → Bytes → Result Decoded × R
  decode_body r header =
      let klen = unpack_le (slice klen_offset 4 header) in
      let vlen = unpack_le (slice vlen_offset 4 header) in
      let payload_size = klen + (if not (get_or header flag_offset 0 == 0) then 0 else vlen) in
      let (payload, r') = reader.read r payload_size in
      if ltb max_key_size klen
      then (fail key_too_large, r)
      else if ltb max_val_size vlen
      then (fail value_too_large, r)
      else if ltb 0 payload_size
      then (decode_payload header payload_size payload, r')
      else (verify header [], r)

  -- What `decode` does with the result of reading the header.
  pub decode_header : Result Bytes → R → Result Decoded × R
  decode_header (err e) r = (err e, r)
  decode_header fault r = (fault, r)
  decode_header (ok header) r =
      if length header == 0
      then (ok entry_eof, r)
      else if ltb (length header) header_size
      then (fail truncated_header, r)
      else decode_body r header

  -- `EntryCodec::decode`
  unfoldable pub decode : R → Result Decoded × R
  unfolding decode_header decode_body decode_payload verify
  decode r = let (header, r') = reader.read r header_size in decode_header header r'
