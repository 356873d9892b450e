-- ===== src/Sql/Entry.antt =====
-- include/sql/database.h: `Entry`, [ klen(4) | vlen(4) | flag(1) | key | val ], to and from a
-- stream.
pub mod Layout
pub mod Reading
pub mod RoundTrip
pub mod Torn
use database_45_steps.Prelude.{
  ℕ, zero, suc, ◌+◌, ◌*◌, ◌/◌, ◌%◌, ◌^◌, Bool, true, false, not, List, [], ◌∷◌, ◌++◌, ltb, ◌==◌,
  if◌then◌else◌, length, take, drop, set, get_or, replicate, copy_to,
}
use database_45_steps.Core.Types.{Bytes}
use database_45_steps.Core.DbError.{ErrorCode, success}
use database_45_steps.Kv.Entry.{Entry}
use database_45_steps.Sql.Errors.{
  make_error_code, truncated_header, truncated_payload, key_too_large, value_too_large,
}
use database_45_steps.Sql.Stream.{Device, Stream, stream_read}

abbrev pub header_size : ℕ
header_size = 9

abbrev pub klen_offset : ℕ
klen_offset = 0

abbrev pub vlen_offset : ℕ
vlen_offset = 4

abbrev pub flag_offset : ℕ
flag_offset = 8

abbrev pub max_key_size : ℕ
max_key_size = 1024

abbrev pub max_val_size : ℕ
max_val_size = 1024 * 1024

-- `Entry()`
abbrev pub new_entry : Entry
new_entry = record { key = []; val = []; deleted = false }

-- `val >> 8 * i & 0xFF`, byte by byte
unfoldable pub pack_u32 : Bytes → ℕ → ℕ → Bytes
pack_u32 buf offset val =
    let buf = set buf offset (val % 256) in
    let buf = set buf (offset + 1) (val / 2 ^ 8 % 256) in
    let buf = set buf (offset + 2) (val / 2 ^ 16 % 256) in set buf (offset + 3) (val / 2 ^ 24 % 256)

-- The shifted bytes do not overlap, so that their `|` is their sum.
unfoldable pub unpack_u32 : Bytes → ℕ
unpack_u32 buf =
    get_or buf 0 0 + get_or buf 1 0 * 2 ^ 8 + get_or buf 2 0 * 2 ^ 16 + get_or buf 3 0 * 2 ^ 24

-- `Entry::Encode`. A key or value of 2 ^ 32 bytes or more would be cut in its length field only,
-- and overrun the buffer; `copy_to` drops what overruns.
unfoldable pub encode : Entry → Bytes
unfolding pack_u32
encode ent =
    let klen = length ent.key % 2 ^ 32 in
    let vlen = length ent.val % 2 ^ 32 in
    let buf : Bytes = replicate (header_size + (klen + (if ent.deleted then 0 else vlen))) 0 in
    let buf = pack_u32 buf klen_offset klen in
    let buf = pack_u32 buf vlen_offset vlen in
    let buf = set buf flag_offset (if ent.deleted then 1 else 0) in
    let buf = copy_to buf header_size ent.key in
    if ent.deleted then buf else copy_to buf (header_size + klen) ent.val

-- `resize(n)`
abbrev pub resize : ℕ → Bytes → Bytes
resize n bs = take n (bs ++ replicate n 0)

module _ (os : Device) where
  open os use {World}

  -- The end of `Decode`: the value, unless the entry is a tombstone.
  unfoldable pub decode_val : ℕ → Entry → Stream → World → ErrorCode × Entry × Stream × World
  decode_val vlen ent fs w =
      let val = resize vlen ent.val in
      let (bs, fs', w') = stream_read os vlen fs w in
      let filled : Entry = record ent { val = copy_to val 0 bs } in
      if not ent.deleted
      then (if fs'.failed then make_error_code truncated_payload else success, filled, fs', w')
      else (success, record ent { val = [] }, fs, w)

  -- The middle of `Decode`: the key.
  unfoldable pub decode_key : ℕ → ℕ → Entry → Stream → World → ErrorCode × Entry × Stream × World
  unfolding decode_val
  decode_key klen vlen ent fs w =
      let key = resize klen ent.key in
      let (bs, fs', w') = stream_read os klen fs w in
      let filled : Entry = record ent { key = copy_to key 0 bs } in
      if fs'.failed
      then (make_error_code truncated_payload, filled, fs', w')
      else decode_val vlen filled fs' w'

  -- `Decode` from a header that was read.
  unfoldable pub decode_header : Bytes → Entry → Stream → World → ErrorCode × Entry × Stream × World
  unfolding decode_key unpack_u32
  decode_header header ent fs w =
      let klen = unpack_u32 (drop klen_offset header) in
      let vlen = unpack_u32 (drop vlen_offset header) in
      let flagged : Entry = record ent { deleted = not (get_or header flag_offset 0 == 0) } in
      if ltb max_key_size klen
      then (make_error_code key_too_large, flagged, fs, w)
      else if ltb max_val_size vlen
      then (make_error_code value_too_large, flagged, fs, w)
      else decode_key klen vlen flagged fs w

  -- `Entry::Decode`: the error, the entry as it is left, and the stream.
  unfoldable pub decode : Entry → Stream → World → ErrorCode × Entry × Stream × World
  unfolding decode_header
  decode ent fs w =
      let (header, fs', w') = stream_read os header_size fs w in
      if fs'.failed
      then (make_error_code truncated_header, ent, fs', w')
      else decode_header header ent fs' w'
