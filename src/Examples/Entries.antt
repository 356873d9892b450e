-- ===== src/Examples/Entries.antt =====
-- Examples for the codec of entries.
use database_45_steps.Prelude.{AreBytes, ◌≡◌, refl, arith, false, some, [], ◌∷◌, ◌++◌}
use database_45_steps.Core.Types.{Bytes}
use database_45_steps.Core.DbError.{ok, fail, bad_checksum}
use database_45_steps.Core.BitUtils.{pack_le, unpack_le}
use database_45_steps.Core.Crc.{crc32_init, crc32_ieee, crc32_update, crc32_final}
use database_45_steps.Core.Platform.{FileHandle, handle_reader}
use database_45_steps.Core.Platform.Laws.{File}
use database_45_steps.Core.Reader.{list_reader}
use database_45_steps.Kv.Entry.{Entry}
use database_45_steps.Kv.EntryCodec.{encode, decode, entry}
use database_45_steps.Kv.EntryCodec.Layout.{covered, encode-layout}
use database_45_steps.Kv.EntryCodec.RoundTrip.{IsStorable, stored_entry, decode-encode}
use database_45_steps.Kv.EntryCodec.Corruption.{decode_corrupt}
use database_45_steps.Kv.EntryCodec.Torn.{torn, decode-torn}
use database_45_steps.Kv.EntryCodec.Bounds.{decode-IsStorable}

abbrev pub first : Entry
first = record { key = 7 ∷ []; val = 8 ∷ 9 ∷ []; deleted = false }

pub first-IsStorable : IsStorable first
first-IsStorable = record {
  key_bytes = (omega arith, tt);
  val_bytes = (omega arith, (omega arith, tt));
  key_fits = omega arith;
  val_fits = omega arith;
}

-- The encoding of `first` is its first five bytes, the length of its value, and the rest.
abbrev pub torn_front : Bytes
torn_front = 84 ∷ 169 ∷ 31 ∷ 22 ∷ 1 ∷ 0 ∷ 0 ∷ 0 ∷ []

abbrev pub torn_back : Bytes
torn_back = 0 ∷ 0 ∷ 0 ∷ 0 ∷ 7 ∷ 8 ∷ 9 ∷ []

pub first-torn : encode first ≡ torn_front ++ (2 ∷ torn_back)
unfolding encode crc32_ieee crc32_update crc32_final pack_le
first-torn = refl

-- The same, up to the value's last byte.
abbrev pub long_front : Bytes
long_front = 84 ∷ 169 ∷ 31 ∷ 22 ∷ 1 ∷ 0 ∷ 0 ∷ 0 ∷ 2 ∷ 0 ∷ 0 ∷ 0 ∷ 0 ∷ 7 ∷ 8 ∷ []

pub first-long : encode first ≡ long_front ++ (9 ∷ [])
unfolding encode crc32_ieee crc32_update crc32_final pack_le
first-long = refl

encode-layout_example : encode first ≡ pack_le 4 (crc32_ieee (covered first)) ++ covered first
encode-layout_example = encode-layout first (omega arith) (omega arith)

decode-encode_example :
    decode {R = Bytes} (encode first ++ (1 ∷ [])) ≡ (ok (entry (stored_entry first)), 1 ∷ [])
decode-encode_example = decode-encode first (1 ∷ []) first-IsStorable

decode-torn_example : decode {R = Bytes} torn_front ≡ (torn torn_front, [])
decode-torn_example = decode-torn first torn_front torn_back 2 first-IsStorable first-torn

decode_corrupt_example :
    decode {R = Bytes} ((long_front ++ (3 ∷ [])) ++ (1 ∷ [])) ≡ (fail bad_checksum, 1 ∷ [])
decode_corrupt_example =
    decode_corrupt first long_front [] (1 ∷ []) 9 3 first-IsStorable first-long (omega arith)
      (omega arith) (omega arith)

abbrev pub path : Bytes
path = b'd' ∷ b'b' ∷ []

abbrev pub disk_of : Bytes → File
disk_of content = record { content = content; offset = 0; durable = content }

abbrev pub handle : FileHandle
handle = record { fd = some 3; at_eof = false }

abbrev whole : Bytes
whole = torn_front ++ (2 ∷ torn_back)

whole-decoded : (decode {R = Bytes} whole).0 ≡ ok (entry first)
unfolding decode unpack_le crc32_init crc32_update crc32_final
whole-decoded = refl

decode-IsStorable_example : IsStorable first × AreBytes (decode {R = Bytes} whole).1
decode-IsStorable_example = decode-IsStorable whole first (omega arith) whole-decoded
