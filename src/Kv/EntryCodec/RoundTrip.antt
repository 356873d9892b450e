-- ===== src/Kv/EntryCodec/RoundTrip.antt =====
-- `decode` on what `encode` wrote.
use database_45_steps.Prelude.{
  ℕ, ◌^◌, ◌≤◌, ◌<◌, ◌≡◌, refl, sym, ap, ◌∙◌, arith, Bool, true, false, [], ◌∷◌, ◌++◌, if◌then◌else◌,
  length, length-append, take-append, drop-append, take-append_eq, drop-append_eq, AreBytes,
  All-append,
}
use database_45_steps.Core.Types.{Bytes}
use database_45_steps.Core.DbError.{ok}
use database_45_steps.Core.BitUtils.{pack_le}
use database_45_steps.Core.BitUtils.RoundTrip.{pack_le-AreBytes}
use database_45_steps.Core.Crc.{crc32_ieee}
use database_45_steps.Core.Crc.Detection.{crc32_ieee-lt}
use database_45_steps.Core.Reader.{list_reader}
use database_45_steps.Kv.Entry.{Entry}
use database_45_steps.Kv.EntryCodec.{
  entry, max_key_size, max_val_size, unpack_payload, encode, decode,
}
use database_45_steps.Kv.EntryCodec.Layout.{stored_val, flag_byte, covered, encode-layout}
use database_45_steps.Kv.EntryCodec.Parts.{
  is_set, digest, payload_size, judge, judge-eq, decode_rest, decode-fields,
}

-- An entry that respects the limits, and whose buffers hold bytes.
pub record IsStorable (ent : Entry) : Type 0 where
  pub key_bytes : AreBytes ent.key
  pub val_bytes : AreBytes ent.val
  pub key_fits : length ent.key ≤ max_key_size
  pub val_fits : length ent.val ≤ max_val_size

-- What is stored of an entry: a tombstone loses its value.
unfoldable pub stored_entry : Entry → Entry
stored_entry ent = record ent { val = stored_val ent }

abbrev pub payload : Entry → Bytes
payload ent = ent.key ++ stored_val ent

-- An encoded entry, field by field, in front of other bytes.
unfoldable pub framed : (stored : ℕ) → Entry → Bytes → Bytes
framed stored ent rest =
    pack_le 4 stored
    ++ (pack_le 4 (length ent.key)
        ++ (pack_le 4 (length (stored_val ent)) ++ (flag_byte ent.deleted ∷ rest)))

pub encode-framed :
    (ent : Entry) (rest : Bytes)
    → IsStorable ent
    → encode ent ++ rest ≡ framed (crc32_ieee (covered ent)) ent (payload ent ++ rest)
encode-framed ent rest s =
    ap (λ buf. buf ++ rest) (encode-layout ent (omega arith) (omega arith))
    ∙ regroup ent (crc32_ieee (covered ent)) rest
  where
    regroup :
        (ent : Entry) (c : ℕ) (rest : Bytes)
        → (pack_le 4 c ++ covered ent) ++ rest ≡ framed c ent (payload ent ++ rest)
    regroup ent c rest = unfold framed covered pack_le in refl

pub length-stored_val : (ent : Entry) → length (stored_val ent) ≤ length ent.val
length-stored_val ent = ground arith

-- The flag of a tombstone is set, and it has no value to count.
pub payload_size-length :
    (ent : Entry)
    → payload_size (length ent.key) (length (stored_val ent)) (flag_byte ent.deleted)
      ≡ length (payload ent)
payload_size-length ent = ground (arith, length-append ent.key (stored_val ent))

decode_rest-append :
    (stored klen vlen flag : ℕ) (body rest : Bytes)
    → klen ≤ max_key_size
    → vlen ≤ max_val_size
    → length body ≡ payload_size klen vlen flag
    → decode_rest stored klen vlen flag (body ++ rest) ≡ (judge stored klen vlen flag body, rest)
unfolding decode_rest
decode_rest-append stored klen vlen flag body rest hk hv h = ground (
  arith,
  length-append body rest,
  take-append_eq (payload_size klen vlen flag) body rest,
  drop-append_eq (payload_size klen vlen flag) body rest,
)

-- `decode` on the frame of an entry around a payload of the right length.
pub decode-framed :
    (stored : ℕ) (ent : Entry) (body rest : Bytes)
    → stored < 2 ^ 32
    → IsStorable ent
    → length body ≡ length (payload ent)
    → decode {R = Bytes} (framed stored ent (body ++ rest))
      ≡ (judge stored (length ent.key) (length (stored_val ent)) (flag_byte ent.deleted) body, rest)
decode-framed stored ent body rest hs s h =
    unfold framed in
    decode-fields stored (length ent.key) (length (stored_val ent)) (flag_byte ent.deleted)
      (body ++ rest) hs (omega arith) (omega (arith, length-stored_val ent))
    ∙ decode_rest-append stored (length ent.key) (length (stored_val ent)) (flag_byte ent.deleted)
        body rest s.key_fits (omega (arith, length-stored_val ent))
        (h ∙ sym (payload_size-length ent))

pub covered-digest :
    (ent : Entry)
    → crc32_ieee (covered ent)
      ≡ digest (length ent.key) (length (stored_val ent)) (flag_byte ent.deleted) (payload ent)
unfolding covered
covered-digest ent = refl

stored_val-AreBytes : (ent : Entry) → IsStorable ent → AreBytes (stored_val ent)
stored_val-AreBytes ent s = stored ent.deleted
  where
    stored : (deleted : Bool) → AreBytes (if deleted then [] else ent.val)
    stored true = tt
    stored false = s.val_bytes

pub flag_byte-IsByte : (deleted : Bool) → flag_byte deleted < 256
flag_byte-IsByte true = omega arith
flag_byte-IsByte false = omega arith

pub payload-AreBytes : (ent : Entry) → IsStorable ent → AreBytes (payload ent)
payload-AreBytes ent s =
    All-append _ ent.key (stored_val ent) s.key_bytes (stored_val-AreBytes ent s)

pub covered-lt : (ent : Entry) → IsStorable ent → crc32_ieee (covered ent) < 2 ^ 32
unfolding covered
covered-lt ent s = crc32_ieee-lt _ (
    All-append _ (pack_le 4 (length ent.key)) _ (pack_le-AreBytes 4 (length ent.key)) (
      All-append _ (pack_le 4 (length (stored_val ent))) _
        (pack_le-AreBytes 4 (length (stored_val ent)))
        (flag_byte-IsByte ent.deleted, payload-AreBytes ent s)))

unpack-payload :
    (key val : Bytes) (deleted : Bool)
    → let ent : Entry = record { key = key; val = val; deleted = deleted } in
      unpack_payload (length key) (is_set (flag_byte deleted)) (payload ent) ≡ stored_entry ent
unfolding stored_entry
unpack-payload key val true = rw (take-append key [])
unpack-payload key val false = rw (take-append key val, drop-append key val)

judge-payload :
    (ent : Entry)
    → judge
        (crc32_ieee (covered ent))
        (length ent.key)
        (length (stored_val ent))
        (flag_byte ent.deleted)
        (payload ent)
      ≡ ok (entry (stored_entry ent))
judge-payload ent =
    judge-eq (crc32_ieee (covered ent)) (length ent.key) (length (stored_val ent))
      (flag_byte ent.deleted) (payload ent) (sym (covered-digest ent))
    ∙ ap (λ x. ok (entry x)) (unpack-payload ent.key ent.val ent.deleted)

-- `decode` on the encoding of an entry of bytes within the size limits, followed by any bytes,
-- gives the entry (a tombstone without its value) and leaves exactly the bytes that follow.
pub decode-encode :
    (ent : Entry) (rest : Bytes)
    → IsStorable ent
    → decode {R = Bytes} (encode ent ++ rest) ≡ (ok (entry (stored_entry ent)), rest)
decode-encode ent rest s =
    ap decode (encode-framed ent rest s)
    ∙ decode-framed (crc32_ieee (covered ent)) ent (payload ent) rest (covered-lt ent s) s refl
    ∙ ap (λ d. (d, rest)) (judge-payload ent)
