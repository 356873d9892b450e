-- ===== src/Kv/EntryCodec/Bounds.antt =====
-- The sizes of encoded entries, and of entries that `decode` accepts.
use database_45_steps.Prelude.{
  ℕ, ◌+◌, ◌^◌, ◌≤◌, ◌<◌, ◌≡◌, refl, ap, ◌∙◌, arith, Bool, true, false, not, [], ◌∷◌, ◌++◌, ltb,
  ◌==◌, if◌then◌else◌, length, take, drop, get_or, slice, length-append, length-take, length-drop,
  AreBytes, take-AreBytes, drop-AreBytes, Bool-cases, inl, inr,
}
use mathlib.Core.Path.{subst}
use database_45_steps.Core.Types.{Bytes}
use database_45_steps.Core.DbError.{
  Result, ok, fail, key_too_large, value_too_large, truncated_header,
}
use database_45_steps.Core.BitUtils.{pack_le, unpack_le}
use database_45_steps.Core.BitUtils.RoundTrip.{length-pack_le}
use database_45_steps.Core.Crc.{crc32_ieee}
use database_45_steps.Core.Reader.{list_reader}
use database_45_steps.Kv.Entry.{Entry}
use database_45_steps.Kv.EntryCodec.{
  Decoded, entry, entry_eof, encode, decode, decode_header, decode_body, decode_payload, verify,
  checksum, unpack_payload, header_size, klen_offset, vlen_offset, flag_offset, cksum_offset,
  max_key_size, max_val_size,
}
use database_45_steps.Kv.EntryCodec.Layout.{stored_val, flag_byte, covered, encode-layout}
use database_45_steps.Kv.EntryCodec.RoundTrip.{IsStorable, length-stored_val}

pub length-encode :
    (ent : Entry)
    → length ent.key < 2 ^ 32
    → length ent.val < 2 ^ 32
    → length (encode ent) ≡ header_size + (length ent.key + length (stored_val ent))
unfolding covered
length-encode ent hk hv =
    let stored = crc32_ieee (covered ent) in
    ap length (encode-layout ent hk hv)
    ∙ omega (
      arith,
      length-append (pack_le 4 stored) (covered ent),
      length-append (pack_le 4 (length ent.key)) (
          pack_le 4 (length (stored_val ent))
          ++ (flag_byte ent.deleted ∷ (ent.key ++ stored_val ent))),
      length-append (pack_le 4 (length (stored_val ent)))
          (flag_byte ent.deleted ∷ (ent.key ++ stored_val ent)),
      length-append ent.key (stored_val ent),
      length-pack_le 4 stored,
      length-pack_le 4 (length ent.key),
      length-pack_le 4 (length (stored_val ent)),
    )

-- The largest record of a log.
abbrev pub max_record_size : ℕ
max_record_size = header_size + (max_key_size + max_val_size)

pub length-encode-le : (ent : Entry) → IsStorable ent → length (encode ent) ≤ max_record_size
length-encode-le ent s =
    omega (arith, length-encode ent (omega arith) (omega arith), length-stored_val ent)

-- The entry of a result respects the limits.
pub record IsBounded (d : Result Decoded × Bytes) : Type 0 where
  pub storable : (ent : Entry) → d.0 ≡ ok (entry ent) → IsStorable ent
  pub left : AreBytes d.1

IsBounded-if :
    (c : Bool) {d d' : Result Decoded × Bytes}
    → (c ≡ true → IsBounded d)
    → (c ≡ false → IsBounded d')
    → IsBounded (if c then d else d')
IsBounded-if true h h' = h refl
IsBounded-if false h h' = h' refl

no_entry :
    (result : Result Decoded) (rest : Bytes)
    → ((ent : Entry) → ¬ (result ≡ ok (entry ent)))
    → AreBytes rest
    → IsBounded (result, rest)
no_entry result rest h bytes = record { storable = λ ent e. absurd (h ent e); left = bytes }

unpacked :
    (klen vlen : ℕ) (deleted : Bool) (payload : Bytes)
    → klen ≤ max_key_size
    → vlen ≤ max_val_size
    → length payload ≤ klen + (if deleted then 0 else vlen)
    → AreBytes payload
    → IsStorable (unpack_payload klen deleted payload)
unpacked klen vlen true payload hk hv h bytes = record {
  key_bytes = take-AreBytes klen payload bytes;
  val_bytes = tt;
  key_fits = omega (arith, length-take klen payload);
  val_fits = omega arith;
}
unpacked klen vlen false payload hk hv h bytes = record {
  key_bytes = take-AreBytes klen payload bytes;
  val_bytes = drop-AreBytes klen payload bytes;
  key_fits = omega (arith, length-take klen payload);
  val_fits = omega (arith, length-drop klen payload);
}

verify-IsBounded :
    (header payload rest : Bytes)
    → let klen = unpack_le (slice klen_offset 4 header) in
      let deleted = not (get_or header flag_offset 0 == 0) in
      IsStorable (unpack_payload klen deleted payload)
      → AreBytes rest
      → IsBounded (verify header payload, rest)
unfolding verify
verify-IsBounded header payload rest s bytes =
    elim (Bool-cases (checksum header payload == unpack_le (slice cksum_offset 4 header))) [
      | inl e ↦ rw e (record { storable = λ ent p. subst IsStorable (cc p) s; left = bytes })
      | inr e ↦ rw e (no_entry _ rest (λ ent p. cc p) bytes)
    ]

body-IsBounded :
    (rest header : Bytes) → AreBytes rest → IsBounded (decode_body {R = Bytes} rest header)
unfolding decode_body decode_payload
body-IsBounded rest header bytes =
    let klen : ℕ = unpack_le (slice klen_offset 4 header) in
    let vlen : ℕ = unpack_le (slice vlen_offset 4 header) in
    let deleted : Bool = not (get_or header flag_offset 0 == 0) in
    let size : ℕ = klen + (if deleted then 0 else vlen) in
    IsBounded-if (ltb max_key_size klen)
      (λ e. no_entry (fail key_too_large) rest (λ ent p. cc p) bytes)
      (λ hk.
        IsBounded-if (ltb max_val_size vlen)
          (λ e. no_entry (fail value_too_large) rest (λ ent p. cc p) bytes)
          (λ hv.
            IsBounded-if (ltb 0 size)
              (λ e.
                IsBounded-short header size (take size rest) (drop size rest)
                  (drop-AreBytes size rest bytes)
                  (verify-IsBounded header (take size rest) (drop size rest)
                    (unpacked klen vlen deleted (take size rest) (ground arith) (ground arith)
                      (omega (arith, length-take size rest)) (take-AreBytes size rest bytes))
                    (drop-AreBytes size rest bytes)))
              (λ e.
                verify-IsBounded header [] rest
                  (unpacked klen vlen deleted [] (ground arith) (ground arith) (omega arith) tt)
                  bytes)))
  where
    IsBounded-short :
        (header : Bytes) (size : ℕ) (payload rest : Bytes)
        → AreBytes rest
        → IsBounded (verify header payload, rest)
        → IsBounded (decode_payload header size (ok payload), rest)
    IsBounded-short header size payload rest bytes h =
        elim (Bool-cases (ltb (length payload) size)) [
          | inl e ↦ rw e (no_entry _ rest (λ ent p. cc p) bytes)
          | inr e ↦ rw e h
        ]

-- Whatever bytes `decode` is given, an entry that it returns is made of bytes and has a key and a
-- value within the size limits, and what is left of the buffer is bytes.
pub decode-IsStorable :
    (bs : Bytes) (ent : Entry)
    → AreBytes bs
    → (decode {R = Bytes} bs).0 ≡ ok (entry ent)
    → IsStorable ent × AreBytes (decode {R = Bytes} bs).1
unfolding decode decode_header
decode-IsStorable bs ent bytes h =
    let header = take header_size bs in
    let rest = drop header_size bs in
    let left = drop-AreBytes header_size bs bytes in
    let b : IsBounded (decode_header {R = Bytes} (ok header) rest) =
      IsBounded-if (length header == 0) (λ e. no_entry (ok entry_eof) rest (λ ent p. cc p) left)
        (λ e.
          IsBounded-if (ltb (length header) header_size)
            (λ e'. no_entry (fail truncated_header) rest (λ ent p. cc p) left)
            (λ e'. body-IsBounded rest header left)) in
    (b.storable ent h, b.left)
