-- ===== src/Kv/EntryCodec/Torn.antt =====
-- A write that was cut short: `decode` on a proper prefix of an encoded entry.
use database_45_steps.Prelude.{
  ℕ, ◌^◌, ◌≤◌, ◌<◌, ◌≡◌, sym, ap, ◌∙◌, arith, [], ◌∷◌, ◌++◌, ltb, ◌==◌, if◌then◌else◌, length,
  length-append, take_all, drop_all, append-split,
}
use native.Mathlib.Decide.{dec_lt}
use database_45_steps.Core.Types.{Bytes}
use database_45_steps.Core.DbError.{Result, ok, fail, truncated_header, truncated_payload}
use database_45_steps.Core.Crc.{crc32_ieee}
use database_45_steps.Core.Reader.{list_reader}
use database_45_steps.Kv.Entry.{Entry}
use database_45_steps.Kv.EntryCodec.{
  Decoded, entry_eof, header_size, max_key_size, max_val_size, encode, decode, decode_header,
}
use database_45_steps.Kv.EntryCodec.Layout.{stored_val, flag_byte, covered}
use database_45_steps.Kv.EntryCodec.Parts.{payload_size, decode_rest, decode-fields}
use database_45_steps.Kv.EntryCodec.RoundTrip.{
  IsStorable, payload, framed, covered-lt, payload_size-length, length-stored_val,
}
use database_45_steps.Kv.EntryCodec.Corruption.{
  head_bytes, framed-head, length-head_bytes, encode-head,
}

-- What `decode` makes of a prefix: nothing at all is the end of the log.
abbrev pub torn : Bytes → Result Decoded
torn front =
    if length front == 0
    then ok entry_eof
    else if ltb (length front) header_size
    then fail truncated_header
    else fail truncated_payload

decode-short :
    (front : Bytes) → length front < header_size → decode {R = Bytes} front ≡ (torn front, [])
unfolding decode decode_header
decode-short front h =
    ground
      (arith, take_all header_size front (omega arith), drop_all header_size front (omega arith))

decode_rest-short :
    (stored klen vlen flag : ℕ) (rest : Bytes)
    → klen ≤ max_key_size
    → vlen ≤ max_val_size
    → length rest < payload_size klen vlen flag
    → decode_rest stored klen vlen flag rest ≡ (fail truncated_payload, [])
unfolding decode_rest
decode_rest-short stored klen vlen flag rest hk hv h =
    ground (arith, drop_all (payload_size klen vlen flag) rest (omega arith))

decode-long :
    (stored : ℕ) (ent : Entry) (middle : Bytes)
    → stored < 2 ^ 32
    → IsStorable ent
    → length middle < length (payload ent)
    → decode {R = Bytes} (framed stored ent middle) ≡ (fail truncated_payload, [])
unfolding framed
decode-long stored ent middle hs s h =
    decode-fields stored (length ent.key) (length (stored_val ent)) (flag_byte ent.deleted) middle
      hs (omega arith) (omega (arith, length-stored_val ent))
    ∙ decode_rest-short stored (length ent.key) (length (stored_val ent)) (flag_byte ent.deleted)
        middle s.key_fits (omega (arith, length-stored_val ent))
        (omega (arith, payload_size-length ent))

torn-long : (front : Bytes) → header_size ≤ length front → torn front ≡ fail truncated_payload
torn-long front h = ground arith

-- On a proper prefix of the encoding of a storable entry, `decode` consumes all of it, and reports
-- the end of the log if it is empty, `truncated_header` if it is shorter than a header, and
-- `truncated_payload` otherwise.
pub decode-torn :
    (ent : Entry) (front back : Bytes) (x : ℕ)
    → IsStorable ent
    → encode ent ≡ front ++ (x ∷ back)
    → decode {R = Bytes} front ≡ (torn front, [])
decode-torn ent front back x s e = elim (dec_lt (length front) header_size) [
  | yes h ↦ decode-short front h
  | no h ↦
      let c : ℕ = crc32_ieee (covered ent) in
      let (middle, p, q) =
        append-split (head_bytes c ent) (payload ent) front (x ∷ back) (sym (encode-head ent s) ∙ e)
          (omega (arith, length-head_bytes c ent)) in
      ap decode (p ∙ sym (framed-head c ent middle))
      ∙ decode-long c ent middle (covered-lt ent s) s
          (omega (arith, ap length q, length-append middle (x ∷ back)))
      ∙ sym (ap (λ d. (d, [])) (torn-long front (omega arith)))
]

pub decode-nil : decode {R = Bytes} [] ≡ (ok entry_eof, [])
decode-nil = decode-short [] (omega arith)
