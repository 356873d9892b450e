-- ===== src/Kv/EntryCodec/Progress.antt =====
-- How far a call of `decode` gets in its source.
use database_45_steps.Prelude.{
  ℕ, ◌+◌, ◌<◌, ◌≡◌, refl, arith, Bool, true, false, not, [], ◌∷◌, Bool-cases, if◌then◌else◌, ltb,
  ◌==◌, length, length-drop, take, drop, get_or, slice, inl, inr,
}
use database_45_steps.Core.Types.{Bytes}
use database_45_steps.Core.DbError.{ErrorCode, Result, ok, err}
use database_45_steps.Core.BitUtils.{unpack_le}
use database_45_steps.Core.Reader.{list_reader}
use database_45_steps.Kv.Entry.{Entry}
use database_45_steps.Kv.EntryCodec.{
  Decoded, entry, entry_eof, decode, decode_header, decode_body, decode_payload, verify, checksum,
  header_size, klen_offset, vlen_offset, flag_offset, cksum_offset, max_key_size, max_val_size,
}

-- The result of decoding where `size` bytes were left.
pub data Progress (size : ℕ) (d : Result Decoded × Bytes) : Type 0 where
  stopped : (e : ErrorCode) → d.0 ≡ err e → Progress size d
  ended : d.0 ≡ ok entry_eof → Progress size d
  advanced : (ent : Entry) → d.0 ≡ ok (entry ent) → length d.1 < size → Progress size d

Progress-if :
    (size : ℕ) (c : Bool) {d d' : Result Decoded × Bytes}
    → Progress size d
    → Progress size d'
    → Progress size (if c then d else d')
Progress-if size true h h' = h
Progress-if size false h h' = h'

Progress-if_result :
    (size : ℕ) (c : Bool) {a b : Result Decoded} {rest : Bytes}
    → Progress size (a, rest)
    → Progress size (b, rest)
    → Progress size (if c then a else b, rest)
Progress-if_result size true h h' = h
Progress-if_result size false h h' = h'

verify-Progress :
    (size : ℕ) (header payload rest : Bytes)
    → length rest < size
    → Progress size (verify header payload, rest)
unfolding verify
verify-Progress size header payload rest h =
    Progress-if_result size (checksum header payload == unpack_le (slice cksum_offset 4 header))
      (advanced _ refl h) (stopped _ refl)

payload-Progress :
    (size n : ℕ) (header payload rest : Bytes)
    → length rest < size
    → Progress size (decode_payload header n (ok payload), rest)
unfolding decode_payload
payload-Progress size n header payload rest h =
    Progress-if_result size (ltb (length payload) n) (stopped _ refl)
      (verify-Progress size header payload rest h)

body-Progress :
    (size : ℕ) (rest header : Bytes)
    → length rest < size
    → Progress size (decode_body {R = Bytes} rest header)
unfolding decode_body
body-Progress size rest header h =
    let klen : ℕ = unpack_le (slice klen_offset 4 header) in
    let vlen : ℕ = unpack_le (slice vlen_offset 4 header) in
    let n : ℕ = klen + (if not (get_or header flag_offset 0 == 0) then 0 else vlen) in
    Progress-if size (ltb max_key_size klen) (stopped _ refl) (
      Progress-if size (ltb max_val_size vlen) (stopped _ refl) (
        Progress-if size (ltb 0 n)
          (payload-Progress size n header (take n rest) (drop n rest)
            (omega (arith, length-drop n rest)))
          (verify-Progress size header [] rest h)))

-- On every list of bytes, `decode` gives an error, or the end of the source, or an entry, for
-- which it has then taken at least one byte; it never faults.
pub decode-Progress : (bs : Bytes) → Progress (length bs) (decode {R = Bytes} bs)
unfolding decode decode_header
decode-Progress bs = elim (Bool-cases (length (take header_size bs) == 0)) [
  | inl e ↦ rw e (ended refl)
  | inr e ↦ rw e (
      Progress-if (length bs) (ltb (length (take header_size bs)) header_size) (stopped _ refl) (
        body-Progress (length bs) (drop header_size bs) (take header_size bs)
          (omega (arith, length-drop header_size bs, some_bytes bs e))))
]
  where
    some_bytes : (bs : Bytes) → (length (take header_size bs) == 0) ≡ false → 0 < length bs
    some_bytes [] e = absurd (cc e)
    some_bytes (b ∷ bs) e = omega arith
