-- ===== src/Sql/Entry/Torn.antt =====
-- `decode` on an entry that was cut short, and how much `decode` consumes.
use database_45_steps.Prelude.{
  ℕ, ◌+◌, ◌≤◌, ◌<◌, ◌≡◌, ◌⊎◌, inl, inr, refl, sym, ap, ◌∙◌, arith, Bool, true, false, not,
  Bool-cases, [], ◌++◌, ltb, ◌==◌, if◌then◌else◌, length, take, drop, get_or, length-append,
  append-split, length-drop,
}
use database_45_steps.Core.Types.{Bytes}
use database_45_steps.Core.DbError.{ErrorCode}
use database_45_steps.Kv.Entry.{Entry}
use database_45_steps.Kv.EntryCodec.Layout.{stored_val, flag_byte}
use database_45_steps.Kv.EntryCodec.RoundTrip.{IsStorable}
use database_45_steps.Sql.Errors.{DbError, make_error_code, truncated_header, truncated_payload}
use database_45_steps.Sql.Stream.{Device, Stream}
use database_45_steps.Sql.Stream.Laws.{FileLaws, IsReady, unread}
use database_45_steps.Sql.Entry.{
  encode, decode, header_size, unpack_u32, klen_offset, vlen_offset, flag_offset, max_key_size,
  max_val_size,
}
use database_45_steps.Sql.Entry.Layout.{framed, encode-framed}
use database_45_steps.Sql.Entry.Reading.{
  complete, bad, parse, parse_payload, Decoding, decode-Decoding,
}
use database_45_steps.Sql.Entry.RoundTrip.{parse-framed}

-- The two ways in which an entry may be cut short.
abbrev pub IsCut : DbError → Type 0
IsCut e = (e ≡ truncated_header) ⊎ (e ≡ truncated_payload)

parse_short : (bs : Bytes) → length bs < header_size → parse bs ≡ bad truncated_header
unfolding parse
parse_short bs h = ground arith

parse_payload_short :
    (klen vlen : ℕ) (deleted : Bool) (rest : Bytes)
    → klen ≤ max_key_size
    → vlen ≤ max_val_size
    → length rest < klen + (if deleted then 0 else vlen)
    → parse_payload klen vlen deleted rest ≡ bad truncated_payload
parse_payload_short klen vlen true rest hk hv h = ground arith
parse_payload_short klen vlen false rest hk hv h = ground (arith, length-drop klen rest)

sized :
    (ent : Entry)
    → length (ent.key ++ stored_val ent)
      ≡ length ent.key + (if not (flag_byte ent.deleted == 0) then 0 else length ent.val)
sized ent = ground (arith, length-append ent.key (stored_val ent))

parse_middle :
    (ent : Entry) (middle back : Bytes)
    → IsStorable ent
    → ent.key ++ stored_val ent ≡ middle ++ back
    → 0 < length back
    → parse (framed (length ent.key) (length ent.val) (flag_byte ent.deleted) middle)
      ≡ bad truncated_payload
parse_middle ent middle back s e h =
    parse-framed (length ent.key) (length ent.val) (flag_byte ent.deleted) middle (omega arith)
      (omega arith)
    ∙ parse_payload_short (length ent.key) (length ent.val) (not (flag_byte ent.deleted == 0))
        middle s.key_fits s.val_fits
        (omega (arith, sized ent, ap length e, length-append middle back))

-- A proper front of an encoded entry parses as an entry that was cut short.
pub parse-torn :
    (ent : Entry) (front back : Bytes)
    → IsStorable ent
    → front ++ back ≡ encode ent
    → 0 < length back
    → (e : DbError) × IsCut e × (parse front ≡ bad e)
parse-torn ent front back s e h = elim (Bool-cases (ltb (length front) header_size)) [
  | inl short ↦ (truncated_header, inl refl, parse_short front (ground (arith, short)))
  | inr long ↦
      let head = framed (length ent.key) (length ent.val) (flag_byte ent.deleted) [] in
      let (middle, p, q) =
        append-split head (ent.key ++ stored_val ent) front back
          (sym (encode-framed ent (omega arith) (omega arith)) ∙ sym e) (ground (arith, long)) in
      (truncated_payload, inr refl, ap parse p ∙ parse_middle ent middle back s q h)
]

parse_payload_consumes :
    (klen vlen : ℕ) (deleted : Bool) (bs : Bytes) (ent : Entry) (rest : Bytes)
    → parse_payload klen vlen deleted bs ≡ complete ent rest
    → length rest ≤ length bs
parse_payload_consumes klen vlen true bs ent rest h = ground (arith, h, length-drop klen bs)
parse_payload_consumes klen vlen false bs ent rest h =
    ground (arith, h, length-drop klen bs, length-drop vlen (drop klen bs))

header_consumes :
    (klen vlen : ℕ) (deleted : Bool) (bs : Bytes) (ent : Entry) (rest : Bytes)
    → (if ltb (length bs) header_size
        then bad truncated_header
        else parse_payload klen vlen deleted (drop header_size bs))
      ≡ complete ent rest
    → length rest + header_size ≤ length bs
header_consumes klen vlen deleted bs ent rest h = elim (Bool-cases (ltb (length bs) header_size)) [
  | inl short ↦ absurd (cc (rw short at h))
  | inr long ↦ omega (
    arith,
    ltb-long (length bs) long,
    length-drop header_size bs,
    parse_payload_consumes klen vlen deleted (drop header_size bs) ent rest (rw long at h),
  )
]
  where
    ltb-long : (n : ℕ) → ltb n header_size ≡ false → header_size ≤ n
    ltb-long n h = ground (arith, h)

-- An entry takes up its header at least.
pub parse_consumes :
    (bs : Bytes) (ent : Entry) (rest : Bytes)
    → parse bs ≡ complete ent rest
    → length rest + header_size ≤ length bs
unfolding parse
parse_consumes bs ent rest h =
    let header = take header_size bs in
    header_consumes (unpack_u32 (drop klen_offset header)) (unpack_u32 (drop vlen_offset header))
      (not (get_or header flag_offset 0 == 0)) bs ent rest h

module _ {os : Device} {path : Bytes} (laws : FileLaws os path) where
  open laws use {content}

  Decoding-IsCut :
      (before : Bytes) (e : DbError) (r : ErrorCode × Entry × Stream × os.World)
      → IsCut e
      → Decoding laws before (bad e) r
      → (e' : DbError) × IsCut e' × (r.0 ≡ make_error_code e') × (content r.3 ≡ before)
  Decoding-IsCut before e r c (Decoding.cut e' c' p f kept) = (e', c', p, kept)
  Decoding-IsCut before e r c (Decoding.rejected e' c' p q kept) =
      (e, c, ground (arith, p, q), kept)
  Decoding-IsCut before e r c (Decoding.accepted ent rest p q s ready left kept) = absurd (cc p)

  -- On an open stream in good state that stands before a proper front of an encoded entry, at the
  -- end of the file, `decode` reports that the header or the payload is cut short, and the file
  -- stays as it was.
  pub sql_decode-torn :
      (old ent : Entry) (front back : Bytes) (fs : Stream) (w : os.World)
      → IsReady fs
      → IsStorable ent
      → front ++ back ≡ encode ent
      → 0 < length back
      → unread laws fs w ≡ front
      → let r = decode os old fs w in
        (e : DbError) × IsCut e × (r.0 ≡ make_error_code e) × (content r.3 ≡ content w)
  sql_decode-torn old ent front back fs w ready s e h u =
      let (code, c, p) = parse-torn ent front back s e h in
      Decoding-IsCut (content w) code (decode os old fs w) c
        (rw (← p, ← u) (decode-Decoding laws old fs w ready))
