-- ===== src/Sql/Entry/RoundTrip.antt =====
-- `decode` on what `encode` wrote.
use database_45_steps.Prelude.{
  ℕ, ◌^◌, ◌≤◌, ◌<◌, ◌≡◌, refl, ap, ap₂, ◌∙◌, arith, Bool, true, false, not, [], ◌∷◌, ◌++◌, ltb,
  ◌==◌, if◌then◌else◌, length, length-append, take-append, drop-append, append_assoc,
}
use database_45_steps.Core.Types.{Bytes}
use database_45_steps.Kv.Entry.{Entry}
use database_45_steps.Kv.EntryCodec.Layout.{stored_val, flag_byte}
use database_45_steps.Kv.EntryCodec.RoundTrip.{IsStorable, stored_entry}
use database_45_steps.Sql.Errors.{truncated_header}
use database_45_steps.Sql.Stream.{Device, Stream}
use database_45_steps.Sql.Stream.Laws.{FileLaws, IsReady, unread}
use database_45_steps.Sql.Entry.{
  encode, decode, header_size, unpack_u32, max_key_size, max_val_size,
}
use database_45_steps.Sql.Entry.Layout.{u32_bytes, unpack_u32-u32_bytes, framed, encode-framed}
use database_45_steps.Sql.Entry.Reading.{
  Parsed, complete, bad, parse, parse_payload, Decoding, decode-Decoding,
}

pub parse-framed :
    (klen vlen flag : ℕ) (rest : Bytes)
    → klen < 2 ^ 32
    → vlen < 2 ^ 32
    → parse (framed klen vlen flag rest) ≡ parse_payload klen vlen (not (flag == 0)) rest
unfolding parse
parse-framed klen vlen flag rest hk hv =
    let enough : ltb (length (framed klen vlen flag rest)) header_size ≡ false = ground arith in
    ap (λ t. if t then bad truncated_header else parsed) enough
    ∙ ap₂ (λ (k v : ℕ). parse_payload k v (not (flag == 0)) rest)
        (unpack_u32-u32_bytes klen (u32_bytes vlen ++ (flag ∷ [])) hk)
        (unpack_u32-u32_bytes vlen (flag ∷ []) hv)
  where
    parsed : Parsed
    parsed =
        parse_payload (unpack_u32 (u32_bytes klen ++ (u32_bytes vlen ++ (flag ∷ []))))
          (unpack_u32 (u32_bytes vlen ++ (flag ∷ []))) (not (flag == 0)) rest

parse_payload-append :
    (key val rest : Bytes) (deleted : Bool)
    → length key ≤ max_key_size
    → length val ≤ max_val_size
    → let ent : Entry = record { key = key; val = val; deleted = deleted } in
      parse_payload (length key) (length val) deleted (key ++ (stored_val ent ++ rest))
      ≡ complete (stored_entry ent) rest
unfolding stored_entry
parse_payload-append key val rest true hk hv =
    ground (arith, length-append key rest, take-append key rest, drop-append key rest)
parse_payload-append key val rest false hk hv = ground (
  arith,
  length-append key (val ++ rest),
  length-append val rest,
  take-append key (val ++ rest),
  drop-append key (val ++ rest),
  take-append val rest,
  drop-append val rest,
)

deleted-flag : (deleted : Bool) → not (flag_byte deleted == 0) ≡ deleted
deleted-flag true = refl
deleted-flag false = refl

-- The parser takes back what `encode` wrote, and leaves what follows it.
pub parse-encode :
    (ent : Entry) (rest : Bytes)
    → IsStorable ent
    → parse (encode ent ++ rest) ≡ complete (stored_entry ent) rest
parse-encode ent rest s =
    ap (λ bs. parse (bs ++ rest)) (encode-framed ent (omega arith) (omega arith))
    ∙ parse-framed (length ent.key) (length ent.val) (flag_byte ent.deleted)
        ((ent.key ++ stored_val ent) ++ rest) (omega arith) (omega arith)
    ∙ ap₂ (λ d bs. parse_payload (length ent.key) (length ent.val) d bs) (deleted-flag ent.deleted)
        (append_assoc ent.key (stored_val ent) rest)
    ∙ parse_payload-append ent.key ent.val rest ent.deleted s.key_fits s.val_fits

module _ {os : Device} {path : Bytes} (laws : FileLaws os path) where
  open laws use {content}

  -- In the single-header store: on a stream in good state whose unread bytes are the encoding of a
  -- storable entry and more, `Decode`, into any entry, reads the entry (a tombstone without its
  -- value) and leaves the bytes that follow; or a read of the stream failed, and it reports a
  -- truncated header or payload. The file is unchanged. The promises of the system for the file
  -- are assumed.
  pub sql_decode-encode :
      (old ent : Entry) (rest : Bytes) (fs : Stream) (w : os.World)
      → IsReady fs
      → IsStorable ent
      → unread laws fs w ≡ encode ent ++ rest
      → Decoding laws (content w) (complete (stored_entry ent) rest) (decode os old fs w)
  sql_decode-encode old ent rest fs w ready s e =
      rw (← parse-encode ent rest s, ← e) (decode-Decoding laws old fs w ready)
