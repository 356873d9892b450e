-- ===== src/Kv/EntryCodec/Corruption.antt =====
-- `decode` on an entry in whose key or value a byte was changed on disk.
use database_45_steps.Prelude.{
  ℕ, ◌≤◌, ◌<◌, ◌≡◌, ◌≢◌, refl, sym, ap, ◌∙◌, arith, [], ◌∷◌, ◌++◌, length, length-append,
  append-nil, append_assoc, append-split, AreBytes, All-append, All-append_left, All-append_right,
}
use database_45_steps.Core.Types.{Bytes}
use database_45_steps.Core.DbError.{fail, bad_checksum}
use database_45_steps.Core.BitUtils.{pack_le}
use database_45_steps.Core.BitUtils.RoundTrip.{pack_le-AreBytes}
use database_45_steps.Core.Crc.{crc32_ieee}
use database_45_steps.Core.Crc.Detection.{crc32_ieee_detects}
use database_45_steps.Core.Reader.{list_reader}
use database_45_steps.Kv.Entry.{Entry}
use database_45_steps.Kv.EntryCodec.{header_size, encode, decode}
use database_45_steps.Kv.EntryCodec.Layout.{stored_val, flag_byte, covered}
use database_45_steps.Kv.EntryCodec.Parts.{digest, judge-ne}
use database_45_steps.Kv.EntryCodec.RoundTrip.{
  IsStorable, payload, framed, encode-framed, decode-framed, covered-digest, covered-lt,
  payload-AreBytes, flag_byte-IsByte,
}

-- The first bytes of an encoded entry, before its payload.
pub head_bytes : (stored : ℕ) → Entry → Bytes
head_bytes stored ent = framed stored ent []

pub framed-head :
    (stored : ℕ) (ent : Entry) (rest : Bytes)
    → framed stored ent rest ≡ head_bytes stored ent ++ rest
unfolding head_bytes framed pack_le
framed-head stored ent rest = refl

pub length-head_bytes : (stored : ℕ) (ent : Entry) → length (head_bytes stored ent) ≡ header_size
unfolding head_bytes framed pack_le
length-head_bytes stored ent = refl

-- An encoded entry is its header and its payload.
pub encode-head :
    (ent : Entry)
    → IsStorable ent
    → encode ent ≡ head_bytes (crc32_ieee (covered ent)) ent ++ payload ent
encode-head ent s =
    sym (append-nil (encode ent))
    ∙ encode-framed ent [] s
    ∙ framed-head _ ent (payload ent ++ [])
    ∙ ap (λ p. head_bytes (crc32_ieee (covered ent)) ent ++ p) (append-nil (payload ent))

abbrev lengths : Entry → Bytes
lengths ent =
    pack_le 4 (length ent.key)
    ++ (pack_le 4 (length (stored_val ent)) ++ (flag_byte ent.deleted ∷ []))

lengths-AreBytes : (ent : Entry) → AreBytes (lengths ent)
lengths-AreBytes ent =
    All-append _ (pack_le 4 (length ent.key)) _ (pack_le-AreBytes 4 (length ent.key)) (
      All-append _ (pack_le 4 (length (stored_val ent))) _
        (pack_le-AreBytes 4 (length (stored_val ent))) (flag_byte-IsByte ent.deleted, tt))

abbrev digest_of : Entry → Bytes → ℕ
digest_of ent body = digest (length ent.key) (length (stored_val ent)) (flag_byte ent.deleted) body

digest-append :
    (ent : Entry) (front back : Bytes)
    → digest_of ent (front ++ back) ≡ crc32_ieee ((lengths ent ++ front) ++ back)
unfolding pack_le
digest-append ent front back = refl

-- A payload in which one byte differs has another digest.
digest_detects :
    (ent : Entry) (front back : Bytes) (x y : ℕ)
    → IsStorable ent
    → payload ent ≡ front ++ (x ∷ back)
    → y < 256
    → x ≢ y
    → digest_of ent (front ++ (y ∷ back)) ≢ crc32_ieee (covered ent)
digest_detects ent front back x y s h hy ne e =
    crc32_ieee_detects (lengths ent ++ front) back x y
      (All-append _ (lengths ent) front (lengths-AreBytes ent) (All-append_left _ front _ bytes))
      (All-append_right _ front (x ∷ back) bytes).1 (All-append_right _ front (x ∷ back) bytes).0 hy
      ne
      (sym (digest-append ent front (x ∷ back))
        ∙ ap (digest_of ent) (sym h)
        ∙ sym (covered-digest ent)
        ∙ sym e
        ∙ digest-append ent front (y ∷ back))
  where
    bytes : AreBytes (front ++ (x ∷ back))
    bytes = rw h at (payload-AreBytes ent s)

same_length :
    (front : Bytes) (x y : ℕ) (back : Bytes)
    → length (front ++ (y ∷ back)) ≡ length (front ++ (x ∷ back))
same_length front x y back =
    omega (arith, length-append front (y ∷ back), length-append front (x ∷ back))

-- If one byte of the payload of an encoded storable entry is replaced by another byte, `decode`
-- reports `bad_checksum`, and leaves exactly the bytes behind the entry.
pub decode_corrupt :
    (ent : Entry) (front back rest : Bytes) (x y : ℕ)
    → IsStorable ent
    → encode ent ≡ front ++ (x ∷ back)
    → header_size ≤ length front
    → y < 256
    → x ≢ y
    → decode {R = Bytes} ((front ++ (y ∷ back)) ++ rest) ≡ (fail bad_checksum, rest)
decode_corrupt ent front back rest x y s e h hy ne =
    let (middle, p, q) =
      append-split (head_bytes (crc32_ieee (covered ent)) ent) (payload ent) front (x ∷ back)
        (sym (encode-head ent s) ∙ e)
        (omega (arith, length-head_bytes (crc32_ieee (covered ent)) ent)) in
    ap (λ f. decode ((f ++ (y ∷ back)) ++ rest)) p
    ∙ ap decode (
        ap (λ buf. buf ++ rest) (append_assoc _ middle (y ∷ back))
        ∙ append_assoc _ (middle ++ (y ∷ back)) rest
        ∙ sym (framed-head _ ent ((middle ++ (y ∷ back)) ++ rest)))
    ∙ decode-framed (crc32_ieee (covered ent)) ent (middle ++ (y ∷ back)) rest (covered-lt ent s) s
        (same_length middle x y back ∙ sym (ap length q))
    ∙ ap (λ d. (d, rest))
        (judge-ne (crc32_ieee (covered ent)) (length ent.key) (length (stored_val ent))
          (flag_byte ent.deleted) _ (digest_detects ent middle back x y s q hy ne))
