-- ===== src/Kv/EntryCodec/Source.antt =====
-- `decode` on a source of bytes, and on the list of the bytes that are left in it.
use database_45_steps.Prelude.{
  ℕ, arith, ◌≡◌, refl, sym, ap, ◌∙◌, inl, inr, Bool, true, false, Bool-cases, if◌then◌else◌, ltb,
  ◌==◌, length, take, drop, not, [], get_or, slice, ◌+◌,
}
use mathlib.Core.Path.{subst₂}
use database_45_steps.Core.Types.{Bytes}
use database_45_steps.Core.DbError.{
  ErrorCode, IsSystemError, Result, ok, err, fail, key_too_large, value_too_large, truncated_header,
}
use database_45_steps.Core.Reader.{Reader, ReadOutcome, Supplies, list_reader}
use database_45_steps.Core.BitUtils.{unpack_le}
use database_45_steps.Kv.EntryCodec.{
  Decoded, decode, decode_header, decode_body, decode_payload, klen_offset, vlen_offset,
  flag_offset, header_size, verify, entry_eof, max_key_size, max_val_size,
}

module _ {R : Type 0} ⦃reader : Reader R⦄ (rest : R → Bytes) (IsGood : R → Type 0)
    (IsFaulty : Type 0) where
  -- The source failed, or both gave the same result and have the same bytes left.
  pub data Agrees (a : Result Decoded × R) (b : Result Decoded × Bytes) : Type 0 where
    failed : IsFaulty → (e : ErrorCode) → IsSystemError e → a.0 ≡ err e → Agrees a b
    agreed : a.0 ≡ b.0 → rest a.1 ≡ b.1 → IsGood a.1 → Agrees a b

  Agrees-if :
      (c : Bool) {a a' : Result Decoded × R} {b b' : Result Decoded × Bytes}
      → Agrees a b
      → Agrees a' b'
      → Agrees (if c then a else a') (if c then b else b')
  Agrees-if true h h' = h
  Agrees-if false h h' = h'

  -- A result that is no failure of the source.
  same : (result : Result Decoded) (r : R) → IsGood r → Agrees (result, r) (result, rest r)
  same result r good = agreed refl refl good

  -- Going on from a read with `k`, which passes a failure on.
  after_read :
      (r : R) (size : ℕ) (k : Result Bytes → Result Decoded)
      → ((e : ErrorCode) → k (err e) ≡ err e)
      → ReadOutcome rest IsGood IsFaulty r size (reader.read r size)
      → Agrees
          (k (reader.read r size).0, (reader.read r size).1)
          (k (ok (take size (rest r))), drop size (rest r))
  after_read r size k pass (inl (fault, (e, c, p))) = failed fault e c (ap k p ∙ pass e)
  after_read r size k pass (inr (p, q, good)) = agreed (ap k p) q good

  module _ (supplies : Supplies rest IsGood IsFaulty) where
    body-Agrees :
        (r : R) (header : Bytes)
        → IsGood r
        → Agrees (decode_body r header) (decode_body {R = Bytes} (rest r) header)
    unfolding decode_body decode_payload
    body-Agrees r header good =
        let klen : ℕ = unpack_le (slice klen_offset 4 header) in
        let vlen : ℕ = unpack_le (slice vlen_offset 4 header) in
        let size : ℕ = klen + (if not (get_or header flag_offset 0 == 0) then 0 else vlen) in
        elim (Bool-cases (ltb max_key_size klen)) [
          | inl long ↦ rw long (same (fail key_too_large) r good)
          | inr key_fits ↦ elim (Bool-cases (ltb max_val_size vlen)) [
            | inl long ↦ rw (key_fits, long) (same (fail value_too_large) r good)
            | inr val_fits ↦
                rw (key_fits, val_fits)
                  (Agrees-if (ltb 0 size)
                    (after_read r size (decode_payload header size) (λ e. refl)
                      (supplies.reads r size good (ground arith)))
                    (same (verify header []) r good))
          ]
        ]

    header-Agrees :
        (r : R) (header : Bytes)
        → IsGood r
        → Agrees (decode_header (ok header) r) (decode_header {R = Bytes} (ok header) (rest r))
    unfolding decode_header
    header-Agrees r header good = Agrees-if (length header == 0) (same (ok entry_eof) r good) (
        Agrees-if (ltb (length header) header_size) (same (fail truncated_header) r good)
          (body-Agrees r header good))

    decode_outcome :
        (r : R)
        → ReadOutcome rest IsGood IsFaulty r header_size (reader.read r header_size)
        → Agrees (decode r) (decode {R = Bytes} (rest r))
    unfolding decode
    decode_outcome r (inl (fault, (e, c, p))) =
        failed fault e c (ap (λ x. (decode_header x (reader.read r header_size).1).0) p)
    decode_outcome r (inr (p, q, good)) =
        subst₂
          (λ x bs.
            Agrees (decode_header x (reader.read r header_size).1)
              (decode_header {R = Bytes} (ok (take header_size (rest r))) bs))
          (sym p) q (header-Agrees (reader.read r header_size).1 (take header_size (rest r)) good)

    -- On any source that is known to supply the bytes that are left in it, and in a good state of
    -- it, `decode` fails with the source's own error, or gives the result and leaves the bytes
    -- that `decode` on the list of those bytes does, in a good state.
    pub decode-Agrees : (r : R) → IsGood r → Agrees (decode r) (decode {R = Bytes} (rest r))
    decode-Agrees r good = decode_outcome r (supplies.reads r header_size good (omega arith))
