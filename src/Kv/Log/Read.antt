-- ===== src/Kv/Log/Read.antt =====
-- What `Log::read` makes of the bytes that are left in the file.
use database_45_steps.Prelude.{ℕ, ◌≡◌, ap, ◌∙◌, arith, [], ◌∷◌, ◌++◌, ◌≤◌, ◌<◌, ◌≢◌, length}
use database_45_steps.Core.Types.{Bytes}
use database_45_steps.Core.DbError.{
  ErrorCode, IsSystemError, Result, ok, err, is_db_error, make_error_code,
}
use database_45_steps.Core.Reader.{list_reader}
use database_45_steps.Core.Platform.{Platform, FileHandle, handle_reader}
use database_45_steps.Core.Platform.Laws.{View, FileLaws, unread, IsReading, unread_of}
use database_45_steps.Kv.Entry.{Entry}
use database_45_steps.Kv.EntryCodec.{Decoded, decode, encode, header_size}
use database_45_steps.Kv.EntryCodec.RoundTrip.{IsStorable, stored_entry, decode-encode}
use database_45_steps.Kv.EntryCodec.Torn.{decode-nil, torn, decode-torn}
use database_45_steps.Kv.EntryCodec.Corruption.{decode_corrupt}
use database_45_steps.Kv.EntryCodec.Source.{Agrees, decode-Agrees}
use database_45_steps.Kv.Log.{Log, LogItem, log_entry, log_eof, read, read_result}

-- What the next read makes of a list of bytes, with the bytes behind it.
unfoldable pub next_item : Bytes → Result LogItem × Bytes
next_item bs = let (result, rest) = decode {R = Bytes} bs in (read_result result, rest)

-- The bytes read as the end of the log.
abbrev pub IsTail : Bytes → Type 0
IsTail bs = (next_item bs).0 ≡ ok log_eof

-- A failure of the operating system is no damage of the tail.
read_result-generic : (e : ErrorCode) → IsSystemError e → read_result (err e) ≡ err e
unfolding read_result is_db_error
read_result-generic e h = ground (arith, h.0)

module _ {os : Platform} {view : View os} (laws : FileLaws view) where
  open view use {file, IsFaulty}

  pub data Outcome (content : Bytes) (w : os.World) (r : Result LogItem × Log × os.World)
      : Type 0 where
    failed : IsFaulty → (e : ErrorCode) → IsSystemError e → r.0 ≡ err e → Outcome content w r
    item :
        r.0 ≡ (next_item (unread (file w))).0
        → unread (file r.2) ≡ (next_item (unread (file w))).1
        → IsReading view content (r.1.fh, r.2)
        → Outcome content w r

  agreed_outcome :
      (content : Bytes) (log : Log) (w : os.World) (d : Result Decoded × (FileHandle × os.World))
      → Agrees ⦃reader = handle_reader os⦄
          (unread_of view)
          (IsReading view content)
          IsFaulty
          d
          (decode {R = Bytes} (unread (file w)))
      → Outcome content w (read_result d.0, record log { fh = d.1.0 }, d.1.1)
  unfolding next_item
  agreed_outcome content log w d (Agrees.failed fault e c p) =
      failed fault e c (ap read_result p ∙ read_result-generic e c)
  agreed_outcome content log w d (Agrees.agreed p q good) = item (ap read_result p) q good

  -- A read fails with an error of the operating system, or gives the next item of what is left.
  pub read_outcome :
      (content : Bytes) (log : Log) (w : os.World)
      → IsReading view content (log.fh, w)
      → Outcome content w (read os log w)
  unfolding read
  read_outcome content log w good =
      agreed_outcome content log w (decode ⦃reader = handle_reader os⦄ (log.fh, w)) (
        decode-Agrees ⦃reader = handle_reader os⦄ (unread_of view) (IsReading view content) IsFaulty
          (laws.handle_supplies content) (log.fh, w) good)

-- The next item in front of an encoded entry.
pub next_item-encode :
    (ent : Entry) (rest : Bytes)
    → IsStorable ent
    → next_item (encode ent ++ rest) ≡ (ok (log_entry (stored_entry ent)), rest)
unfolding next_item read_result
next_item-encode ent rest s =
    ap (λ (d : Result Decoded × Bytes). (read_result d.0, d.1)) (decode-encode ent rest s)

read_result-torn : (front : Bytes) → read_result (torn front) ≡ ok log_eof
unfolding read_result is_db_error make_error_code
read_result-torn front = ground arith

-- The end of the file, and any proper prefix of an encoded entry, read as the end of the log.
pub torn-IsTail :
    (ent : Entry) (front back : Bytes) (x : ℕ)
    → IsStorable ent
    → encode ent ≡ front ++ (x ∷ back)
    → IsTail front
unfolding next_item read_result
torn-IsTail ent front back x s e =
    ap (λ (d : Result Decoded × Bytes). read_result d.0) (decode-torn ent front back x s e)
    ∙ read_result-torn front

-- So does an entry with one changed byte in its payload, whatever follows it.
pub corrupt-IsTail :
    (ent : Entry) (front back rest : Bytes) (x y : ℕ)
    → IsStorable ent
    → encode ent ≡ front ++ (x ∷ back)
    → header_size ≤ length front
    → y < 256
    → x ≢ y
    → IsTail ((front ++ (y ∷ back)) ++ rest)
unfolding next_item read_result is_db_error make_error_code
corrupt-IsTail ent front back rest x y s e h hy ne =
    ap (λ (d : Result Decoded × Bytes). read_result d.0)
      (decode_corrupt ent front back rest x y s e h hy ne)

pub nil-IsTail : IsTail []
unfolding next_item read_result
nil-IsTail = ap (λ (d : Result Decoded × Bytes). read_result d.0) decode-nil
