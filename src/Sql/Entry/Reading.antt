-- ===== src/Sql/Entry/Reading.antt =====
-- `decode` on a stream, against a parser of lists of bytes.
use database_45_steps.Prelude.{
  ℕ, ◌≤◌, ◌≡◌, ◌⊎◌, inl, inr, refl, ap, ◌∙◌, arith, Bool, true, false, not, Bool-cases, [], ◌++◌,
  ltb, ◌==◌, if◌then◌else◌, length, take, drop, get_or, length-take, length-append,
  length-replicate, replicate, copy_to, copy_to_all,
}
use database_45_steps.Core.Types.{Bytes}
use database_45_steps.Core.DbError.{ErrorCode, success}
use database_45_steps.Kv.Entry.{Entry}
use database_45_steps.Sql.Errors.{
  DbError, make_error_code, truncated_header, truncated_payload, key_too_large, value_too_large,
}
use database_45_steps.Sql.Stream.{Device, Stream, stream_read}
use database_45_steps.Sql.Stream.Laws.{FileLaws, IsReady, unread, Received, stream_read_outcome}
use database_45_steps.Sql.Entry.{
  header_size, klen_offset, vlen_offset, flag_offset, max_key_size, max_val_size, unpack_u32,
  resize, decode, decode_header, decode_key, decode_val,
}

-- An entry and the bytes behind it, or the reason why there is none.
pub data Parsed : Type 0 where
  complete : Entry → Bytes → Parsed
  bad : DbError → Parsed

abbrev pub parse_val : ℕ → Bytes → Bool → Bytes → Parsed
parse_val vlen key true rest = complete (record { key = key; val = []; deleted = true }) rest
parse_val vlen key false rest =
    if ltb (length rest) vlen
    then bad truncated_payload
    else complete (record { key = key; val = take vlen rest; deleted = false }) (drop vlen rest)

abbrev pub parse_payload : ℕ → ℕ → Bool → Bytes → Parsed
parse_payload klen vlen deleted rest =
    if ltb max_key_size klen
    then bad key_too_large
    else if ltb max_val_size vlen
    then bad value_too_large
    else if ltb (length rest) klen
    then bad truncated_payload
    else parse_val vlen (take klen rest) deleted (drop klen rest)

unfoldable pub parse : Bytes → Parsed
parse bs =
    let header = take header_size bs in
    if ltb (length bs) header_size
    then bad truncated_header
    else parse_payload (unpack_u32 (drop klen_offset header)) (unpack_u32 (drop vlen_offset header))
        (not (get_or header flag_offset 0 == 0)) (drop header_size bs)

copied : (n : ℕ) (old bs : Bytes) → length bs ≡ n → copy_to (resize n old) 0 bs ≡ bs
copied n old bs h = copy_to_all (resize n old) bs (
    omega (
      arith,
      h,
      length-take n (old ++ replicate n 0),
      length-append old (replicate n 0),
      length-replicate {A = ℕ} n 0,
    ))

taken : (n : ℕ) (bs : Bytes) → n ≤ length bs → length (take n bs) ≡ n
taken n bs h = omega (arith, length-take n bs)

module _ {os : Device} {path : Bytes} (laws : FileLaws os path) where
  open laws use {content}

  -- A read was cut short and the stream has failed; or the bytes hold no entry, and the error says
  -- why; or the entry is the one that they hold, and the stream stands behind it.
  pub data Decoding (before : Bytes) (p : Parsed) (r : ErrorCode × Entry × Stream × os.World)
      : Type 0 where
    cut :
        (e : DbError)
        → (e ≡ truncated_header) ⊎ (e ≡ truncated_payload)
        → r.0 ≡ make_error_code e
        → r.2.failed ≡ true
        → content r.3 ≡ before
        → Decoding before p r
    rejected :
        (e : DbError)
        → (e ≡ key_too_large) ⊎ (e ≡ value_too_large)
        → p ≡ bad e
        → r.0 ≡ make_error_code e
        → content r.3 ≡ before
        → Decoding before p r
    accepted :
        (ent : Entry) (rest : Bytes)
        → p ≡ complete ent rest
        → r.0 ≡ success
        → r.1 ≡ ent
        → IsReady r.2
        → unread laws r.2 r.3 ≡ rest
        → content r.3 ≡ before
        → Decoding before p r

  val_read :
      (before : Bytes) (vlen : ℕ) (key val : Bytes) (fs : Stream) (w : os.World)
      (r : Bytes × Stream × os.World)
      → content w ≡ before
      → Received laws vlen fs w r
      → Decoding before (parse_val vlen key false (unread laws fs w)) (
        if r.1.failed then make_error_code truncated_payload else success,
        record { key = key; val = copy_to (resize vlen val) 0 r.0; deleted = false },
        r.1,
        r.2,
      )
  val_read before vlen key val fs w r kept (Received.stopped f c) =
      cut truncated_payload (inr refl) (rw f refl) f (c ∙ kept)
  val_read before vlen key val fs w r kept (Received.full h bs ready c left) =
      let got : copy_to (resize vlen val) 0 r.0 ≡ r.0 =
        copied vlen val r.0 (ap length bs ∙ taken vlen (unread laws fs w) h) in
      accepted (record { key = key; val = take vlen (unread laws fs w); deleted = false })
        (drop vlen (unread laws fs w)) (ground arith) (rw (ready.sound) refl)
        (ap (λ (v : Bytes). record { key = key; val = v; deleted = false }) (got ∙ bs)) ready left
        (c ∙ kept)

  decode_val-Decoding :
      (before : Bytes) (vlen : ℕ) (key val : Bytes) (deleted : Bool) (fs : Stream) (w : os.World)
      → IsReady fs
      → content w ≡ before
      → Decoding before
          (parse_val vlen key deleted (unread laws fs w))
          (decode_val os vlen (record { key = key; val = val; deleted = deleted }) fs w)
  unfolding decode_val
  decode_val-Decoding before vlen key val true fs w ready kept =
      accepted (record { key = key; val = []; deleted = true }) (unread laws fs w) refl refl refl
        ready refl kept
  decode_val-Decoding before vlen key val false fs w ready kept =
      val_read before vlen key val fs w (stream_read os vlen fs w) kept
        (stream_read_outcome laws vlen fs w ready)

  key_read :
      (before : Bytes) (klen vlen : ℕ) (key val : Bytes) (deleted : Bool) (fs : Stream)
      (w : os.World) (r : Bytes × Stream × os.World)
      → content w ≡ before
      → Received laws klen fs w r
      → let filled : Entry = record {
        key = copy_to (resize klen key) 0 r.0;
        val = val;
        deleted = deleted;
      } in
        Decoding before
          (if ltb (length (unread laws fs w)) klen
            then bad truncated_payload
            else parse_val vlen
                (take klen (unread laws fs w))
                deleted
                (drop klen (unread laws fs w)))
          (if r.1.failed
            then (make_error_code truncated_payload, filled, r.1, r.2)
            else decode_val os vlen filled r.1 r.2)
  key_read before klen vlen key val deleted fs w r kept (Received.stopped f c) =
      rw f (cut truncated_payload (inr refl) refl refl (c ∙ kept))
  key_read before klen vlen key val deleted fs w r kept (Received.full h bs ready c left) =
      let got : copy_to (resize klen key) 0 r.0 ≡ take klen (unread laws fs w) =
        copied klen key r.0 (ap length bs ∙ taken klen (unread laws fs w) h) ∙ bs in
      let enough : ltb (length (unread laws fs w)) klen ≡ false = ground arith in
      rw (got, enough, ← left)
        (simp (ready.sound) (
          decode_val-Decoding before vlen (take klen (unread laws fs w)) val deleted r.1 r.2 ready
            (c ∙ kept)))

  payload_read :
      (before : Bytes) (klen vlen : ℕ) (flagged : Entry) (fs : Stream) (w : os.World)
      → IsReady fs
      → content w ≡ before
      → Decoding before (parse_payload klen vlen flagged.deleted (unread laws fs w)) (
          if ltb max_key_size klen
          then (make_error_code key_too_large, flagged, fs, w)
          else if ltb max_val_size vlen
          then (make_error_code value_too_large, flagged, fs, w)
          else decode_key os klen vlen flagged fs w)
  payload_read before klen vlen flagged fs w ready kept =
      elim (Bool-cases (ltb max_key_size klen)) [
        | inl e ↦ rw e (rejected key_too_large (inl refl) refl refl kept)
        | inr e ↦ elim (Bool-cases (ltb max_val_size vlen)) [
          | inl e' ↦ rw (e, e') (rejected value_too_large (inr refl) refl refl kept)
          | inr e' ↦
              rw (e, e')
                (unfold decode_key in
                  key_read before klen vlen flagged.key flagged.val flagged.deleted fs w
                    (stream_read os klen fs w) kept (stream_read_outcome laws klen fs w ready))
        ]
      ]

  header_read :
      (before : Bytes) (ent : Entry) (fs : Stream) (w : os.World) (r : Bytes × Stream × os.World)
      → content w ≡ before
      → Received laws header_size fs w r
      → Decoding before (parse (unread laws fs w)) (
          if r.1.failed
          then (make_error_code truncated_header, ent, r.1, r.2)
          else decode_header os r.0 ent r.1 r.2)
  unfolding parse
  header_read before ent fs w r kept (Received.stopped f c) =
      rw f (cut truncated_header (inl refl) refl refl (c ∙ kept))
  header_read before ent fs w r kept (Received.full h bs ready c left) =
      let enough : ltb (length (unread laws fs w)) header_size ≡ false = ground arith in
      rw (enough, ← bs, ← left)
        (simp (ready.sound) (
          unfold decode_header in
          payload_read before (unpack_u32 (drop klen_offset r.0))
            (unpack_u32 (drop vlen_offset r.0))
            (record ent { deleted = not (get_or r.0 flag_offset 0 == 0) }) r.1 r.2 ready
            (c ∙ kept)))

  pub decode-Decoding :
      (ent : Entry) (fs : Stream) (w : os.World)
      → IsReady fs
      → Decoding (content w) (parse (unread laws fs w)) (decode os ent fs w)
  unfolding decode
  decode-Decoding ent fs w ready =
      header_read (content w) ent fs w (stream_read os header_size fs w) refl
        (stream_read_outcome laws header_size fs w ready)
