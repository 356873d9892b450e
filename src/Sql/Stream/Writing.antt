-- ===== src/Sql/Stream/Writing.antt =====
-- What becomes of the bytes that are written to a stream.
use database_45_steps.Prelude.{
  ℕ, ◌||◌, not, ◌==◌, append-nil, ◌∷◌, ◌<◌, ◌≡◌, ◌⊎◌, inl, inr, refl, sym, ap, ◌∙◌, arith, Bool,
  true, false, Bool-cases, Option, none, some, [], ◌++◌, length, take, ltb,
}
use database_45_steps.Core.Types.{Bytes}
use database_45_steps.Sql.Stream.{Device, Stream, good, drain, appended, stream_write, flush}
use database_45_steps.Sql.Stream.Laws.{FileLaws, IsReady}

module _ {os : Device} {path : Bytes} (laws : FileLaws os path) where
  open laws use {content}

  -- All that a stream held back is in the file; or it is still held back, and a proper front of it is in
  -- the file too.
  data Drained (fs : Stream) (w : os.World) (r : Bool × Stream × os.World) : Type 0 where
    kept :
        r.0 ≡ false
        → r.1 ≡ fs
        → (n : ℕ) → n < length fs.pending
        → content r.2 ≡ content w ++ take n fs.pending
        → Drained fs w r
    done :
        r.0 ≡ true
        → (r.1.is_open ≡ fs.is_open) × (r.1.eof ≡ fs.eof) × (r.1.pending ≡ [])
        → content r.2 ≡ content w ++ fs.pending
        → Drained fs w r

  appended_outcome :
      (fs : Stream) (w w' : os.World) (result : Option ℕ)
      → ((result ≡ none)
          × ((n : ℕ) × (n < length fs.pending) × (content w' ≡ content w ++ take n fs.pending)))
        ⊎ ((result ≡ some (length (content w'))) × (content w' ≡ content w ++ fs.pending))
      → let (result', fs') = appended result fs in Drained fs w (result', fs', w')
  unfolding appended
  appended_outcome fs w w' none (inl (e, c)) = kept refl refl c.0 c.1 c.2
  appended_outcome fs w w' none (inr (e, c)) = absurd (cc e)
  appended_outcome fs w w' (some end) (inl (e, c)) = absurd (cc e)
  appended_outcome fs w w' (some end) (inr (e, c)) = done refl (refl, refl, refl) c

  drain_outcome : (fs : Stream) (w : os.World) → Drained fs w (drain os fs w)
  unfolding drain
  drain_outcome fs w = elim (Bool-cases (length fs.pending == 0)) [
    | inl e ↦ simp (e) (
        done refl (refl, refl, none_pending fs.pending e)
          (sym (ap (λ bs. content w ++ bs) (none_pending fs.pending e) ∙ append-nil (content w))))
    | inr e ↦ simp (e) (
        appended_outcome fs w (os.append fs.pending w).1 (os.append fs.pending w).0
          (laws.append_law fs.pending w (ground (arith, e))))
  ]
    where
      none_pending : (bs : Bytes) → (length bs == 0) ≡ true → bs ≡ []
      none_pending [] h = refl
      none_pending (b ∷ bs) h = absurd (ground (arith, h))

  -- A stream took all bytes and holds them back, or passed all on; or it has failed, and a proper front of
  -- them is in the file.
  pub data Taken (buf : Bytes) (fs : Stream) (w : os.World) (r : Stream × os.World) : Type 0 where
    held :
        (r.0.is_open ≡ true) × (r.0.eof ≡ false) × (r.0.failed ≡ false)
        → r.0.pending ≡ buf
        → r.1 ≡ w
        → Taken buf fs w r
    passed : IsReady r.0 → content r.1 ≡ content w ++ buf → Taken buf fs w r
    refused :
        r.0.failed ≡ true
        → (n : ℕ) → n < length buf
        → content r.1 ≡ content w ++ take n buf
        → Taken buf fs w r

  passed_on :
      (buf : Bytes) (fs : Stream) (w : os.World) (r : Bool × Stream × os.World)
      → IsReady fs
      → Drained (record fs { pending = fs.pending ++ buf }) w r
      → Taken buf fs w (record r.1 { failed = not r.0 }, r.2)
  passed_on buf fs w r ready (kept p q n short c) =
      refused (ap not p) n (omega (arith, short, ap (λ bs. length (bs ++ buf)) ready.flushed))
        (c ∙ ap (λ bs. content w ++ take n (bs ++ buf)) ready.flushed)
  passed_on buf fs w r ready (done p q c) =
      passed
        (record { on = q.0 ∙ ready.on; more = q.1 ∙ ready.more; sound = ap not p; flushed = q.2 })
        (c ∙ ap (λ bs. content w ++ (bs ++ buf)) ready.flushed)

  pub stream_write_outcome :
      (buf : Bytes) (fs : Stream) (w : os.World)
      → IsReady fs
      → Taken buf fs w (stream_write os buf fs w)
  unfolding stream_write
  stream_write_outcome buf fs w ready =
      let waiting : Stream = record fs { pending = fs.pending ++ buf } in
      let usable : (not (good fs) || not fs.is_open) ≡ false =
        rw (ready.more, ready.sound, ready.on) in
      elim (Bool-cases (ltb (length (fs.pending ++ buf)) os.capacity)) [
        | inl e ↦
            rw (usable, e)
              (held (ready.on, ready.more, ready.sound) (ap (λ bs. bs ++ buf) ready.flushed) refl)
        | inr e ↦
            rw (usable, e) (passed_on buf fs w (drain os waiting w) ready (drain_outcome waiting w))
      ]

  -- A flush put all that was held back into the file; or the stream has failed, and a proper front of that
  -- is in the file.
  pub data Flushed (fs : Stream) (w : os.World) (r : Stream × os.World) : Type 0 where
    emptied : IsReady r.0 → content r.1 ≡ content w ++ fs.pending → Flushed fs w r
    lost :
        r.0.failed ≡ true
        → (n : ℕ) → n < length fs.pending
        → content r.1 ≡ content w ++ take n fs.pending
        → Flushed fs w r

  Flushed-out :
      (fs : Stream) (w : os.World) (r : Bool × Stream × os.World)
      → fs.is_open ≡ true
      → fs.eof ≡ false
      → Drained fs w r
      → Flushed fs w (record r.1 { failed = not r.0 }, r.2)
  Flushed-out fs w r on more (kept p q n short c) = lost (ap not p) n short c
  Flushed-out fs w r on more (done p q c) =
      emptied (record { on = q.0 ∙ on; more = q.1 ∙ more; sound = ap not p; flushed = q.2 }) c

  pub flush_outcome :
      (fs : Stream) (w : os.World)
      → fs.is_open ≡ true
      → fs.eof ≡ false
      → fs.failed ≡ false
      → Flushed fs w (flush os fs w)
  unfolding flush
  flush_outcome fs w on more sound =
      simp (on, more, sound) (Flushed-out fs w (drain os fs w) on more (drain_outcome fs w))
