-- ===== src/Sql/Stream/Laws.antt =====
-- What the operating system promises of the one file, and what a stream on it then does.
use database_45_steps.Prelude.{
  ℕ, ◌+◌, ◌≤◌, ◌<◌, ◌∷◌, ◌≡◌, ◌⊎◌, inl, inr, refl, ap, ◌∙◌, arith, true, false, Bool-cases, Option,
  none, some, [], ◌++◌, length, take, drop, drop-drop, length-take, ltb,
}
use database_45_steps.Core.Types.{Bytes}
use database_45_steps.Sql.Stream.{Device, Stream, fetch, received, stream_read, peek, peeked}

-- The file under a path, before and after it is opened.
pub record FileLaws (os : Device) (path : Bytes) : Type 0 where
  pub content : os.World → Bytes
  pub open_law : (w : os.World) → content (os.open_file path w).1 ≡ content w
  pub load_law :
      (position size : ℕ) (w : os.World)
      → let (result, w') = os.load position size w in
        (content w' ≡ content w)
        × ((result ≡ none) ⊎ (result ≡ some (take size (drop position (content w)))))
  pub append_law :
      (buf : Bytes) (w : os.World)
      → 0 < length buf
      → let (result, w') = os.append buf w in
        ((result ≡ none) × ((n : ℕ) × (n < length buf) × (content w' ≡ content w ++ take n buf)))
        ⊎ ((result ≡ some (length (content w'))) × (content w' ≡ content w ++ buf))
  pub seek_law : (offset : ℕ) (w : os.World) → content (os.seek offset w).1 ≡ content w

-- An open stream with no error, that holds nothing back.
pub record IsReady (fs : Stream) : Type 0 where
  pub on : fs.is_open ≡ true
  pub more : fs.eof ≡ false
  pub sound : fs.failed ≡ false
  pub flushed : fs.pending ≡ []

module _ {os : Device} {path : Bytes} (laws : FileLaws os path) where
  open laws use {content}

  abbrev pub unread : Stream → os.World → Bytes
  unread fs w = drop fs.position (content w)

  -- A read stopped short and the stream has failed; or it gave all the bytes that it was to.
  pub data Received (size : ℕ) (fs : Stream) (w : os.World) (r : Bytes × Stream × os.World)
      : Type 0 where
    stopped : r.1.failed ≡ true → content r.2 ≡ content w → Received size fs w r
    full :
        size ≤ length (unread fs w)
        → r.0 ≡ take size (unread fs w)
        → IsReady r.1
        → content r.2 ≡ content w
        → unread r.1 r.2 ≡ drop size (unread fs w)
        → Received size fs w r

  advanced :
      (position size : ℕ) (bs : Bytes)
      → size ≤ length (drop position bs)
      → drop (position + length (take size (drop position bs))) bs ≡ drop size (drop position bs)
  advanced position size bs h =
      ap (λ n. drop (position + n) bs) (omega (arith, length-take size (drop position bs)))
      ∙ drop-drop position size bs

  received_outcome :
      (size : ℕ) (fs : Stream) (w w' : os.World) (result : Option Bytes)
      → IsReady fs
      → content w' ≡ content w
      → (result ≡ none) ⊎ (result ≡ some (take size (unread fs w)))
      → let (bs, fs') = received size result fs in Received size fs w (bs, fs', w')
  unfolding received
  received_outcome size fs w w' none ready kept got = stopped refl kept
  received_outcome size fs w w' (some bs) ready kept (inl absent) = absurd (cc absent)
  received_outcome size fs w w' (some bs) ready kept (inr e) =
      let all : bs ≡ take size (unread fs w) = cc e in
      elim (Bool-cases (ltb (length bs) size)) [
        | inl short ↦ rw short (stopped refl kept)
        | inr long ↦
            let enough : size ≤ length (unread fs w) =
              ground (arith, ap length all, length-take size (unread fs w), long) in
            rw long (
              full enough all
                (record {
                  on = ready.on;
                  more = ready.more;
                  sound = ready.sound;
                  flushed = ready.flushed;
                })
                kept
                (ap (λ bs'. drop (fs.position + length bs) bs') kept
                  ∙ ap (λ bs'. drop (fs.position + length bs') (content w)) all
                  ∙ advanced fs.position size (content w) enough))
      ]

  pub stream_read_outcome :
      (size : ℕ) (fs : Stream) (w : os.World)
      → IsReady fs
      → Received size fs w (stream_read os size fs w)
  unfolding stream_read fetch
  stream_read_outcome size fs w ready =
      let (kept, got) = laws.load_law fs.position size w in
      simp (ready.more, ready.sound, ready.on)
        (received_outcome size fs w (os.load fs.position size w).1 (os.load fs.position size w).0
          ready kept got)

  -- `peek` fails; or it has found out whether any byte is left.
  pub data Peeked (fs : Stream) (w : os.World) (r : Stream × os.World) : Type 0 where
    stopped : r.0.failed ≡ true → r.0.eof ≡ false → content r.1 ≡ content w → Peeked fs w r
    ended :
        unread fs w ≡ [] → r.0 ≡ record fs { eof = true } → content r.1 ≡ content w → Peeked fs w r
    waiting :
        0 < length (unread fs w)
        → IsReady r.0
        → unread r.0 r.1 ≡ unread fs w
        → content r.1 ≡ content w
        → Peeked fs w r

  peeked_outcome :
      (fs : Stream) (w w' : os.World) (result : Option Bytes)
      → IsReady fs
      → content w' ≡ content w
      → (result ≡ none) ⊎ (result ≡ some (take 1 (unread fs w)))
      → Peeked fs w (peeked result fs, w')
  unfolding peeked
  peeked_outcome fs w w' none ready kept got = stopped refl ready.more kept
  peeked_outcome fs w w' (some bs) ready kept (inl absent) = absurd (cc absent)
  peeked_outcome fs w w' (some []) ready kept (inr e) =
      ended (nothing (unread fs w) (cc e)) refl kept
    where
      nothing : (bs : Bytes) → [] ≡ take 1 bs → bs ≡ []
      nothing [] h = refl
      nothing (b ∷ bs) h = absurd (omega (arith, ap length h))
  peeked_outcome fs w w' (some (b ∷ bs)) ready kept (inr e) =
      let first : b ∷ bs ≡ take 1 (unread fs w) = cc e in
      waiting (omega (arith, ap length first, length-take 1 (unread fs w)))
        (record {
          on = ready.on;
          more = ground arith;
          sound = ready.sound;
          flushed = ready.flushed;
        })
        (ap (drop fs.position) kept) kept

  pub peek_outcome : (fs : Stream) (w : os.World) → IsReady fs → Peeked fs w (peek os fs w)
  unfolding peek fetch
  peek_outcome fs w ready =
      let (kept, got) = laws.load_law fs.position 1 w in
      simp (ready.more, ready.sound, ready.on)
        (peeked_outcome fs w (os.load fs.position 1 w).1 (os.load fs.position 1 w).0 ready kept got)
