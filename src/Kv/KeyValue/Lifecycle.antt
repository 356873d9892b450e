-- ===== src/Kv/KeyValue/Lifecycle.antt =====
-- The life of a store over calls, restarts and crashes, on a platform on which calls may fail, but
-- not write a part of a buffer and report nothing.
use database_45_steps.Prelude.{
  ℕ, ◌<◌, ◌≤◌, ◌≡◌, inl, inr, refl, sym, ap, ◌∙◌, arith, Bool, true, false, ◌&&◌, Option, some,
  List, [], ◌∷◌, ◌++◌, if◌then◌else◌, length, length-append, All, AreBytes,
}
use database_45_steps.Core.Types.{Bytes}
use database_45_steps.Core.DbError.{ErrorCode, success, is_error, Result, ok}
use database_45_steps.Core.Platform.{Platform}
use database_45_steps.Core.Platform.Laws.{File, View, FileLaws, PathLaws, IsOn}
use database_45_steps.Kv.Entry.{Entry}
use database_45_steps.Kv.EntryCodec.{encode, max_key_size}
use database_45_steps.Kv.EntryCodec.Bounds.{length-encode}
use database_45_steps.Kv.EntryCodec.RoundTrip.{IsStorable}
use database_45_steps.Kv.Log.{file_header, close_log}
use database_45_steps.Kv.KeyValue.{
  KeyValue, WriteMode, is_write_due, found, new_store, set_ex, del, close_store, open_store,
}
use database_45_steps.Kv.KeyValue.Replay.{encode_all}
use database_45_steps.Kv.KeyValue.Store.{
  IsConsistent, Updated, set_entry, tombstone, set_ex_outcome, del_outcome,
}
use database_45_steps.Kv.KeyValue.Reopening.{open_store-IsConsistent}

-- A log has at least one byte for each entry.
length-encode_all :
    (ents : List Entry) → All IsStorable ents → length ents ≤ length (encode_all ents)
unfolding encode_all
length-encode_all [] s = omega arith
length-encode_all (ent ∷ ents) (s, storable) = omega (
  arith,
  length-append (encode ent) (encode_all ents),
  length-encode ent (omega (arith, s.key_fits)) (omega (arith, s.val_fits)),
  length-encode_all ents storable,
)

not_refused :
    (result : Option ErrorCode)
    → result ≡ some success
    → ¬ ((e : ErrorCode) × (result ≡ some e) × (is_error e ≡ true))
not_refused result h (e, p, is) = let same : e ≡ success = cc (p, h) in cc (is, same)

-- The log once a call has returned whether it changed anything.
abbrev pub logged : Bool → Entry → List Entry → List Entry
logged changed ent ents = if changed then ents ++ (ent ∷ []) else ents

-- The bytes on the disk once a call has returned whether it changed anything: what the file then has
-- there, if it did.
abbrev pub synced : Bool → File → Bytes → Bytes
synced changed f disk = if changed then f.durable else disk

module _ {os : Platform} {view : View os} (laws : FileLaws view) {path : Bytes}
    (paths : PathLaws view path) where
  open view use {file, IsFaulty, IsSilent}

  -- The path is no directory, and the fuel is enough for the file.
  pub record CanOpen (fuel : ℕ) (w : os.World) : Type 0 where
    pub plain : (os.exists path w && os.is_directory path w) ≡ false
    pub enough : length (file w).content < fuel

  abbrev pub reopened : ℕ → os.World → Option ErrorCode × KeyValue × os.World
  reopened fuel w = open_store os fuel (new_store path) w

  -- The stores that calls without errors, restarts and crashes lead to, with the bytes that the
  -- last sync put on the disk and the entries that were acknowledged. The first file is on the disk
  -- and is the log of some entries. What was synced stays on the disk while the file is only read,
  -- closed and opened; a crash leaves exactly that.
  pub data Reachable : Bytes → List Entry → KeyValue → os.World → Type 0 where
    opened :
        (fuel : ℕ) (w : os.World) (ents : List Entry)
        → CanOpen fuel w
        → All IsStorable ents
        → (file w).content ≡ file_header ++ encode_all ents
        → (reopened fuel w).0 ≡ some success
        → Reachable (file w).content ents (reopened fuel w).1 (reopened fuel w).2
    set_done :
        {disk : Bytes} {ents : List Entry} {kv : KeyValue} {w : os.World} (key val : Bytes)
        (mode : WriteMode) (changed : Bool)
        → Reachable disk ents kv w
        → IsStorable (set_entry key val)
        → (set_ex os kv key val mode w).0 ≡ ok changed
        → Reachable
            (synced changed (file (set_ex os kv key val mode w).2) disk)
            (logged changed (set_entry key val) ents)
            (set_ex os kv key val mode w).1
            (set_ex os kv key val mode w).2
    del_done :
        {disk : Bytes} {ents : List Entry} {kv : KeyValue} {w : os.World} (key : Bytes)
        (changed : Bool)
        → Reachable disk ents kv w
        → AreBytes key
        → length key ≤ max_key_size
        → (del os kv key w).0 ≡ ok changed
        → Reachable
            (synced changed (file (del os kv key w).2) disk)
            (logged changed (tombstone key) ents)
            (del os kv key w).1
            (del os kv key w).2
    restarted :
        {disk : Bytes} {ents : List Entry} {kv : KeyValue} {w : os.World} (fuel : ℕ)
        → Reachable disk ents kv w
        → CanOpen fuel (close_store os kv w).2
        → (reopened fuel (close_store os kv w).2).0 ≡ some success
        → Reachable disk ents
            (reopened fuel (close_store os kv w).2).1
            (reopened fuel (close_store os kv w).2).2
    crashed :
        {disk : Bytes} {ents : List Entry} {kv : KeyValue} {w : os.World} (fuel : ℕ) (w' : os.World)
        → Reachable disk ents kv w
        → (file w').content ≡ disk
        → CanOpen fuel w'
        → (reopened fuel w').0 ≡ some success
        → Reachable disk ents (reopened fuel w').1 (reopened fuel w').2

  -- The store is consistent with the acknowledged entries, and all of its file is on the disk.
  pub record IsSafe (disk : Bytes) (ents : List Entry) (kv : KeyValue) (w : os.World) : Type 0 where
    pub consistent : IsConsistent laws kv w ents
    pub on_disk : disk ≡ (file w).content

  -- A store that was opened with success holds the entries of the file.
  opened-IsSafe :
      (fuel : ℕ) (w : os.World) (ents : List Entry)
      → CanOpen fuel w
      → All IsStorable ents
      → (file w).content ≡ file_header ++ encode_all ents
      → (reopened fuel w).0 ≡ some success
      → IsSafe (file w).content ents (reopened fuel w).1 (reopened fuel w).2
  opened-IsSafe fuel w ents can s c h =
      let enough : length ents < fuel = omega (
        arith,
        can.enough,
        ap length c,
        length-append file_header (encode_all ents),
        length-encode_all ents s,
      ) in
      elim (open_store-IsConsistent laws fuel (new_store path) w ents paths refl can.plain s enough
        c) [
          | inl fault ↦ absurd (not_refused (reopened fuel w).0 h fault.1)
          | inr good ↦ record { consistent = good.1; on_disk = c ∙ sym good.1.logged }
        ]

  closed_kept :
      (kv : KeyValue) (w : os.World)
      → IsOn view kv.log.fh
      → (file (close_store os kv w).2).content ≡ (file w).content
  unfolding close_store close_log
  closed_kept kv w on = (laws.close_outcome kv.log.fh w on).1

  -- What was acknowledged is in the file, on the disk and in the map.
  acknowledged :
      (loud : IsFaulty → (w : os.World) → ¬ IsSilent w) (disk : Bytes) (kv : KeyValue)
      (w : os.World) (ents : List Entry) (ent : Entry) (due changed : Bool)
      (r : Result Bool × KeyValue × os.World)
      → IsSafe disk ents kv w
      → r.0 ≡ ok changed
      → Updated laws kv w ents ent due r
      → IsSafe (synced changed (file r.2) disk) (logged changed ent ents) r.1 r.2
  acknowledged loud disk kv w ents ent due changed r safe h (Updated.unchanged d e) =
      let idle : changed ≡ false = cc (h, ap (λ (r : Result Bool × KeyValue × os.World). r.0) e) in
      rw (idle, e) safe
  acknowledged loud disk kv w ents ent due changed r safe h (Updated.refused fault d e is p m) =
      absurd (cc (p, h))
  acknowledged loud disk kv w ents ent due changed r safe h (Updated.stored d p good durable) =
      let all : changed ≡ true = cc (h, p) in
      rw all (record { consistent = good; on_disk = durable })
  acknowledged loud disk kv w ents ent due changed r safe h
        (Updated.unnoticed fault silent z d p n k c) =
      absurd (loud fault silent z)

  -- On a platform that never leaves a write that it cut short unreported (its calls may fail
  -- otherwise), start from a successful `open` of a file that is on the disk and is exactly the
  -- header and the encodings of storable entries, and go on by calls of `set_ex` and `del` with
  -- storable arguments that return no error, by closing the store and opening a new one, and by
  -- crashes that leave the file with exactly the bytes that were on the disk when the last call
  -- that returned true came back (those of the first file, if there was none), each opening with
  -- success and with more fuel than the file has bytes. Then the store is consistent with the
  -- first entries and those of the calls that returned true, in this order, and no others: their
  -- log is the file, and they describe the map; and the bytes that such a crash leaves are all of
  -- the file. The path is no directory, and the promises of the platform for it are assumed.
  pub Reachable-IsSafe :
      (loud : IsFaulty → (w : os.World) → ¬ IsSilent w)
      → {disk : Bytes} {ents : List Entry} {kv : KeyValue} {w : os.World} → Reachable disk ents kv w
      → IsSafe disk ents kv w
  Reachable-IsSafe loud (Reachable.opened fuel w ents can s c h) =
      opened-IsSafe fuel w ents can s c h
  Reachable-IsSafe loud
        (Reachable.set_done {disk} {ents} {kv} {w} key val mode changed before s h) =
      let safe = Reachable-IsSafe loud before in
      acknowledged loud disk kv w ents (set_entry key val) (is_write_due mode (kv.mem key) val)
        changed (set_ex os kv key val mode w) safe h
        (set_ex_outcome laws kv key val mode w ents safe.consistent s)
  Reachable-IsSafe loud
        (Reachable.del_done {disk} {ents} {kv} {w} key changed before bytes fits h) =
      let safe = Reachable-IsSafe loud before in
      acknowledged loud disk kv w ents (tombstone key) (found (kv.mem key)) changed
        (del os kv key w) safe h (del_outcome laws kv key w ents safe.consistent bytes fits)
  Reachable-IsSafe loud (Reachable.restarted {disk} {ents} {kv} {w} fuel before can h) =
      let safe = Reachable-IsSafe loud before in
      let kept = closed_kept kv w safe.consistent.on in
      rw (safe.on_disk ∙ sym kept) (
        opened-IsSafe fuel (close_store os kv w).2 ents can safe.consistent.storable
          (kept ∙ safe.consistent.logged) h)
  Reachable-IsSafe loud (Reachable.crashed {disk} {ents} {kv} {w} fuel w' before left can h) =
      let safe = Reachable-IsSafe loud before in
      rw (← left) (
        opened-IsSafe fuel w' ents can safe.consistent.storable
          (left ∙ safe.on_disk ∙ safe.consistent.logged) h)
