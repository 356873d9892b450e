-- ===== src/Kv/KeyValue/Crash.antt =====
-- What `KeyValue::open` makes of a log that a crash or a fault of the disk has damaged.
use database_45_steps.Prelude.{
  ℕ, ◌<◌, ◌≤◌, ◌≡◌, ◌≢◌, false, ◌&&◌, none, List, ◌∷◌, ◌++◌, length, All,
}
use database_45_steps.Core.Types.{Bytes}
use database_45_steps.Core.Reader.{list_reader}
use database_45_steps.Core.Platform.{Platform}
use database_45_steps.Core.Platform.Laws.{View, FileLaws, PathLaws}
use database_45_steps.Kv.Entry.{Entry}
use database_45_steps.Kv.EntryCodec.{encode, header_size}
use database_45_steps.Kv.EntryCodec.RoundTrip.{IsStorable}
use database_45_steps.Kv.Log.{file_header}
use database_45_steps.Kv.Log.Read.{torn-IsTail, corrupt-IsTail}
use database_45_steps.Kv.KeyValue.{KeyValue, empty_map, open_store}
use database_45_steps.Kv.KeyValue.Replay.{encode_all, replayed}
use database_45_steps.Kv.KeyValue.Open.{Loaded, open_store_outcome}

module _ {os : Platform} {view : View os} (laws : FileLaws view) where
  open view use {file, IsFaulty}

  -- If the file holds the header, the encodings of storable entries and a proper prefix of one
  -- more encoding, as after a crash during a write, then `open` on a closed handle, with more fuel
  -- than there are entries, reports an error or rebuilds exactly the map of the complete entries.
  -- The path is no directory, and the promises of the platform for it are assumed.
  pub open_store-torn :
      (fuel : ℕ) (kv : KeyValue) (w : os.World) (ents : List Entry) (ent : Entry)
      (front back : Bytes) (x : ℕ)
      → PathLaws view kv.log.filename
      → kv.log.fh.fd ≡ none
      → (os.exists kv.log.filename w && os.is_directory kv.log.filename w) ≡ false
      → All IsStorable ents
      → IsStorable ent
      → length ents < fuel
      → encode ent ≡ front ++ (x ∷ back)
      → (file w).content ≡ file_header ++ (encode_all ents ++ front)
      → Loaded laws (file w).content (replayed empty_map ents) (open_store os fuel kv w)
  open_store-torn fuel kv w ents ent front back x paths closed plain storable s h cut e =
      open_store_outcome laws fuel kv w ents front paths closed plain storable
        (torn-IsTail ent front back x s cut) h e

  -- If one byte of the payload of a storable entry in the file was changed to another byte, then
  -- `open` on a closed handle, with more fuel than there are entries before it, reports an error
  -- or rebuilds exactly the map of the entries before the damaged one: neither that entry nor
  -- anything behind it is applied. The path is no directory, and the promises of the platform for
  -- it are assumed.
  pub open_store-corrupt :
      (fuel : ℕ) (kv : KeyValue) (w : os.World) (ents : List Entry) (ent : Entry)
      (front back later : Bytes) (x y : ℕ)
      → PathLaws view kv.log.filename
      → kv.log.fh.fd ≡ none
      → (os.exists kv.log.filename w && os.is_directory kv.log.filename w) ≡ false
      → All IsStorable ents
      → IsStorable ent
      → length ents < fuel
      → encode ent ≡ front ++ (x ∷ back)
      → header_size ≤ length front
      → y < 256
      → x ≢ y
      → (file w).content ≡ file_header ++ (encode_all ents ++ ((front ++ (y ∷ back)) ++ later))
      → Loaded laws (file w).content (replayed empty_map ents) (open_store os fuel kv w)
  open_store-corrupt fuel kv w ents ent front back later x y paths closed plain storable s h cut
        long hy ne e =
      open_store_outcome laws fuel kv w ents ((front ++ (y ∷ back)) ++ later) paths closed plain
        storable (corrupt-IsTail ent front back later x y s cut long hy ne) h e
