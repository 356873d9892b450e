-- ===== src/Kv/KeyValue/Open.antt =====
-- What `KeyValue::open` finds in a log file.
use database_45_steps.Prelude.{
  ℕ, ◌<◌, ◌≤◌, ◌≡◌, ◌≢◌, length-take, drop_all, refl, sym, ap, ◌∙◌, arith, inl, inr, true, false,
  ◌&&◌, Option, none, some, List, [], ◌++◌, if◌then◌else◌, length, take, drop, All, length-append,
  take-append_eq, drop-append_eq,
}
use database_45_steps.Core.Types.{Bytes}
use database_45_steps.Core.DbError.{ErrorCode, is_error, success}
use database_45_steps.Core.BitUtils.{pack_le}
use database_45_steps.Core.Reader.{list_reader}
use database_45_steps.Core.Platform.{Platform, FileHandle, seek_set}
use database_45_steps.Core.Platform.Laws.{
  File, View, FileLaws, PathLaws, IsOn, IsReading, SeekOutcome,
}
use database_45_steps.Kv.Entry.{Entry}
use database_45_steps.Kv.EntryCodec.RoundTrip.{IsStorable}
use database_45_steps.Kv.Log.{
  Log, file_header, file_header_size, validate_header, open_log, seek_to_first_entry,
}
use database_45_steps.Kv.Log.Read.{IsTail, nil-IsTail}
use database_45_steps.Kv.Log.Open.{Opened, not_open, open_log_outcome}
use database_45_steps.Kv.Log.Header.{validate_header-file_header}
use database_45_steps.Kv.KeyValue.{KeyValue, Map, empty_map, replay_log, open_store}
use database_45_steps.Kv.KeyValue.Replay.{encode_all, replayed, Replayed, replay_outcome}

length-file_header : length file_header ≡ file_header_size
unfolding file_header pack_le
length-file_header = refl

module _ {os : Platform} {view : View os} (laws : FileLaws view) where
  open view use {file, IsFaulty}

  -- An error is reported; or the store holds the given map, and its handle is on the file.
  pub data Loaded (content : Bytes) (mem : Map) (r : Option ErrorCode × KeyValue × os.World)
      : Type 0 where
    refused : IsFaulty → (e : ErrorCode) → r.0 ≡ some e → is_error e ≡ true → Loaded content mem r
    loaded :
        r.0 ≡ some success
        → r.1.mem ≡ mem
        → IsReading view content (r.1.log.fh, r.2)
        → Loaded content mem r

  Replayed-Loaded :
      (content : Bytes) (mem : Map) (r : Option ErrorCode × KeyValue × os.World)
      → Replayed laws content mem r
      → Loaded content mem r
  Replayed-Loaded content mem r (Replayed.failed fault e sys p) = refused fault e p sys.1
  Replayed-Loaded content mem r (Replayed.finished p m good) = loaded p m good

  abbrev seek_and_replay :
      ℕ → KeyValue → ErrorCode × Log × os.World → Option ErrorCode × KeyValue × os.World
  seek_and_replay fuel kv (sought, log, w) =
      if is_error sought
      then (some sought, record kv { log = log; mem = empty_map }, w)
      else replay_log os fuel (record kv { log = log; mem = empty_map }) w

  -- `open` once the file is open: the seek behind the header, and the loop.
  replay-Loaded :
      (fuel : ℕ) (kv : KeyValue) (log : Log) (w : os.World) (ents : List Entry) (tail : Bytes)
      (s : ErrorCode × FileHandle × os.World)
      → All IsStorable ents
      → IsTail tail
      → length ents < fuel
      → drop file_header_size (file w).content ≡ encode_all ents ++ tail
      → SeekOutcome view file_header_size (file w) s
      → Loaded
          (file w).content
          (replayed empty_map ents)
          (seek_and_replay fuel kv (s.0, record log { fh = s.1 }, s.2))
  replay-Loaded fuel kv log w ents tail s storable t h rest (SeekOutcome.refused fault e) =
      rw e (refused fault s.0 refl e)
  replay-Loaded fuel kv log w ents tail s storable t h rest (SeekOutcome.moved e on kept at) =
      rw e (
        Replayed-Loaded (file w).content (replayed empty_map ents) _ (
          replay_outcome laws ents fuel (file w).content tail empty_map
            (record kv { log = record log { fh = s.1 }; mem = empty_map }) s.2 refl storable t h
            (on, kept) (rw (at, kept) rest)))

  -- The rest of `open` on a log that was opened without an error.
  opened-Loaded :
      (fuel : ℕ) (kv : KeyValue) (log : Log) (w : os.World) (ents : List Entry)
      (tail content : Bytes)
      → All IsStorable ents
      → IsTail tail
      → length ents < fuel
      → IsOn view log.fh
      → (file w).content ≡ content
      → drop file_header_size content ≡ encode_all ents ++ tail
      → Loaded content
          (replayed empty_map ents)
          (seek_and_replay fuel kv (seek_to_first_entry os log w))
  unfolding seek_to_first_entry
  opened-Loaded fuel kv log w ents tail content storable t h on e rest = rw e at (
      replay-Loaded fuel kv log w ents tail (os.platform_seek log.fh file_header_size seek_set w)
        storable t h (ap (λ bs. drop file_header_size bs) e ∙ rest)
        (laws.seek_set_outcome log.fh file_header_size w on))

  abbrev open_rest :
      ℕ → KeyValue → ErrorCode × Log × os.World → Option ErrorCode × KeyValue × os.World
  open_rest fuel kv (opened, log, w) =
      if is_error opened
      then (some opened, record kv { log = log }, w)
      else seek_and_replay fuel kv (seek_to_first_entry os log w)

  open_store-rest :
      (fuel : ℕ) (kv : KeyValue) (w : os.World)
      → kv.log.fh.fd ≡ none
      → open_store os fuel kv w ≡ open_rest fuel kv (open_log os kv.log w)
  unfolding open_store
  open_store-rest fuel kv w closed = rw (open_store, not_open laws kv.log.fh closed) refl

  header_accepted :
      (rest : Bytes) → validate_header (take file_header_size (file_header ++ rest)) ≡ success
  header_accepted rest =
      ap validate_header (take-append_eq file_header_size file_header rest length-file_header)
      ∙ validate_header-file_header

  -- A log that begins with its header is not empty.
  no_header : (rest : Bytes) → file_header ++ rest ≢ []
  no_header rest e = omega (arith, ap length e, length-append file_header rest, length-file_header)

  rest-Loaded :
      (fuel : ℕ) (kv : KeyValue) (before : File) (ents : List Entry) (tail : Bytes)
      (o : ErrorCode × Log × os.World)
      → All IsStorable ents
      → IsTail tail
      → length ents < fuel
      → before.content ≡ file_header ++ (encode_all ents ++ tail)
      → Opened laws before o
      → Loaded before.content (replayed empty_map ents) (open_rest fuel kv o)
  rest-Loaded fuel kv before ents tail o storable t h e (Opened.refused fault x) =
      rw x (refused fault o.0 refl x)
  rest-Loaded fuel kv before ents tail o storable t h e (Opened.checked nonempty p on kept) =
      rw
        (p
          ∙ ap (λ bs. validate_header (take file_header_size bs)) e
          ∙ header_accepted (encode_all ents ++ tail))
        (opened-Loaded fuel kv o.1 o.2 ents tail before.content storable t h on kept (
          ap (λ bs. drop file_header_size bs) e
          ∙ drop-append_eq file_header_size file_header (encode_all ents ++ tail)
              length-file_header))
  rest-Loaded fuel kv before ents tail o storable t h e (Opened.fresh empty x on written) =
      absurd (no_header (encode_all ents ++ tail) (sym e ∙ empty))

  -- If the file is the header, the encodings of storable entries and a tail that reads as the end
  -- of the log, then `open` on a closed handle, with more fuel than there are entries, meets a
  -- fault of the platform and reports an error, or leaves the file as it was and rebuilds exactly
  -- the map that the entries describe, starting from the empty map. The path is no directory, and
  -- the promises of the platform for it are assumed.
  pub open_store_outcome :
      (fuel : ℕ) (kv : KeyValue) (w : os.World) (ents : List Entry) (tail : Bytes)
      → PathLaws view kv.log.filename
      → kv.log.fh.fd ≡ none
      → (os.exists kv.log.filename w && os.is_directory kv.log.filename w) ≡ false
      → All IsStorable ents
      → IsTail tail
      → length ents < fuel
      → (file w).content ≡ file_header ++ (encode_all ents ++ tail)
      → Loaded (file w).content (replayed empty_map ents) (open_store os fuel kv w)
  open_store_outcome fuel kv w ents tail paths closed plain storable t h e =
      rw (open_store-rest fuel kv w closed) (
        rest-Loaded fuel kv (file w) ents tail (open_log os kv.log w) storable t h e
          (open_log_outcome laws kv.log w paths closed plain))

  drop_short : (bs : Bytes) → length bs ≤ file_header_size → drop file_header_size bs ≡ []
  drop_short bs h = drop_all file_header_size bs h

  -- A file that `open` has just created holds at most a header, so there is nothing to replay.
  short-Loaded :
      (fuel : ℕ) (kv : KeyValue) (log : Log) (w : os.World)
      → 0 < fuel
      → IsOn view log.fh
      → length (file w).content ≤ file_header_size
      → Loaded (file w).content empty_map (seek_and_replay fuel kv (seek_to_first_entry os log w))
  unfolding replayed encode_all
  short-Loaded fuel kv log w h on short =
      opened-Loaded fuel kv log w [] [] (file w).content tt nil-IsTail h on refl
        (drop_short (file w).content short)

  fresh-Loaded :
      (fuel : ℕ) (kv : KeyValue) (before : File) (o : ErrorCode × Log × os.World)
      → 0 < fuel
      → before.content ≡ []
      → Opened laws before o
      → (content : Bytes) × Loaded content empty_map (open_rest fuel kv o)
  fresh-Loaded fuel kv before o h empty (Opened.refused fault x) =
      ([], rw x (refused fault o.0 refl x))
  fresh-Loaded fuel kv before o h empty (Opened.checked nonempty p on kept) =
      absurd (omega (arith, nonempty, ap length empty))
  fresh-Loaded fuel kv before o h empty (Opened.fresh e x on (inl whole)) = (
    (file o.2).content,
    rw x (short-Loaded fuel kv o.1 o.2 h on (omega (arith, ap length whole, length-file_header))),
  )
  fresh-Loaded fuel kv before o h empty (Opened.fresh e x on (inr (fault, (n, k, z, front)))) = (
    (file o.2).content,
    rw x (
        short-Loaded fuel kv o.1 o.2 h on
          (omega (arith, ap length front, length-take n file_header, length-file_header))),
  )

  -- On a closed handle whose file is empty or not there, and with fuel for one round, `open`
  -- reports an error or ends with an empty map and its handle on the file. The path is no
  -- directory, and the promises of the platform for it are assumed.
  pub open_store-fresh :
      (fuel : ℕ) (kv : KeyValue) (w : os.World)
      → PathLaws view kv.log.filename
      → kv.log.fh.fd ≡ none
      → (os.exists kv.log.filename w && os.is_directory kv.log.filename w) ≡ false
      → 0 < fuel
      → (file w).content ≡ []
      → (content : Bytes) × Loaded content empty_map (open_store os fuel kv w)
  open_store-fresh fuel kv w paths closed plain h empty = rw (open_store-rest fuel kv w closed) (
      fresh-Loaded fuel kv (file w) (open_log os kv.log w) h empty
        (open_log_outcome laws kv.log w paths closed plain))
