-- ===== src/Sql/Store/Reopening.antt =====
-- What `KV::Open` rebuilds from a file.
use database_45_steps.Prelude.{
  ℕ, zero, suc, ◌<◌, ◌≡◌, inl, inr, refl, sym, ap, ◌∙◌, arith, true, false, ◌&&◌, Bool-cases, some,
  List, [], ◌++◌, if◌then◌else◌, length, All, append-nil,
}
use database_45_steps.Core.Types.{Bytes}
use database_45_steps.Core.DbError.{ErrorCode, success, is_error}
use database_45_steps.Kv.Entry.{Entry}
use database_45_steps.Kv.EntryCodec.RoundTrip.{IsStorable}
use database_45_steps.Kv.KeyValue.{Map, empty_map}
use database_45_steps.Kv.KeyValue.Replay.{replayed}
use database_45_steps.Sql.Errors.{DbError, make_error_code, truncated_header}
use database_45_steps.Sql.Stream.{Device, Stream, new_stream, stream_open, seekg}
use database_45_steps.Sql.Stream.Laws.{FileLaws, IsReady, unread}
use database_45_steps.Sql.Entry.{encode, new_entry}
use database_45_steps.Sql.Entry.Reading.{bad, parse}
use database_45_steps.Sql.Entry.Torn.{parse-torn, parse_consumes}
use database_45_steps.Sql.Log.{Log, read, open_log, open_error}
use database_45_steps.Sql.Log.Read.{ReadOutcome, sql_read_outcome, read_failed, refusal-is_error}
use database_45_steps.Sql.Store.{Store, replay, open_store}
use database_45_steps.Sql.Store.Replay.{
  encode_all, replay-stopped, replay-ended, Opening, HasFailed, IsBefore, replay_through,
}

module _ {os : Device} {path : Bytes} (laws : FileLaws os path) where
  open laws use {content}

  -- An error is reported; or the store holds the given map, its stream is in good state, and the
  -- file is as it was.
  pub data Loaded (before : Bytes) (mem : Map) (r : Opening os) : Type 0 where
    refused : HasFailed r.0 → Loaded before mem r
    loaded :
        r.0 ≡ some success
        → r.1.mem ≡ mem
        → IsReady r.1.log.fs
        → content r.2 ≡ before
        → Loaded before mem r

  end_round :
      (before : Bytes) (mem : Map) (fuel : ℕ) (ent : Entry) (kv : Store) (w : os.World)
      → IsBefore laws before [] mem kv w
      → ReadOutcome laws (content w) (unread laws kv.log.fs w) (read os kv.log ent w)
      → Loaded before mem (replay os (suc fuel) ent kv w)
  end_round before mem fuel ent kv w b (ReadOutcome.ended e p ready c) =
      rw (replay-ended os fuel ent kv w p) (loaded refl b.held ready (c ∙ b.file))
  end_round before mem fuel ent kv w b (ReadOutcome.stopped e why is p c) =
      refused (make_error_code e, replay-stopped os fuel ent kv w (make_error_code e) p is, is)
  end_round before mem fuel ent kv w b (ReadOutcome.found ent' rest parsed p q ready u c) =
      absurd (omega (arith, parse_consumes _ ent' rest parsed, ap length b.ahead))

  torn_round :
      (before tail : Bytes) (mem : Map) (code : DbError) (fuel : ℕ) (ent : Entry) (kv : Store)
      (w : os.World)
      → parse tail ≡ bad code
      → 0 < length tail
      → IsBefore laws before tail mem kv w
      → ReadOutcome laws (content w) (unread laws kv.log.fs w) (read os kv.log ent w)
      → HasFailed (replay os (suc fuel) ent kv w).0
  torn_round before tail mem code fuel ent kv w t h b (ReadOutcome.ended e p ready c) =
      absurd (omega (arith, ap length (sym b.ahead ∙ e)))
  torn_round before tail mem code fuel ent kv w t h b (ReadOutcome.stopped e why is p c) =
      (make_error_code e, replay-stopped os fuel ent kv w (make_error_code e) p is, is)
  torn_round before tail mem code fuel ent kv w t h b
        (ReadOutcome.found ent' rest parsed p q ready u c) =
      absurd (cc (parsed, ap parse b.ahead, t))

  -- `KV::Open` from a log that was opened without an error.
  abbrev seek_and_replay : ℕ → Store → ErrorCode × Log × os.World → Opening os
  seek_and_replay fuel kv (e, log, w) =
      let (fs, w') = seekg os 0 log.fs w in
      if is_error e
      then (some e, record kv { log = log }, w)
      else replay os fuel new_entry (record { log = record log { fs = fs }; mem = empty_map }) w'

  -- The stream of a log that was just opened.
  abbrev fresh : Stream
  fresh = record new_stream { is_open = true }

  open_error-is_error : (errno : ℕ) → is_error (open_error errno) ≡ true
  unfolding open_error
  open_error-is_error errno = ground arith

  sought :
      (P : Opening os → Type 0)
      → ((r : Opening os) → HasFailed r.0 → P r)
      → (fuel : ℕ) (before : Bytes) (filename : Bytes) (w : os.World) → content w ≡ before
      → ((kv' : Store) (w' : os.World)
          → IsBefore laws before before empty_map kv' w'
          → P (replay os (suc fuel) new_entry kv' w'))
      → P (
          let (fs, w') = seekg os 0 fresh w in
          replay os
            (suc fuel)
            new_entry
            (record { log = record { filename = filename; fs = fs }; mem = empty_map })
            w')
  unfolding seekg
  sought P failed fuel before filename w kept next = elim (Bool-cases (os.seek 0 w).0) [
    | inl e ↦ rw e (
        next (record { log = record { filename = filename; fs = fresh }; mem = empty_map })
          (os.seek 0 w).1
          (record {
            ready = record { on = refl; more = refl; sound = refl; flushed = refl };
            file = laws.seek_law 0 w ∙ kept;
            ahead = laws.seek_law 0 w ∙ kept;
            held = refl;
          }))
    | inr e ↦ rw e (
        let kv' : Store = record {
          log = record { filename = filename; fs = record fresh { failed = true } };
          mem = empty_map;
        } in
        failed _ (
          make_error_code truncated_header,
          replay-stopped os fuel new_entry kv' (os.seek 0 w).1 (make_error_code truncated_header)
              (read_failed laws kv'.log new_entry (os.seek 0 w).1 refl refl)
              (refusal-is_error truncated_header (inl (inl refl))),
          refusal-is_error truncated_header (inl (inl refl)),
        ))
  ]

  -- `KV::Open` on a closed store fails, or runs its loop from the start of the file.
  pub opened :
      (P : Opening os → Type 0)
      → ((r : Opening os) → HasFailed r.0 → P r)
      → (fuel : ℕ) (kv : Store) (w : os.World) → kv.log.filename ≡ path
      → kv.log.fs.is_open ≡ false
      → ((kv' : Store) (w' : os.World)
          → IsBefore laws (content w) (content w) empty_map kv' w'
          → P (replay os (suc fuel) new_entry kv' w'))
      → P (open_store os (suc fuel) kv w)
  unfolding open_store open_log stream_open
  opened P failed fuel kv w same closed next =
      elim (Bool-cases (os.exists kv.log.filename w && os.is_directory kv.log.filename w)) [
        | inl dir ↦ rw (closed, dir) (failed _ (_, refl, refl))
        | inr plain ↦ elim (Bool-cases (os.open_file kv.log.filename w).0) [
          | inl e ↦
              rw (closed, plain, e)
                (sought P failed fuel (content w) kv.log.filename (os.open_file kv.log.filename w).1
                  (ap (λ name. content (os.open_file name w).1) same ∙ laws.open_law w) next)
          | inr e ↦
              rw (closed, plain, e, open_error-is_error)
                (failed _
                  (_, refl, open_error-is_error (os.errno (os.open_file kv.log.filename w).1)))
        ]
      ]

  -- In the single-header store: if the file is the encodings of storable entries, `Open` on a
  -- closed store, with more fuel than there are entries, reports an error, or leaves the file as
  -- it was and rebuilds exactly the map that the entries describe. The promises of the system for
  -- the file are assumed.
  pub sql_open_outcome :
      (fuel : ℕ) (kv : Store) (w : os.World) (ents : List Entry)
      → kv.log.filename ≡ path
      → kv.log.fs.is_open ≡ false
      → All IsStorable ents
      → length ents < fuel
      → content w ≡ encode_all ents
      → Loaded (content w) (replayed empty_map ents) (open_store os fuel kv w)
  sql_open_outcome zero kv w ents same closed s h c = absurd (omega arith)
  sql_open_outcome (suc fuel) kv w ents same closed s h c =
      opened (Loaded (content w) (replayed empty_map ents)) (λ r f. refused f) fuel kv w same closed
        (λ kv' w' b.
          replay_through laws (Loaded (content w) (replayed empty_map ents)) (λ r f. refused f)
            (content w) [] ents empty_map (suc fuel) new_entry kv' w'
            (λ fuel' ent' kv″ w″ b'.
              end_round (content w) (replayed empty_map ents) fuel' ent' kv″ w″ b'
                (sql_read_outcome laws kv″.log ent' w″ b'.ready))
            s h
            (record {
              ready = b.ready;
              file = b.file;
              ahead = b.ahead ∙ c ∙ sym (append-nil (encode_all ents));
              held = b.held;
            }))

  -- In the single-header store: if the file is the encodings of storable entries and then a proper
  -- front, which is not empty, of one more encoding, `Open` on a closed store, with more fuel than
  -- there are entries, always reports an error. The promises of the system for the file are
  -- assumed.
  pub sql_open-torn :
      (fuel : ℕ) (kv : Store) (w : os.World) (ents : List Entry) (last : Entry) (front back : Bytes)
      → kv.log.filename ≡ path
      → kv.log.fs.is_open ≡ false
      → All IsStorable ents
      → IsStorable last
      → front ++ back ≡ encode last
      → 0 < length front
      → 0 < length back
      → length ents < fuel
      → content w ≡ encode_all ents ++ front
      → HasFailed (open_store os fuel kv w).0
  sql_open-torn zero kv w ents last front back same closed s sl e hf hb h c = absurd (omega arith)
  sql_open-torn (suc fuel) kv w ents last front back same closed s sl e hf hb h c =
      let (code, cut, t) = parse-torn last front back sl e hb in
      opened (λ r. HasFailed r.0) (λ r f. f) fuel kv w same closed
        (λ kv' w' b.
          replay_through laws (λ r. HasFailed r.0) (λ r f. f) (content w) front ents empty_map
            (suc fuel) new_entry kv' w'
            (λ fuel' ent' kv″ w″ b'.
              torn_round (content w) front (replayed empty_map ents) code fuel' ent' kv″ w″ t hf b'
                (sql_read_outcome laws kv″.log ent' w″ b'.ready))
            s h (record { ready = b.ready; file = b.file; ahead = b.ahead ∙ c; held = b.held }))
