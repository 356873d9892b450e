-- ===== src/Kv/KeyValue/Store.antt =====
-- The invariant of an open store: the file is the log of the entries that the map came from.
use database_45_steps.Prelude.{
  ℕ, ◌<◌, ◌≤◌, ◌≡◌, refl, sym, ap, ◌∙◌, arith, inl, inr, Bool, true, false, Bool-cases, List, [],
  ◌∷◌, ◌++◌, length, take, All, All-append, AreBytes, append_assoc, append-nil,
}
use database_45_steps.Core.Types.{Bytes, to_bytes}
use database_45_steps.Core.DbError.{ErrorCode, is_error, Result, ok, err}
use database_45_steps.Core.Platform.{Platform}
use database_45_steps.Core.Platform.Laws.{View, FileLaws, IsOn}
use database_45_steps.Kv.Entry.{Entry}
use database_45_steps.Kv.EntryCodec.{encode, max_key_size}
use database_45_steps.Kv.EntryCodec.RoundTrip.{IsStorable}
use database_45_steps.Kv.EntryCodec.Bounds.{length-encode-le}
use database_45_steps.Kv.Log
use database_45_steps.Kv.Log.{Log, file_header}
use database_45_steps.Kv.Log.Write.{Outcome, log_write_outcome}
use database_45_steps.Kv.KeyValue.{
  KeyValue, Map, WriteMode, empty_map, apply, commit, is_write_due, found, set_ex, del,
}
use database_45_steps.Kv.KeyValue.Replay.{encode_all, replayed}

-- The entries that the two operations log.
abbrev pub set_entry : Bytes → Bytes → Entry
set_entry key val = record { key = key; val = val; deleted = false }

abbrev pub tombstone : Bytes → Entry
tombstone key = record { key = key; val = []; deleted = true }

pub encode_all-append :
    (ents : List Entry) (ent : Entry)
    → encode_all (ents ++ (ent ∷ [])) ≡ encode_all ents ++ encode ent
unfolding encode_all
encode_all-append [] ent = append-nil (encode ent)
encode_all-append (first ∷ ents) ent =
    ap (λ bs. encode first ++ bs) (encode_all-append ents ent)
    ∙ sym (append_assoc (encode first) (encode_all ents) (encode ent))

pub replayed-append :
    (mem : Map) (ents : List Entry) (ent : Entry)
    → replayed mem (ents ++ (ent ∷ [])) ≡ apply (replayed mem ents) ent
unfolding replayed
replayed-append mem [] ent = refl
replayed-append mem (first ∷ ents) ent = replayed-append (apply mem first) ents ent

module _ {os : Platform} {view : View os} (laws : FileLaws view) where
  open view use {file, IsFaulty, IsSilent}

  pub record IsConsistent (kv : KeyValue) (w : os.World) (ents : List Entry) : Type 0 where
    pub on : IsOn view kv.log.fh
    pub logged : (file w).content ≡ file_header ++ encode_all ents
    pub storable : All IsStorable ents
    pub held : kv.mem ≡ replayed empty_map ents

  -- What a call does to the store: nothing; it fails, and the map stays; the entry is logged and on
  -- the disk, and the store is consistent with it; or it wrote a front of the entry only, and nothing
  -- was reported.
  pub data Updated (kv : KeyValue) (w : os.World) (ents : List Entry) (ent : Entry) (due : Bool)
      (r : Result Bool × KeyValue × os.World) : Type 0 where
    unchanged : due ≡ false → r ≡ (ok false, kv, w) → Updated kv w ents ent due r
    refused :
        IsFaulty
        → due ≡ true
        → (e : ErrorCode) → is_error e ≡ true
        → r.0 ≡ err e
        → r.1.mem ≡ kv.mem
        → Updated kv w ents ent due r
    stored :
        due ≡ true
        → r.0 ≡ ok true
        → IsConsistent r.1 r.2 (ents ++ (ent ∷ []))
        → (file r.2).durable ≡ (file r.2).content
        → Updated kv w ents ent due r
    unnoticed :
        IsFaulty
        → (silent : os.World) → IsSilent silent
        → due ≡ true
        → r.0 ≡ ok true
        → (n : ℕ) → n < length (encode ent)
        → (file r.2).content ≡ (file w).content ++ take n (encode ent)
        → Updated kv w ents ent due r

  -- The file and the map grow by the same entry.
  grown :
      (kv : KeyValue) (w : os.World) (ents : List Entry) (ent : Entry) (log : Log) (w' : os.World)
      → IsConsistent kv w ents
      → IsStorable ent
      → IsOn view log.fh
      → (file w').content ≡ (file w).content ++ encode ent
      → IsConsistent (record kv { log = log; mem = apply kv.mem ent }) w' (ents ++ (ent ∷ []))
  grown kv w ents ent log w' good s on c = record {
    on = on;
    logged =
        c
        ∙ ap (λ bs. bs ++ encode ent) good.logged
        ∙ append_assoc file_header (encode_all ents) (encode ent)
        ∙ ap (λ bs. file_header ++ bs) (sym (encode_all-append ents ent));
    storable = All-append IsStorable ents (ent ∷ []) good.storable (s, tt);
    held = ap (λ mem. apply mem ent) good.held ∙ sym (replayed-append empty_map ents ent);
  }

  commit_outcome :
      (kv : KeyValue) (w : os.World) (ents : List Entry) (ent : Entry) (due : Bool)
      (p : ErrorCode × Log × os.World)
      → due ≡ true
      → IsConsistent kv w ents
      → IsStorable ent
      → Outcome laws ent (file w) p
      → Updated kv w ents ent due (commit os p kv (apply kv.mem ent))
  unfolding commit
  commit_outcome kv w ents ent due p d good s (Outcome.refused fault h) =
      rw h (refused fault d p.0 h refl refl)
  commit_outcome kv w ents ent due p d good s (Outcome.stored h on c durable) =
      rw (ap is_error h) (stored d refl (grown kv w ents ent p.1 p.2 good s on c) (durable ∙ sym c))
  commit_outcome kv w ents ent due p d good s (Outcome.unnoticed fault silent z h n k c) =
      rw (ap is_error h) (unnoticed fault silent z d refl n k c)

  -- On a store whose file is the header and the encodings of some entries, and whose map is what
  -- those entries describe, `set_ex` with a storable key and value, whatever the mode: does
  -- nothing if no write is due; or meets a fault of the platform, returns an error and leaves the
  -- map; or returns true with the entry appended to the file, the content of the file on the disk,
  -- and the store consistent with the longer list of entries; or meets a fault and returns true
  -- although only a proper front of the entry was appended. The promises of the platform for the
  -- file are assumed.
  pub set_ex_outcome :
      (kv : KeyValue) (key val : Bytes) (mode : WriteMode) (w : os.World) (ents : List Entry)
      → IsConsistent kv w ents
      → IsStorable (set_entry key val)
      → Updated kv w ents
          (set_entry key val)
          (is_write_due mode (kv.mem key) val)
          (set_ex os kv key val mode w)
  unfolding set_ex to_bytes apply
  set_ex_outcome kv key val mode w ents good s =
      elim (Bool-cases (is_write_due mode (kv.mem key) val)) [
        | inl e ↦
            let ent : Entry = set_entry key val in
            rw e (
              commit_outcome kv w ents ent true (Log.write os kv.log ent w) refl good s (
                log_write_outcome laws kv.log ent w good.on
                  (omega (arith, length-encode-le ent s))))
        | inr e ↦ rw e (unchanged refl refl)
      ]

  -- On a store whose file is the header and the encodings of some entries, and whose map is what
  -- those entries describe, `del` with a key of bytes within the size limit: does nothing if the
  -- key is not there; or meets a fault of the platform, returns an error and leaves the map; or
  -- returns true with a tombstone appended to the file, the content of the file on the disk, and
  -- the store consistent with the longer list of entries; or meets a fault and returns true
  -- although only a proper front of the tombstone was appended. The promises of the platform for
  -- the file are assumed.
  pub del_outcome :
      (kv : KeyValue) (key : Bytes) (w : os.World) (ents : List Entry)
      → IsConsistent kv w ents
      → AreBytes key
      → length key ≤ max_key_size
      → Updated kv w ents (tombstone key) (found (kv.mem key)) (del os kv key w)
  unfolding del to_bytes apply
  del_outcome kv key w ents good bytes fits =
      let s : IsStorable (tombstone key) = record {
        key_bytes = bytes;
        val_bytes = tt;
        key_fits = fits;
        val_fits = omega arith;
      } in
      elim (Bool-cases (found (kv.mem key))) [
        | inl e ↦
            let ent : Entry = tombstone key in
            rw e (
              commit_outcome kv w ents ent true (Log.write os kv.log ent w) refl good s (
                log_write_outcome laws kv.log ent w good.on
                  (omega (arith, length-encode-le ent s))))
        | inr e ↦ rw e (unchanged refl refl)
      ]
