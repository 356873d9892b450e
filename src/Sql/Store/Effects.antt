-- ===== src/Sql/Store/Effects.antt =====
-- What `KV::Set` and `KV::Del` do to the file and the map.
use database_45_steps.Prelude.{
  ℕ, ◌<◌, ◌≤◌, ◌≡◌, ◌≢◌, ◌↔◌, inl, inr, refl, sym, ap, ◌∙◌, arith, fun_ext, Bool, true, false,
  Bool-cases, Option, none, some, List, [], ◌∷◌, ◌++◌, if◌then◌else◌, length, take, All, All-append,
  AreBytes, append_assoc, append-nil, beq_bytes, beq_bytes_iff,
}
use database_45_steps.Core.Types.{Bytes}
use database_45_steps.Core.DbError.{ErrorCode, success, is_error}
use database_45_steps.Kv.Entry.{Entry}
use database_45_steps.Kv.EntryCodec.RoundTrip.{IsStorable}
use database_45_steps.Kv.KeyValue.{Map, empty_map, apply, assign, erase, found}
use database_45_steps.Kv.KeyValue.Replay.{replayed}
use database_45_steps.Kv.KeyValue.Store.{set_entry, tombstone, replayed-append}
use database_45_steps.Sql.Stream.{Device}
use database_45_steps.Sql.Stream.Laws.{FileLaws, IsReady}
use database_45_steps.Sql.Entry.{encode, max_key_size}
use database_45_steps.Sql.Log.{Log, write}
use database_45_steps.Sql.Log.Write.{WriteOutcome, sql_write_outcome}
use database_45_steps.Sql.Store.{Store, emplace, emplaced, set, del, new_store, open_store}
use database_45_steps.Sql.Store.Reopening.{Loaded, sql_open_outcome}
use database_45_steps.Sql.Store.Replay.{encode_all}

same_map : (mem : Map) (key val : Bytes) → mem key ≡ some val → mem ≡ assign mem key val
unfolding assign
same_map mem key val e = fun_ext (λ other. elim (Bool-cases (beq_bytes key other)) [
  | inl same ↦ rw same (ap mem (sym ((beq_bytes_iff key other).0 same)) ∙ e)
  | inr apart ↦ rw apart refl
])

emplaced-assign :
    (old : Option Bytes) (mem : Map) (key val : Bytes)
    → mem key ≡ old
    → ((emplaced old mem key val).1 ≡ assign mem key val)
      × (((emplaced old mem key val).0 ≡ true) ↔ (old ≢ some val))
unfolding emplaced
emplaced-assign none mem key val e = (refl, (λ h p. cc p, λ h. refl))
emplaced-assign (some old) mem key val e = elim (Bool-cases (beq_bytes old val)) [
  | inl same ↦
      let eq = (beq_bytes_iff old val).0 same in
      rw same (same_map mem key val (e ∙ ap some eq), (λ h p. cc h, λ h. absurd (h (ap some eq))))
  | inr apart ↦ rw apart (refl, (λ h p. cc (apart, (beq_bytes_iff old val).1 (cc p)), λ h. refl))
]

-- `Set` gives the key its value, and says whether it had another one before, or none.
pub emplace-assign :
    (mem : Map) (key val : Bytes)
    → ((emplace mem key val).1 ≡ assign mem key val)
      × (((emplace mem key val).0 ≡ true) ↔ (mem key ≢ some val))
unfolding emplace
emplace-assign mem key val = emplaced-assign (mem key) mem key val refl

encode_all-append :
    (ents : List Entry) (ent : Entry)
    → encode_all (ents ++ (ent ∷ [])) ≡ encode_all ents ++ encode ent
unfolding encode_all
encode_all-append [] ent = append-nil (encode ent)
encode_all-append (first ∷ ents) ent =
    ap (λ bs. encode first ++ bs) (encode_all-append ents ent)
    ∙ sym (append_assoc (encode first) (encode_all ents) (encode ent))

module _ {os : Device} {path : Bytes} (laws : FileLaws os path) where
  open laws use {content}

  -- The file is the log of the entries that the map came from, and the stream is in good state.
  pub record IsConsistent (kv : Store) (w : os.World) (ents : List Entry) : Type 0 where
    pub ready : IsReady kv.log.fs
    pub logged : content w ≡ encode_all ents
    pub storable : All IsStorable ents
    pub held : kv.mem ≡ replayed empty_map ents

  -- What a call that logs an entry does: it fails, and the map stays; or the entry is logged, and
  -- the store is consistent with it; or it succeeds although the stream has failed, with the map
  -- ahead of the file.
  pub data Updated (kv : Store) (w : os.World) (ents : List Entry) (ent : Entry) (changes : Type 0)
      (r : (Bool × ErrorCode) × Store × os.World) : Type 0 where
    refused :
        is_error r.0.1 ≡ true
        → r.0.0 ≡ false
        → r.1.mem ≡ kv.mem
        → r.1.log.fs.failed ≡ true
        → Updated kv w ents ent changes r
    stored :
        r.0.1 ≡ success
        → (r.0.0 ≡ true) ↔ changes
        → IsConsistent r.1 r.2 (ents ++ (ent ∷ []))
        → Updated kv w ents ent changes r
    unnoticed :
        r.0.1 ≡ success
        → (r.0.0 ≡ true) ↔ changes
        → r.1.mem ≡ apply kv.mem ent
        → r.1.log.fs.failed ≡ true
        → (n : ℕ) → n < length (encode ent)
        → content r.2 ≡ content w ++ take n (encode ent)
        → Updated kv w ents ent changes r

  committed :
      (kv : Store) (w : os.World) (ents : List Entry) (ent : Entry) (changes : Type 0)
      (updated : Bool) (mem : Map) (r : ErrorCode × Log × os.World)
      → IsConsistent kv w ents
      → IsStorable ent
      → mem ≡ apply kv.mem ent
      → (updated ≡ true) ↔ changes
      → WriteOutcome laws ent w r
      → Updated kv w ents ent changes (
          if is_error r.0
          then ((false, r.0), record kv { log = r.1 }, r.2)
          else ((updated, success), record { log = r.1; mem = mem }, r.2))
  committed kv w ents ent changes updated mem r good s m u (WriteOutcome.refused e f n short c) =
      rw e (refused e refl refl f)
  committed kv w ents ent changes updated mem r good s m u (WriteOutcome.stored e ready c) = rw e (
      stored refl u (record {
        ready = ready;
        logged = c ∙ ap (λ bs. bs ++ encode ent) good.logged ∙ sym (encode_all-append ents ent);
        storable = All-append IsStorable ents (ent ∷ []) good.storable (s, tt);
        held = m ∙ ap (λ old. apply old ent) good.held ∙ sym (replayed-append empty_map ents ent);
      }))
  committed kv w ents ent changes updated mem r good s m u (WriteOutcome.unnoticed e f n short c) =
      rw e (unnoticed refl u m f n short c)

  -- In the single-header store, where the file is the encodings of some entries, and the map is
  -- what those entries describe, `Set` with a storable key and value: reports an error and leaves
  -- the map, and the stream has failed; or appends the entry, even where nothing changes, returns
  -- true exactly if the key did not have the value, and leaves the store consistent with the
  -- longer list of entries; or returns the same, with the map updated, although the stream has
  -- failed and only a proper front of the entry was appended. The promises of the system for the
  -- file are assumed.
  pub sql_set_outcome :
      (kv : Store) (key val : Bytes) (w : os.World) (ents : List Entry)
      → IsConsistent kv w ents
      → IsStorable (set_entry key val)
      → Updated kv w ents (set_entry key val) (kv.mem key ≢ some val) (set os kv key val w)
  unfolding set apply
  sql_set_outcome kv key val w ents good s =
      let (m, u) = emplace-assign kv.mem key val in
      committed kv w ents (set_entry key val) (kv.mem key ≢ some val) (emplace kv.mem key val).0
        (emplace kv.mem key val).1 (write os kv.log (set_entry key val) w) good s m u
        (sql_write_outcome laws kv.log (set_entry key val) w good.ready)

  found_iff : (old : Option Bytes) → (found old ≡ true) ↔ (old ≢ none)
  found_iff none = (λ h p. cc h, λ h. absurd (h refl))
  found_iff (some old) = (λ h p. cc p, λ h. refl)

  -- In the single-header store, where the file is the encodings of some entries, and the map is
  -- what those entries describe, `Del` with a key of bytes within the size limit: reports an error
  -- and leaves the map, and the stream has failed; or appends a tombstone, even where the key is
  -- not there, returns true exactly if it was, and leaves the store consistent with the longer
  -- list of entries; or returns the same, with the key removed, although the stream has failed and
  -- only a proper front of the tombstone was appended. The promises of the system for the file are
  -- assumed.
  pub sql_del_outcome :
      (kv : Store) (key : Bytes) (w : os.World) (ents : List Entry)
      → IsConsistent kv w ents
      → AreBytes key
      → length key ≤ max_key_size
      → Updated kv w ents (tombstone key) (kv.mem key ≢ none) (del os kv key w)
  unfolding del apply
  sql_del_outcome kv key w ents good bytes fits =
      committed kv w ents (tombstone key) (kv.mem key ≢ none) (found (kv.mem key))
        (erase kv.mem key) (write os kv.log (tombstone key) w) good
        (record { key_bytes = bytes; val_bytes = tt; key_fits = fits; val_fits = omega arith }) refl
        (found_iff (kv.mem key)) (sql_write_outcome laws kv.log (tombstone key) w good.ready)

  -- Where a store is consistent with fewer entries than there is fuel, a new store on the same path,
  -- opened when the file has the content that the first one left, reports an error, or has exactly
  -- the map of the first one and the file as it was.
  pub sql_reopen :
      (fuel : ℕ) (kv : Store) (w w' : os.World) (ents : List Entry)
      → IsConsistent kv w ents
      → length ents < fuel
      → content w' ≡ content w
      → Loaded laws (content w') kv.mem (open_store os fuel (new_store path) w')
  sql_reopen fuel kv w w' ents good h c = rw good.held (
      sql_open_outcome laws fuel (new_store path) w' ents refl refl good.storable h
        (c ∙ good.logged))
