-- ===== src/Kv/KeyValue/Reopening.antt =====
-- `KeyValue::open` on the file that a store has left.
use database_45_steps.Prelude.{
  ℕ, ◌<◌, ◌≡◌, refl, sym, ap, ◌∙◌, ◌⊎◌, inl, inr, true, false, ◌&&◌, Option, none, some, List, [],
  ◌++◌, length, All, append-nil,
}
use database_45_steps.Core.Types.{Bytes}
use database_45_steps.Core.DbError.{ErrorCode, is_error, success}
use database_45_steps.Core.Platform.{Platform}
use database_45_steps.Core.Platform.Laws.{View, FileLaws, PathLaws}
use database_45_steps.Kv.Entry.{Entry}
use database_45_steps.Kv.EntryCodec.RoundTrip.{IsStorable}
use database_45_steps.Kv.Log.{file_header}
use database_45_steps.Kv.Log.Read.{nil-IsTail}
use database_45_steps.Kv.KeyValue.{KeyValue, empty_map, new_store, open_store}
use database_45_steps.Kv.KeyValue.Replay.{encode_all, replayed}
use database_45_steps.Kv.KeyValue.Open.{Loaded, open_store_outcome}
use database_45_steps.Kv.KeyValue.Store.{IsConsistent}

module _ {os : Platform} {view : View os} (laws : FileLaws view) where
  open view use {file, IsFaulty}

  consistent :
      (content : Bytes) (ents : List Entry) (r : Option ErrorCode × KeyValue × os.World)
      → All IsStorable ents
      → content ≡ file_header ++ encode_all ents
      → Loaded laws content (replayed empty_map ents) r
      → (IsFaulty × ((e : ErrorCode) × (r.0 ≡ some e) × (is_error e ≡ true)))
        ⊎ ((r.0 ≡ some success) × IsConsistent laws r.1 r.2 ents)
  consistent content ents r s c (Loaded.refused fault e p h) = inl (fault, (e, p, h))
  consistent content ents r s c (Loaded.loaded p m good) =
      inr (p, record { on = good.0; logged = good.1 ∙ c; storable = s; held = m })

  -- If the file is the header and the encodings of storable entries, `open` on a closed handle,
  -- with more fuel than there are entries, reports an error or returns success with the store
  -- consistent with those entries. The path is no directory, and the promises of the platform for it are
  -- assumed.
  pub open_store-IsConsistent :
      (fuel : ℕ) (kv : KeyValue) (w : os.World) (ents : List Entry)
      → PathLaws view kv.log.filename
      → kv.log.fh.fd ≡ none
      → (os.exists kv.log.filename w && os.is_directory kv.log.filename w) ≡ false
      → All IsStorable ents
      → length ents < fuel
      → (file w).content ≡ file_header ++ encode_all ents
      → let r = open_store os fuel kv w in
        (IsFaulty × ((e : ErrorCode) × (r.0 ≡ some e) × (is_error e ≡ true)))
        ⊎ ((r.0 ≡ some success) × IsConsistent laws r.1 r.2 ents)
  open_store-IsConsistent fuel kv w ents paths closed plain s h c =
      consistent (file w).content ents (open_store os fuel kv w) s c (
        open_store_outcome laws fuel kv w ents [] paths closed plain s nil-IsTail h
          (c ∙ ap (λ bs. file_header ++ bs) (sym (append-nil (encode_all ents)))))

  -- Where a store is consistent with fewer entries than there is fuel, a new store on the same
  -- path, opened in a world where the file has the content that the first one left, either reports
  -- an error or has exactly the map of the first one, with its handle on the file. The path is no
  -- directory, and the promises of the platform for it are assumed.
  pub reopen :
      (fuel : ℕ) (kv : KeyValue) (w w' : os.World) (ents : List Entry)
      → IsConsistent laws kv w ents
      → PathLaws view kv.log.filename
      → (os.exists kv.log.filename w' && os.is_directory kv.log.filename w') ≡ false
      → length ents < fuel
      → (file w').content ≡ (file w).content
      → Loaded laws (file w').content kv.mem (open_store os fuel (new_store kv.log.filename) w')
  reopen fuel kv w w' ents good paths plain h c = rw good.held (
      open_store_outcome laws fuel (new_store kv.log.filename) w' ents [] paths refl plain
        good.storable nil-IsTail h
        (c ∙ good.logged ∙ ap (λ bs. file_header ++ bs) (sym (append-nil (encode_all ents)))))
