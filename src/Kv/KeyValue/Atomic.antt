-- ===== src/Kv/KeyValue/Atomic.antt =====
-- A crash while `Log::write` appends an entry.
use database_45_steps.Prelude.{
  ℕ, ◌+◌, ◌<◌, ◌≡◌, ◌⊎◌, inl, inr, refl, sym, ap, ◌∙◌, arith, false, ◌&&◌, List, [], ◌∷◌, ◌++◌,
  length, length-append, All-append, append-nil, append_assoc,
}
use database_45_steps.Core.Types.{Bytes}
use database_45_steps.Core.Platform.{Platform}
use database_45_steps.Core.Platform.Laws.{View, FileLaws, PathLaws}
use database_45_steps.Kv.Entry.{Entry}
use database_45_steps.Kv.EntryCodec.{encode}
use database_45_steps.Kv.EntryCodec.RoundTrip.{IsStorable}
use database_45_steps.Kv.Log.{file_header}
use database_45_steps.Kv.Log.Read.{nil-IsTail}
use database_45_steps.Kv.KeyValue.{KeyValue, empty_map, apply, new_store, open_store}
use database_45_steps.Kv.KeyValue.Crash.{open_store-torn}
use database_45_steps.Kv.KeyValue.Open.{Loaded, open_store_outcome}
use database_45_steps.Kv.KeyValue.Replay.{encode_all}
use database_45_steps.Kv.KeyValue.Store.{IsConsistent, encode_all-append, replayed-append}

module _ {os : Platform} {view : View os} (laws : FileLaws view) where
  open view use {file}

  cut_log :
      (kv : KeyValue) (w w' : os.World) (ents : List Entry) (front : Bytes)
      → IsConsistent laws kv w ents
      → (file w).durable ≡ (file w).content
      → (file w').content ≡ (file w).durable ++ front
      → (file w').content ≡ file_header ++ (encode_all ents ++ front)
  cut_log kv w w' ents front good all c =
      c
      ∙ ap (λ bs. bs ++ front) (all ∙ good.logged)
      ∙ append_assoc file_header (encode_all ents) front

  -- If a store is consistent with some entries and all of its file is on the disk, and a crash
  -- leaves the file with any front of the encoding of one more storable entry behind that, none
  -- and all of it included, then a new store on the same path, opened with more fuel than there
  -- are entries, the new one included, reports an error at a fault of the platform, or has the map
  -- of the old store, or has that map with the entry applied. The path is no directory, and the
  -- promises of the platform for it are assumed.
  pub open_store-atomic :
      (fuel : ℕ) (kv : KeyValue) (w w' : os.World) (ents : List Entry) (ent : Entry)
      (front back : Bytes)
      → IsConsistent laws kv w ents
      → (file w).durable ≡ (file w).content
      → IsStorable ent
      → front ++ back ≡ encode ent
      → (file w').content ≡ (file w).durable ++ front
      → PathLaws view kv.log.filename
      → (os.exists kv.log.filename w' && os.is_directory kv.log.filename w') ≡ false
      → length ents + 1 < fuel
      → let r = open_store os fuel (new_store kv.log.filename) w' in
        Loaded laws (file w').content kv.mem r ⊎ Loaded laws (file w').content (apply kv.mem ent) r
  open_store-atomic fuel kv w w' ents ent front [] good all s split c paths plain enough =
      let there : (file w').content ≡ file_header ++ (encode_all (ents ++ (ent ∷ [])) ++ []) =
        cut_log kv w w' ents front good all c
        ∙ ap (λ bs. file_header ++ (encode_all ents ++ bs)) (sym (append-nil front) ∙ split)
        ∙ ap (λ bs. file_header ++ bs)
            (sym (encode_all-append ents ent)
              ∙ sym (append-nil (encode_all (ents ++ (ent ∷ []))))) in
      inr (
        rw (good.held, ← replayed-append empty_map ents ent)
          (open_store_outcome laws fuel (new_store kv.log.filename) w' (ents ++ (ent ∷ [])) [] paths
            refl plain (All-append IsStorable ents (ent ∷ []) good.storable (s, tt)) nil-IsTail
            (omega (arith, length-append ents (ent ∷ []))) there))
  open_store-atomic fuel kv w w' ents ent front (x ∷ back) good all s split c paths plain enough =
      let there : (file w').content ≡ file_header ++ (encode_all ents ++ front) =
        cut_log kv w w' ents front good all c in
      inl (
        rw good.held (
          open_store-torn laws fuel (new_store kv.log.filename) w' ents ent front back x paths refl
            plain good.storable s (omega arith) (sym split) there))
