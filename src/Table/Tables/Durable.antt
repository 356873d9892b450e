-- ===== src/Table/Tables/Durable.antt =====
-- From the table down to the disk: rows in a store that is opened anew.
use database_45_steps.Prelude.{
  [], ◌∷◌, ◌++◌, ◌+◌, length-append, length-take, take, arith, ℕ, ◌<◌, ◌≡◌, sym, ap, ◌∙◌, Bool,
  true, false, ◌&&◌, Option, some, List, length, All,
}
use database_45_steps.Core.Types.{Bytes, to_bytes}
use database_45_steps.Core.DbError.{ErrorCode, success, Result, ok, ◌>>=◌}
use database_45_steps.Core.Platform.{Platform}
use database_45_steps.Core.Platform.Laws.{View, FileLaws, PathLaws}
use mathlib.Core.Path.{subst}
use database_45_steps.Kv.Entry.{Entry}
use database_45_steps.Kv.EntryCodec.{encode}
use database_45_steps.Kv.EntryCodec.RoundTrip.{IsStorable}
use database_45_steps.Kv.KeyValue.{
  KeyValue, is_write_due, Map, WriteMode, get, new_store, open_store,
}
use database_45_steps.Kv.KeyValue.Open.{Loaded}
use database_45_steps.Kv.KeyValue.Store.{IsConsistent, Updated, set_entry, set_ex_outcome}
use database_45_steps.Kv.KeyValue.Reopening.{reopen}
use database_45_steps.Table.Cell.{Row}
use database_45_steps.Table.CellCodec.RoundTrip.{IsEncodable}
use database_45_steps.Table.Schema.{ColumnHeader, new_schema}
use database_45_steps.Table.RowCodec.{encode_key, encode_val}
use database_45_steps.Table.Tables.{Table, select, fill_row, write_row}
use database_45_steps.Table.Tables.Rows.{HaveSameKey, write_row-set_ex, select-write_row}

-- `Select` sees no more of a store than its map.
select-mem :
    (kv kv' : KeyValue) (table : Table) (row : Row)
    → kv.mem ≡ kv'.mem
    → select kv table row ≡ select kv' table row
unfolding select get
select-mem kv kv' table row same =
    ap
      (λ (mem : Map).
        fill_row table.schema row
          (encode_key table.schema row >>= (λ key. ok (mem (to_bytes key)))))
      same

module _ {os : Platform} {view : View os} (laws : FileLaws view) where
  open view use {file, IsFaulty}

  Loaded-mem :
      (content : Bytes) (mem : Map) (r : Option ErrorCode × KeyValue × os.World)
      → r.0 ≡ some success
      → Loaded laws content mem r
      → r.1.mem ≡ mem
  Loaded-mem content mem r done (Loaded.refused fault e p h) = absurd (cc (done, p, h))
  Loaded-mem content mem r done (Loaded.loaded p m good) = m

  -- The entry was written in full, so no short write went unnoticed.
  whole_write :
      (kv written : KeyValue) (w w' : os.World) (ents : List Entry) (ent : Entry) (due : Bool)
      → (file w').content ≡ (file w).content ++ encode ent
      → Updated laws kv w ents ent due (ok true, written, w')
      → IsConsistent laws written w' (ents ++ (ent ∷ []))
  whole_write kv written w w' ents ent due whole (Updated.unchanged d e) =
      absurd (cc (ap (λ r. r.0) e))
  whole_write kv written w w' ents ent due whole (Updated.refused fault d e is p m) = absurd (cc p)
  whole_write kv written w w' ents ent due whole (Updated.stored d p good synced) = good
  whole_write kv written w w' ents ent due whole (Updated.unnoticed fault silent z d p n k c) =
      absurd (
        omega (
          arith,
          k,
          ap length (sym c ∙ whole),
          length-append (file w).content (take n (encode ent)),
          length-append (file w).content (encode ent),
          length-take n (encode ent),
        ))

  -- Writing a row in full keeps the invariant of the store.
  write_row-IsConsistent :
      (mode : WriteMode) (kv written : KeyValue) (table : Table) (row : Row) (key val : Bytes)
      (w w' : os.World) (ents : List Entry)
      → encode_key table.schema row ≡ ok key
      → encode_val table.schema row ≡ ok val
      → write_row os mode kv table row w ≡ (ok true, written, w')
      → IsConsistent laws kv w ents
      → IsStorable (set_entry key val)
      → (file w').content ≡ (file w).content ++ encode (set_entry key val)
      → IsConsistent laws written w' (ents ++ (set_entry key val ∷ []))
  write_row-IsConsistent mode kv written table row key val w w' ents ke ve done good s whole =
      whole_write kv written w w' ents (set_entry key val) (is_write_due mode (kv.mem key) val)
        whole
        (subst (Updated laws kv w ents (set_entry key val) (is_write_due mode (kv.mem key) val))
          (sym (write_row-set_ex os mode kv table row key val w ke ve) ∙ done)
          (set_ex_outcome laws kv key val mode w ents good s))

  -- On a store that is consistent with some entries, if a row of encodable cells, with a storable
  -- key and value under a schema that the constructor built, was written to a table in any mode
  -- with the result true, and its entry is in the file in full, then in any world where the file
  -- has the content that this left, a new store on the same path that opens with success, with
  -- more fuel than there are entries, the new one included, finds the row: `Select` with any row
  -- of the same width that has the same cells in the key columns returns true and fills in exactly
  -- the written row. The path is no directory, and the promises of the platform for it are
  -- assumed.
  pub select-reopen :
      (id : ℕ) (name : Bytes) (cols : List ColumnHeader) (pkey : List ℕ) (mode : WriteMode)
      (kv written : KeyValue) (row probe : Row) (key val : Bytes) (w w' w'' : os.World)
      (ents : List Entry) (fuel : ℕ)
      → All IsEncodable row
      → encode_key (new_schema id name cols pkey) row ≡ ok key
      → encode_val (new_schema id name cols pkey) row ≡ ok val
      → HaveSameKey (new_schema id name cols pkey) probe row
      → write_row os mode kv (record { schema = new_schema id name cols pkey }) row w
        ≡ (ok true, written, w')
      → IsConsistent laws kv w ents
      → IsStorable (set_entry key val)
      → (file w').content ≡ (file w).content ++ encode (set_entry key val)
      → PathLaws view written.log.filename
      → (os.exists written.log.filename w'' && os.is_directory written.log.filename w'') ≡ false
      → length ents + 1 < fuel
      → (file w'').content ≡ (file w').content
      → (open_store os fuel (new_store written.log.filename) w'').0 ≡ some success
      → select
          (open_store os fuel (new_store written.log.filename) w'').1
          (record { schema = new_schema id name cols pkey })
          probe
        ≡ (ok true, row)
  select-reopen id name cols pkey mode kv written row probe key val w w' w'' ents fuel h ke ve same
        done good s whole paths plain enough kept opened =
      let table : Table = record { schema = new_schema id name cols pkey } in
      let consistent =
        write_row-IsConsistent mode kv written table row key val w w' ents ke ve done good s
          whole in
      select-mem (open_store os fuel (new_store written.log.filename) w'').1 written table probe (
        Loaded-mem (file w'').content written.mem
          (open_store os fuel (new_store written.log.filename) w'') opened
          (reopen laws fuel written w' w'' (ents ++ (set_entry key val ∷ [])) consistent paths plain
            (omega (arith, enough, length-append ents (set_entry key val ∷ []))) kept))
      ∙ ap (λ (r : Result Bool × KeyValue × os.World). select r.1 table probe) (sym done)
      ∙ select-write_row os id name cols pkey mode kv row probe key val w h ke ve same
          (ap (λ (r : Result Bool × KeyValue × os.World). r.0) done)
