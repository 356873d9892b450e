-- ===== src/Table/Tables/Rows.antt =====
-- What the row operations do to what `Select` finds.
use database_45_steps.Prelude.{
  ℕ, ◌<◌, ◌^◌, ◌≡◌, ◌≢◌, refl, sym, ap, ◌∙◌, arith, fun_ext, Bool, true, false, ◌||◌, Option, none,
  some, List, [], ◌∷◌, ◌==◌, length, get_elem?, All,
}
use database_45_steps.Core.Types.{Bytes, to_bytes}
use database_45_steps.Core.DbError.{Result, ok, ◌>>=◌}
use database_45_steps.Core.Platform.{Platform}
use database_45_steps.Kv.KeyValue.{KeyValue, WriteMode, get, set_ex}
use database_45_steps.Kv.KeyValue.Effects.{
  get_assigned, get_other, IsIdle, Effect, set_ex-Effect, del-Effect,
}
use database_45_steps.Table.Cell.{Row}
use database_45_steps.Table.CellCodec.RoundTrip.{IsEncodable}
use database_45_steps.Table.Schema.{Schema, ColumnHeader, new_schema}
use database_45_steps.Table.Schema.Metadata.{has}
use database_45_steps.Table.RowCodec.{put_cell, encode_at, encode_key, encode_val}
use database_45_steps.Table.RowCodec.RoundTrip.{decode_val-row}
use database_45_steps.Table.RowCodec.Keys.{encode_key_separates, encode_key_apart}
use database_45_steps.Table.Tables.{
  Table, found_schema, select, fill_row, selected, write_row, write_encoded, delete, delete_encoded,
  load_schema, schema_registry_key,
}

-- Rows that agree in the primary key: all that `encode_key` reads of them.
pub record HaveSameKey (schema : Schema) (row row' : Row) : Type 0 where
  pub widths : length row ≡ length row'
  pub cells : (i : ℕ) → has schema.pkey i ≡ true → get_elem? row i ≡ get_elem? row' i

encode_at-same :
    (schema : Schema) (row row' : Row) (indices : List ℕ) (out : Bytes)
    → ((i : ℕ) → has indices i ≡ true → get_elem? row i ≡ get_elem? row' i)
    → encode_at schema row indices out ≡ encode_at schema row' indices out
unfolding encode_at
encode_at-same schema row row' [] out h = refl
encode_at-same schema row row' (idx ∷ indices) out h =
    ap (λ c. put_cell c (get_elem? schema.cols idx) out >>= encode_at schema row indices)
      (h idx (here idx))
    ∙ ap (λ f. put_cell (get_elem? row' idx) (get_elem? schema.cols idx) out >>= f)
        (fun_ext
          (λ out'. encode_at-same schema row row' indices out' (λ i k. h i (ground (arith, k)))))
  where
    here : (i : ℕ) → (i == i) || has indices i ≡ true
    here i = ground arith

pub encode_key-same :
    (schema : Schema) (row row' : Row)
    → HaveSameKey schema row row'
    → encode_key schema row ≡ encode_key schema row'
unfolding encode_key
encode_key-same schema row row' same =
    rw (same.widths, encode_at-same schema row row' schema.pkey _ same.cells) refl

-- A successful encoding with nothing else: the write is `set_ex`.
pub write_row-set_ex :
    (os : Platform) (mode : WriteMode) (kv : KeyValue) (table : Table) (row : Row) (key val : Bytes)
    (w : os.World)
    → encode_key table.schema row ≡ ok key
    → encode_val table.schema row ≡ ok val
    → write_row os mode kv table row w ≡ set_ex os kv key val mode w
unfolding write_row write_encoded
write_row-set_ex os mode kv table row key val w ke ve = rw (ke, ve) refl

-- Writing a row of a table is a write of its key, whatever the mode.
pub write_row-Effect :
    (os : Platform) (mode : WriteMode) (kv : KeyValue) (table : Table) (row : Row) (key val : Bytes)
    (w : os.World)
    → encode_key table.schema row ≡ ok key
    → encode_val table.schema row ≡ ok val
    → Effect kv w key (some val) (IsIdle mode (kv.mem key) val) (write_row os mode kv table row w)
write_row-Effect os mode kv table row key val w ke ve =
    rw (write_row-set_ex os mode kv table row key val w ke ve) (set_ex-Effect os kv key val mode w)

pub select-get :
    (kv : KeyValue) (table : Table) (row : Row) (key : Bytes)
    → encode_key table.schema row ≡ ok key
    → select kv table row ≡ fill_row table.schema row (get kv key)
unfolding select
select-get kv table row key e = rw e refl

assigned_by :
    {World : Type 0} (kv : KeyValue) {w : World} (key : Bytes) (val : Option Bytes) {Idle : Type 0}
    (r : Result Bool × KeyValue × World)
    → r.0 ≡ ok true
    → Effect kv w key val Idle r
    → get r.1 key ≡ ok val
assigned_by kv key val r h (Effect.idle_call i e) = absurd (cc (h, ap (λ x. x.0) e))
assigned_by kv key val r h (Effect.failed_call e b x p m) = absurd (cc (h, p))
assigned_by kv key val r h (Effect.write_call b p a) = get_assigned kv r.1 key val a

-- Every key but the written one is as it was, whatever the result.
pub kept_by :
    {World : Type 0} {kv : KeyValue} {w : World} {key : Bytes} {val : Option Bytes} {Idle : Type 0}
    (r : Result Bool × KeyValue × World) (other : Bytes)
    → other ≢ key
    → Effect kv w key val Idle r
    → get r.1 other ≡ get kv other
unfolding get
kept_by r other ne (Effect.idle_call i e) = ap (λ x. ok (x.1.mem (to_bytes other))) e
kept_by r other ne (Effect.failed_call e b x p m) = ap (λ mem. ok (mem (to_bytes other))) m
kept_by {kv = kv} {key = key} {val = val} r other ne (Effect.write_call b p a) =
    get_other kv r.1 key val other ne a

module _ (os : Platform) (id : ℕ) (name : Bytes) (cols : List ColumnHeader) (pkey : List ℕ) where
  -- If a row of encodable cells has a key and a value under a schema that the constructor built,
  -- and writing it in any of the three modes returned true, then `Select`, with any row of the
  -- same width that has the same cells in the key columns, returns true and fills in exactly the
  -- written row.
  pub select-write_row :
      (mode : WriteMode) (kv : KeyValue) (row probe : Row) (key val : Bytes) (w : os.World)
      → All IsEncodable row
      → encode_key (new_schema id name cols pkey) row ≡ ok key
      → encode_val (new_schema id name cols pkey) row ≡ ok val
      → HaveSameKey (new_schema id name cols pkey) probe row
      → (write_row os mode kv (record { schema = new_schema id name cols pkey }) row w).0 ≡ ok true
      → let table : Table = record { schema = new_schema id name cols pkey } in
        select (write_row os mode kv table row w).1 table probe ≡ (ok true, row)
  unfolding fill_row selected
  select-write_row mode kv row probe key val w h ke ve same done =
      let r = write_row os mode kv (record { schema = new_schema id name cols pkey }) row w in
      select-get r.1 (record { schema = new_schema id name cols pkey }) probe key
        (encode_key-same (new_schema id name cols pkey) probe row same ∙ ke)
      ∙ ap (fill_row (new_schema id name cols pkey) probe) (
          assigned_by kv key (some val) r done (
            write_row-Effect os mode kv (record { schema = new_schema id name cols pkey }) row key
              val w ke ve))
      ∙ ap selected (
          decode_val-row id name cols pkey row probe val h same.widths (λ i k e. same.cells i e) ve)

  -- If `Delete` of a row with a key returned true, then `Select`, with any row of the same width
  -- that has the same cells in the key columns, returns false and leaves its row as it is.
  pub select-delete :
      (kv : KeyValue) (row probe : Row) (key : Bytes) (w : os.World)
      → encode_key (new_schema id name cols pkey) row ≡ ok key
      → HaveSameKey (new_schema id name cols pkey) probe row
      → (delete os kv (record { schema = new_schema id name cols pkey }) row w).0 ≡ ok true
      → let table : Table = record { schema = new_schema id name cols pkey } in
        select (delete os kv table row w).1 table probe ≡ (ok false, probe)
  unfolding fill_row delete delete_encoded
  select-delete kv row probe key w ke same done =
      let r = delete os kv (record { schema = new_schema id name cols pkey }) row w in
      let effect : Effect kv w key none (kv.mem key ≡ none) r = rw ke (del-Effect os kv key w) in
      select-get r.1 (record { schema = new_schema id name cols pkey }) probe key
        (encode_key-same (new_schema id name cols pkey) probe row same ∙ ke)
      ∙ ap (fill_row (new_schema id name cols pkey) probe) (assigned_by kv key none r done effect)

-- Writing a row of one table in any mode, whatever the result, changes neither what `Select` gives
-- for a row of a table with another 32-bit identifier, nor the schema that is found under any
-- name. All rows have encodable cells and a key, and the written one has a value.
pub write_row_apart :
    (os : Platform) (mode : WriteMode) (kv : KeyValue) (table other : Table) (row probe : Row)
    (key val probe_key name : Bytes) (w : os.World)
    → table.schema.id < 2 ^ 32
    → other.schema.id < 2 ^ 32
    → table.schema.id ≢ other.schema.id
    → All IsEncodable row
    → All IsEncodable probe
    → encode_key table.schema row ≡ ok key
    → encode_val table.schema row ≡ ok val
    → encode_key other.schema probe ≡ ok probe_key
    → let r = write_row os mode kv table row w in
      (select r.1 other probe ≡ select kv other probe)
      × (load_schema r.1 name ≡ load_schema kv name)
unfolding load_schema schema_registry_key
write_row_apart os mode kv table other row probe key val probe_key name w small small' ne h h' ke ve
      pe =
    let r = write_row os mode kv table row w in
    let effect = write_row-Effect os mode kv table row key val w ke ve in
    (
      select-get r.1 other probe probe_key pe
          ∙ ap (fill_row other.schema probe) (
              kept_by r probe_key
                (λ eq.
                  encode_key_separates table.schema other.schema row probe key probe_key small
                    small' ne h h' ke pe (sym eq))
                effect)
          ∙ sym (select-get kv other probe probe_key pe),
      ap (λ g. g >>= found_schema)
          (kept_by r (schema_registry_key name)
            (λ eq. (encode_key_apart table.schema row key name h ke).0 (sym eq)) effect),
    )
