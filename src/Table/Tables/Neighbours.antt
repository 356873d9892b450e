-- ===== src/Table/Tables/Neighbours.antt =====
-- What the row operations do to the other rows of the same table.
use database_45_steps.Prelude.{
  ℕ, ◌<◌, ◌^◌, ◌≡◌, ◌≢◌, ap, sym, ◌∙◌, true, none, Option, length, get_elem?, All, Bool,
}
use database_45_steps.Core.Types.{Bytes}
use database_45_steps.Core.DbError.{Result, ok}
use database_45_steps.Core.Platform.{Platform}
use database_45_steps.Kv.KeyValue.{KeyValue, WriteMode}
use database_45_steps.Kv.KeyValue.Effects.{Effect, del-Effect}
use database_45_steps.Table.Cell.{Row}
use database_45_steps.Table.CellCodec.RoundTrip.{IsEncodable}
use database_45_steps.Table.Schema.Metadata.{has}
use database_45_steps.Table.RowCodec.{encode_key, encode_val}
use database_45_steps.Table.RowCodec.Keys.{encode_key_injective}
use database_45_steps.Table.Tables.{Table, select, fill_row, write_row, delete, delete_encoded}
use database_45_steps.Table.Tables.Rows.{select-get, kept_by, write_row-Effect}

select_kept :
    {World : Type 0} {kv : KeyValue} {w : World} {key : Bytes} {val : Option Bytes} {Idle : Type 0}
    (table : Table) (probe : Row) (probe_key : Bytes) (r : Result Bool × KeyValue × World)
    → encode_key table.schema probe ≡ ok probe_key
    → probe_key ≢ key
    → Effect kv w key val Idle r
    → select r.1 table probe ≡ select kv table probe
select_kept {kv = kv} table probe probe_key r pe ne effect =
    select-get r.1 table probe probe_key pe
    ∙ ap (fill_row table.schema probe) (kept_by r probe_key ne effect)
    ∙ sym (select-get kv table probe probe_key pe)

-- In a table with a 32-bit identifier, neither writing a row in any mode nor deleting it, whatever
-- the result, changes what `Select` gives for a row that differs from it in some column of the
-- primary key. Both rows have encodable cells and a key, and the written one has a value.
pub select_others :
    (os : Platform) (mode : WriteMode) (kv : KeyValue) (table : Table) (row probe : Row)
    (key val probe_key : Bytes) (i : ℕ) (w : os.World)
    → table.schema.id < 2 ^ 32
    → All IsEncodable row
    → All IsEncodable probe
    → encode_key table.schema row ≡ ok key
    → encode_val table.schema row ≡ ok val
    → encode_key table.schema probe ≡ ok probe_key
    → i < length row
    → has table.schema.pkey i ≡ true
    → get_elem? row i ≢ get_elem? probe i
    → (select (write_row os mode kv table row w).1 table probe ≡ select kv table probe)
      × (select (delete os kv table row w).1 table probe ≡ select kv table probe)
unfolding delete delete_encoded
select_others os mode kv table row probe key val probe_key i w small h h' ke ve pe lt in_key
      differ =
    let ne : probe_key ≢ key = λ eq.
      differ (
        encode_key_injective table.schema row probe key i small h h' ke (pe ∙ ap ok eq) lt
          in_key) in
    let gone : Effect kv w key none (kv.mem key ≡ none) (delete os kv table row w) =
      rw ke (del-Effect os kv key w) in
    (
      select_kept table probe probe_key (write_row os mode kv table row w) pe ne
          (write_row-Effect os mode kv table row key val w ke ve),
      select_kept table probe probe_key (delete os kv table row w) pe ne gone,
    )
