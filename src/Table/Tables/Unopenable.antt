-- ===== src/Table/Tables/Unopenable.antt =====
-- A table that `Table::create` makes and that no call can open.
use database_45_steps.Prelude.{ℕ, ◌≡◌, refl, ap, ◌∙◌, none, some, Option}
use database_45_steps.Core.DbError.{
  Result, ok, err, fault, ◌>>=◌, fail, bad_key, is_db_error, make_error_code,
}
use database_45_steps.Core.Platform.{Platform}
use database_45_steps.Kv.KeyValue.{KeyValue}
use database_45_steps.Table.Schema.{Schema}
use database_45_steps.Table.SchemaCodec.{encode_schema, decode_schema}
use database_45_steps.Table.SchemaCodec.KeyColumns.{
  IsWritable, HasKeyColumns, decode_schema-bad_key,
}
use database_45_steps.Table.Tables.{
  Table, schema_registry_key, load_schema, found_schema, table_open, save_schema, get_next_id,
  register, create_unless, create, open_or_create,
}
use database_45_steps.Table.Tables.Registry.{get-set, bind-ok}

-- The schema of a table that was registered is the one that is then loaded under the name.
register-load :
    (os : Platform) (schema : Schema) (n : Result ℕ × KeyValue × os.World) (table : Table)
    → (register os schema n).0 ≡ ok table
    → load_schema (register os schema n).1 schema.name
      ≡ (decode_schema (encode_schema table.schema) >>= λ s. ok (some s))
unfolding register load_schema save_schema found_schema
register-load os schema (err e, kv, w) table h = absurd (cc h)
register-load os schema (fault, kv, w) table h = absurd (cc h)
register-load os schema (ok new_id, kv, w) table h =
    let named : Schema = record schema { id = new_id } in
    let (b, p, q) =
      bind-ok (save_schema os kv named w).0 (λ changed. ok (record { schema = named })) table h in
    let same : ◌≡◌ {A = Table} (record { schema = named }) table = cc q in
    ap (λ g. g >>= found_schema)
      (get-set os kv (schema_registry_key schema.name) (encode_schema named) w b p)
    ∙ ap (λ (t : Table). decode_schema (encode_schema t.schema) >>= λ s. ok (some s)) same

create-load :
    (os : Platform) (old : Result (Option Schema)) (kv : KeyValue) (schema : Schema) (w : os.World)
    (table : Table)
    → (create_unless os old kv schema w).0 ≡ ok table
    → load_schema (create_unless os old kv schema w).1 schema.name
      ≡ (decode_schema (encode_schema table.schema) >>= λ s. ok (some s))
unfolding create_unless
create-load os (err e) kv schema w table h = absurd (cc h)
create-load os fault kv schema w table h = absurd (cc h)
create-load os (ok (some old)) kv schema w table h = absurd (cc h)
create-load os (ok none) kv schema w table h = register-load os schema (get_next_id os kv w) table h

stays_bad :
    (os : Platform) (kv : KeyValue) (schema : Schema) (w : os.World)
    → load_schema kv schema.name ≡ fail bad_key
    → (create os kv schema w ≡ (fail bad_key, kv, w))
      × (open_or_create os kv schema w ≡ (fail bad_key, kv, w))
unfolding create create_unless table_open open_or_create is_db_error make_error_code
stays_bad os kv schema w lost = (rw lost refl, rw (open_or_create, table_open, lost) refl)

-- If `create` returned a table whose schema's identifier, counts, lengths and key indices fit 32
-- bits, but some key column does not exist, then on the new store `Table::open` of its name, and
-- `create` and `open_or_create` of any schema of that name, report `bad_key`, and the last two
-- change nothing.
pub create-bad_key :
    (os : Platform) (kv : KeyValue) (schema again : Schema) (w w' : os.World) (table : Table)
    → (create os kv schema w).0 ≡ ok table
    → IsWritable table.schema
    → ¬ HasKeyColumns table.schema
    → again.name ≡ schema.name
    → let kv' = (create os kv schema w).1 in
      (table_open kv' schema.name ≡ fail bad_key)
      × (create os kv' again w' ≡ (fail bad_key, kv', w'))
      × (open_or_create os kv' again w' ≡ (fail bad_key, kv', w'))
unfolding create table_open
create-bad_key os kv schema again w w' table h s bad named =
    let lost : load_schema (create os kv schema w).1 schema.name ≡ fail bad_key =
      create-load os (load_schema kv schema.name) kv schema w table h
      ∙ ap (λ r. r >>= λ s. ok (some s)) (decode_schema-bad_key table.schema s bad) in
    let lost_again = ap (load_schema (create os kv schema w).1) named ∙ lost in
    let (refused, refused') = stays_bad os (create os kv schema w).1 again w' lost_again in
    (rw lost refl, refused, refused')
