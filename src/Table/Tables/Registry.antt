-- ===== src/Table/Tables/Registry.antt =====
-- The registry of tables, and the counter of their identifiers.
use database_45_steps.Prelude.{
  ℕ, ◌+◌, ◌%◌, ◌^◌, ◌≡◌, refl, sym, ap, ◌∙◌, arith, Bool, Option, none, some, length, take_all,
}
use mathlib.Core.Path.{subst}
use database_45_steps.Core.Types.{Bytes, to_bytes}
use database_45_steps.Core.DbError.{
  Result, ok, err, fault, ◌>>=◌, fail, is_db_error, make_error_code, table_not_found,
  table_already_exists,
}
use database_45_steps.Core.BitUtils.{pack_le, unpack_le}
use database_45_steps.Core.BitUtils.RoundTrip.{length-pack_le, unpack_le-pack_le}
use database_45_steps.Core.Platform.{Platform}
use database_45_steps.Kv.KeyValue.{KeyValue, WriteMode, get, set}
use database_45_steps.Kv.KeyValue.Effects.{get_assigned, Effect, set_ex-Effect}
use database_45_steps.Table.Schema.{Schema, new_schema}
use database_45_steps.Table.SchemaCodec.{counter_key_prefix, encode_schema}
use database_45_steps.Table.SchemaCodec.RoundTrip.{IsEncodableSchema, decode_schema-encode_schema}
use database_45_steps.Table.Tables.{
  Table, schema_registry_key, load_schema, found_schema, table_open, opened_table, save_schema,
  current_id, store_next, get_next_id, register, create_unless, create, open_or_create,
}

-- After a `set` that returned a value, changed or not, the key has the value.
set-Effect :
    {World : Type 0} (kv : KeyValue) {w : World} (key val : Bytes)
    (r : Result Bool × KeyValue × World) (b : Bool)
    → r.0 ≡ ok b
    → Effect kv w key (some val) (kv.mem key ≡ some val) r
    → get r.1 key ≡ ok (some val)
unfolding get to_bytes
set-Effect kv key val r b h (Effect.idle_call i e) =
    ap (λ x. ok (x.1.mem (to_bytes key))) e ∙ ap ok i
set-Effect kv key val r b h (Effect.failed_call e x y p m) = absurd (cc (h, p))
set-Effect kv key val r b h (Effect.write_call x p a) = get_assigned kv r.1 key (some val) a

pub get-set :
    (os : Platform) (kv : KeyValue) (key val : Bytes) (w : os.World) (b : Bool)
    → (set os kv key val w).0 ≡ ok b
    → get (set os kv key val w).1 key ≡ ok (some val)
unfolding set
get-set os kv key val w b h =
    set-Effect kv key val (set os kv key val w) b h (set_ex-Effect os kv key val WriteMode.upsert w)

pub bind-ok {ℓ κ} :
    {A : Type ℓ} {B : Type κ} (r : Result A) (f : A → Result B) (b : B)
    → (r >>= f) ≡ ok b
    → (a : A) × (r ≡ ok a) × (f a ≡ ok b)
bind-ok (ok a) f b h = (a, refl, h)
bind-ok (err e) f b h = absurd (cc h)
bind-ok fault f b h = absurd (cc h)

current_id-id : (buf : Bytes) → length buf ≡ 4 → current_id (some buf) ≡ ok (unpack_le buf)
unfolding current_id
current_id-id buf h = ground (arith, take_all 4 buf (omega (arith, h)))

-- If `get_next_id` returned an identifier, then it is the one that the counter gave, and the
-- counter of the new store gives the next one, modulo 2 ^ 32.
pub get_next_id_advances :
    (os : Platform) (kv : KeyValue) (w : os.World) (id : ℕ)
    → (get_next_id os kv w).0 ≡ ok id
    → (get kv (to_bytes counter_key_prefix) >>= current_id ≡ ok id)
      × (get (get_next_id os kv w).1 (to_bytes counter_key_prefix) >>= current_id
          ≡ ok ((id + 1) % 2 ^ 32))
unfolding get_next_id store_next
get_next_id_advances os kv w id h = advance (get kv (to_bytes counter_key_prefix) >>= current_id) h
  where
    advance :
        (current : Result ℕ)
        → (store_next os current kv w).0 ≡ ok id
        → (current ≡ ok id)
          × (get (store_next os current kv w).1 (to_bytes counter_key_prefix) >>= current_id
              ≡ ok ((id + 1) % 2 ^ 32))
    advance (err e) h = absurd (cc h)
    advance fault h = absurd (cc h)
    advance (ok n) h =
        let next : Bytes = pack_le 4 ((n + 1) % 2 ^ 32) in
        let (b, p, q) =
          bind-ok (set os kv (to_bytes counter_key_prefix) next w).0 (λ changed. ok n) id h in
        let same : n ≡ id = cc q in
        (
          ap ok same,
          ap (λ g. g >>= current_id) (get-set os kv (to_bytes counter_key_prefix) next w b p)
              ∙ current_id-id next (length-pack_le 4 _)
              ∙ ap ok (unpack_le-pack_le 4 ((n + 1) % 2 ^ 32) (omega arith))
              ∙ ap (λ m. ok ((m + 1) % 2 ^ 32)) same,
        )

load_schema-saved :
    (os : Platform) (kv : KeyValue) (schema : Schema) (w : os.World) (b : Bool)
    → IsEncodableSchema schema
    → (save_schema os kv schema w).0 ≡ ok b
    → load_schema (save_schema os kv schema w).1 schema.name
      ≡ ok (some (new_schema schema.id schema.name schema.cols schema.pkey))
unfolding load_schema save_schema found_schema
load_schema-saved os kv schema w b s h =
    ap (λ g. g >>= found_schema)
      (get-set os kv (schema_registry_key schema.name) (encode_schema schema) w b h)
    ∙ ap (λ r. r >>= (λ x. ok (some x))) (decode_schema-encode_schema schema s)

registered :
    (os : Platform) (schema : Schema) (n : Result ℕ × KeyValue × os.World) (table : Table)
    → (register os schema n).0 ≡ ok table
    → IsEncodableSchema table.schema
    → (n.0 ≡ ok table.schema.id)
      × (table.schema.name ≡ schema.name)
      × (load_schema (register os schema n).1 schema.name
          ≡ ok (some (new_schema table.schema.id schema.name schema.cols schema.pkey)))
unfolding register
registered os schema (err e, kv, w) table h s = absurd (cc h)
registered os schema (fault, kv, w) table h s = absurd (cc h)
registered os schema (ok new_id, kv, w) table h s =
    let named : Schema = record schema { id = new_id } in
    let (b, p, q) =
      bind-ok (save_schema os kv named w).0 (λ changed. ok (record { schema = named })) table h in
    let same : named ≡ table.schema = ap (λ t. t.schema) (table_of table q) in
    (
      ap (λ x. ok x.id) same,
      ap (λ x. x.name) (sym same),
      load_schema-saved os kv named w b (subst IsEncodableSchema (sym same) s) p
          ∙ ap (λ x. ok (some (new_schema x.id schema.name schema.cols schema.pkey))) same,
    )
  where
    table_of : {a : Table} (b : Table) → ◌≡◌ {A = Result Table} (ok a) (ok b) → a ≡ b
    table_of b h = cc h

-- If `create` returned a table whose schema's identifier, counts and lengths fit 32 bits, and
-- whose key columns exist, then the name was not registered before, the table's identifier is the
-- one that `get_next_id` gives, and `Table::open` on the new store finds, under the name, the
-- schema with that identifier.
pub table_open-create :
    (os : Platform) (kv : KeyValue) (schema : Schema) (w : os.World) (table : Table)
    → (create os kv schema w).0 ≡ ok table
    → IsEncodableSchema table.schema
    → (table_open kv schema.name ≡ fail table_not_found)
      × ((get_next_id os kv w).0 ≡ ok table.schema.id)
      × (table_open (create os kv schema w).1 schema.name
          ≡ ok (record { schema = new_schema table.schema.id schema.name schema.cols schema.pkey }))
unfolding create create_unless table_open
table_open-create os kv schema w table h s = after (load_schema kv schema.name) h
  where
    after :
        (old : Result (Option Schema))
        → (create_unless os old kv schema w).0 ≡ ok table
        → (old >>= opened_table ≡ fail table_not_found)
          × ((get_next_id os kv w).0 ≡ ok table.schema.id)
          × (load_schema (create_unless os old kv schema w).1 schema.name >>= opened_table
              ≡ ok (record {
                schema = new_schema table.schema.id schema.name schema.cols schema.pkey;
              }))
    after (err e) h = absurd (cc h)
    after fault h = absurd (cc h)
    after (ok (some old)) h = absurd (cc h)
    after (ok none) h =
        let (id, same, found) = registered os schema (get_next_id os kv w) table h s in
        (refl, id, ap (λ r. r >>= opened_table) found)

-- Where a schema is registered under the name, `create` reports `table_already_exists` and changes
-- nothing, and `open_or_create` returns the registered table and changes nothing.
pub create_existing :
    (os : Platform) (kv : KeyValue) (schema old : Schema) (w : os.World)
    → load_schema kv schema.name ≡ ok (some old)
    → (create os kv schema w ≡ (fail table_already_exists, kv, w))
      × (open_or_create os kv schema w ≡ (ok (record { schema = old }), kv, w))
unfolding create create_unless open_or_create table_open
create_existing os kv schema old w h = (rw h refl, rw (open_or_create, table_open, h) refl)

-- `open_or_create` on a name that is not taken is `create`.
pub open_or_create-create :
    (os : Platform) (kv : KeyValue) (schema : Schema) (w : os.World)
    → load_schema kv schema.name ≡ ok none
    → open_or_create os kv schema w ≡ create os kv schema w
unfolding open_or_create table_open is_db_error make_error_code
open_or_create-create os kv schema w h = rw (open_or_create, table_open, h) refl
