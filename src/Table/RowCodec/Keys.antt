-- ===== src/Table/RowCodec/Keys.antt =====
-- Which rows share a key, and which keys of the store no row has.
use database_45_steps.Prelude.{
  ℕ, ◌<◌, ◌^◌, ◌≡◌, ◌≢◌, refl, sym, ap, ◌∙◌, arith, true, some, ◌++◌, length, get_elem?, take, All,
}
use database_45_steps.Core.Types.{Bytes}
use database_45_steps.Core.DbError.{ok}
use database_45_steps.Core.BitUtils.{pack_le, unpack_le}
use database_45_steps.Core.BitUtils.RoundTrip.{unpack_le-pack_le}
use database_45_steps.Table.Cell.{Row}
use database_45_steps.Table.CellCodec.RoundTrip.{IsEncodable}
use database_45_steps.Table.Schema.{Schema}
use database_45_steps.Table.Schema.Metadata.{has}
use database_45_steps.Table.SchemaCodec.{schema_key_prefix, counter_key_prefix}
use database_45_steps.Table.RowCodec.{id_separator, encode_key}
use database_45_steps.Table.RowCodec.Columns.{}
use database_45_steps.Table.RowCodec.Copy.{copy_at-has}
use database_45_steps.Table.RowCodec.RoundTrip.{encode_key-body, decode_key-encode_key}

-- Two rows of encodable cells that have the same key under a schema with a 32-bit identifier agree
-- in every column of its primary key.
pub encode_key_injective :
    (schema : Schema) (row row' : Row) (key : Bytes) (i : ℕ)
    → schema.id < 2 ^ 32
    → All IsEncodable row
    → All IsEncodable row'
    → encode_key schema row ≡ ok key
    → encode_key schema row' ≡ ok key
    → i < length row
    → has schema.pkey i ≡ true
    → get_elem? row i ≡ get_elem? row' i
encode_key_injective schema row row' key i small h h' e e' k in_key =
    let width : length row ≡ length row' =
      sym (encode_key-body schema row row key h e).0
      ∙ (encode_key-body schema row' row' key h' e').0 in
    let decoded = decode_key-encode_key schema row row key small h refl e in
    let decoded' = decode_key-encode_key schema row' row key small h' width e' in
    sym (copy_at-has row schema.pkey row i refl k in_key)
    ∙ ap (λ r. get_elem? r.1 i) (sym decoded ∙ decoded')
    ∙ copy_at-has row' schema.pkey row i width (omega (arith, k, width)) in_key

front :
    (schema : Schema) (row : Row) (key : Bytes)
    → All IsEncodable row
    → encode_key schema row ≡ ok key
    → (take 4 key ≡ pack_le 4 schema.id) × (get_elem? key 4 ≡ some id_separator)
unfolding pack_le
front schema row key h e =
    let (cols, (body, split, reads)) = encode_key-body schema row row key h e in
    (ap (take 4) split, ap (λ bs. get_elem? bs 4) split)

-- Rows of encodable cells that have keys under two schemas with different 32-bit identifiers have
-- different keys.
pub encode_key_separates :
    (schema schema' : Schema) (row row' : Row) (key key' : Bytes)
    → schema.id < 2 ^ 32
    → schema'.id < 2 ^ 32
    → schema.id ≢ schema'.id
    → All IsEncodable row
    → All IsEncodable row'
    → encode_key schema row ≡ ok key
    → encode_key schema' row' ≡ ok key'
    → key ≢ key'
encode_key_separates schema schema' row row' key key' small small' ne h h' e e' same = ne (
    sym (unpack_le-pack_le 4 schema.id (omega (arith, small)))
    ∙ ap unpack_le
        (sym (front schema row key h e).0 ∙ ap (take 4) same ∙ (front schema' row' key' h' e').0)
    ∙ unpack_le-pack_le 4 schema'.id (omega (arith, small')))

-- The key of a row of encodable cells is never the registry key of a schema, whatever its name,
-- and never the key of the counter.
pub encode_key_apart :
    (schema : Schema) (row : Row) (key name : Bytes)
    → All IsEncodable row
    → encode_key schema row ≡ ok key
    → (key ≢ schema_key_prefix ++ name) × (key ≢ counter_key_prefix)
encode_key_apart schema row key name h e =
    let separator = (front schema row key h e).1 in
    (
      λ eq. cc (sym separator ∙ ap (λ bs. get_elem? bs 4) eq),
      λ eq. cc (sym separator ∙ ap (λ bs. get_elem? bs 4) eq),
    )
