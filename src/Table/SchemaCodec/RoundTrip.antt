-- ===== src/Table/SchemaCodec/RoundTrip.antt =====
-- `decode_schema` on what `encode_schema` wrote.
use database_45_steps.Prelude.{
  ℕ, ◌%◌, ◌<◌, ◌^◌, ◌≡◌, refl, sym, ap, ◌∙◌, arith, true, List, [], ◌∷◌, ◌++◌, append_assoc,
  append-nil, length, All, ltb,
}
use database_45_steps.Core.Types.{Bytes}
use database_45_steps.Core.DbError.{ok}
use database_45_steps.Core.BitUtils.{push_u32, push_str}
use database_45_steps.Core.BitUtils.RoundTrip.{read_u32-push_u32, read_str-push_str}
use database_45_steps.Table.Cell.{tag}
use database_45_steps.Table.CellCodec.RoundTrip.{read_cell_type-tag}
use database_45_steps.Table.Schema.{ColumnHeader, Schema, new_schema}
use database_45_steps.Table.SchemaCodec.{
  push_column, push_columns, push_indices, encode_schema, expect, read_columns, read_indices,
  decode_schema,
}

abbrev pub IsNamed : ColumnHeader → Type 0
IsNamed col = length col.name < 2 ^ 32

-- A schema whose identifier, counts and lengths fit their fields, and whose key columns exist.
pub record IsEncodableSchema (schema : Schema) : Type 0 where
  pub id_fits : schema.id < 2 ^ 32
  pub name_fits : length schema.name < 2 ^ 32
  pub cols_fit : length schema.cols < 2 ^ 32
  pub cols_named : All IsNamed schema.cols
  pub pkey_fits : length schema.pkey < 2 ^ 32
  pub pkey_in_range : All (λ idx. idx < length schema.cols) schema.pkey

abbrev pub columns_bytes : List ColumnHeader → Bytes
columns_bytes [] = []
columns_bytes (col ∷ cols) =
    (push_str [] col.name ++ (tag col.cell_type ∷ [])) ++ columns_bytes cols

abbrev pub indices_bytes : List ℕ → Bytes
indices_bytes [] = []
indices_bytes (idx ∷ pkey) = push_u32 [] (idx % 2 ^ 32) ++ indices_bytes pkey

push_u32-append : (out : Bytes) (v : ℕ) → push_u32 out v ≡ out ++ push_u32 [] v
unfolding push_u32
push_u32-append out v = refl

push_str-append : (out s : Bytes) → push_str out s ≡ out ++ push_str [] s
unfolding push_str push_u32
push_str-append out s = append_assoc out _ s

push_columns-append :
    (out : Bytes) (cols : List ColumnHeader) → push_columns out cols ≡ out ++ columns_bytes cols
unfolding push_columns push_column
push_columns-append out [] = sym (append-nil out)
push_columns-append out (col ∷ cols) =
    push_columns-append (push_column out col) cols
    ∙ ap (λ bs. (bs ++ (tag col.cell_type ∷ [])) ++ columns_bytes cols)
        (push_str-append out col.name)
    ∙ ap (λ bs. bs ++ columns_bytes cols)
        (append_assoc out (push_str [] col.name) (tag col.cell_type ∷ []))
    ∙ append_assoc out _ (columns_bytes cols)

push_indices-append :
    (out : Bytes) (pkey : List ℕ) → push_indices out pkey ≡ out ++ indices_bytes pkey
unfolding push_indices
push_indices-append out [] = sym (append-nil out)
push_indices-append out (idx ∷ pkey) =
    push_indices-append (push_u32 out (idx % 2 ^ 32)) pkey
    ∙ ap (λ bs. bs ++ indices_bytes pkey) (push_u32-append out (idx % 2 ^ 32))
    ∙ append_assoc out _ (indices_bytes pkey)

-- The layout of an encoded schema.
pub encode_schema-layout :
    (schema : Schema)
    → encode_schema schema
      ≡ push_u32 [] schema.id
        ++ (push_str [] schema.name
            ++ (push_u32 [] (length schema.cols % 2 ^ 32)
                ++ (columns_bytes schema.cols
                    ++ (push_u32 [] (length schema.pkey % 2 ^ 32) ++ indices_bytes schema.pkey))))
unfolding encode_schema
encode_schema-layout schema =
    let id : Bytes = push_u32 [] schema.id in
    let name : Bytes = push_str [] schema.name in
    let n : Bytes = push_u32 [] (length schema.cols % 2 ^ 32) in
    let cols : Bytes = columns_bytes schema.cols in
    let k : Bytes = push_u32 [] (length schema.pkey % 2 ^ 32) in
    let pkey : Bytes = indices_bytes schema.pkey in
    push_indices-append _ schema.pkey
    ∙ ap (λ bs. bs ++ pkey)
        (push_u32-append _ (length schema.pkey % 2 ^ 32)
          ∙ ap (λ bs. bs ++ k)
              (push_columns-append _ schema.cols
                ∙ ap (λ bs. bs ++ cols)
                    (push_u32-append _ (length schema.cols % 2 ^ 32)
                      ∙ ap (λ bs. bs ++ n) (push_str-append id schema.name))))
    ∙ nest id name n cols k pkey
  where
    nest :
        (a b c d e f : Bytes)
        → ((((a ++ b) ++ c) ++ d) ++ e) ++ f ≡ a ++ (b ++ (c ++ (d ++ (e ++ f))))
    nest a b c d e f = simp append_assoc

pub read_columns-columns_bytes :
    (cols : List ColumnHeader) (rest : Bytes)
    → All IsNamed cols
    → read_columns (length cols) (columns_bytes cols ++ rest) ≡ ok (cols, rest)
unfolding read_columns expect
read_columns-columns_bytes [] rest h = refl
read_columns-columns_bytes (col ∷ cols) rest h =
    rw
      (
        shape,
        read_str-push_str col.name (tag col.cell_type ∷ (columns_bytes cols ++ rest)) h.0,
        read_cell_type-tag col.cell_type (columns_bytes cols ++ rest),
        read_columns-columns_bytes cols rest h.1,
      )
      refl
  where
    shape :
        ((push_str [] col.name ++ (tag col.cell_type ∷ [])) ++ columns_bytes cols) ++ rest
        ≡ push_str [] col.name ++ (tag col.cell_type ∷ (columns_bytes cols ++ rest))
    shape = simp append_assoc

read_indices-indices_bytes :
    (width : ℕ) (pkey : List ℕ) (rest : Bytes)
    → width < 2 ^ 32
    → All (λ idx. idx < width) pkey
    → read_indices width (length pkey) (indices_bytes pkey ++ rest) ≡ ok (pkey, rest)
unfolding read_indices expect
read_indices-indices_bytes width [] rest w h = refl
read_indices-indices_bytes width (idx ∷ pkey) rest w h =
    rw
      (
        append_assoc (push_u32 [] (idx % 2 ^ 32)) (indices_bytes pkey) rest,
        small,
        read_u32-push_u32 idx (indices_bytes pkey ++ rest) (omega (arith, h.0, w)),
        in_range,
        read_indices-indices_bytes width pkey rest w h.1,
      )
      refl
  where
    small : idx % 2 ^ 32 ≡ idx
    small = omega (arith, h.0, w)

    in_range : ltb idx width ≡ true
    in_range = ground (arith, h.0)

-- A schema whose identifier, counts and lengths fit 32 bits, and whose key columns exist, is
-- decoded from its encoding, with the metadata derived anew.
pub decode_schema-encode_schema :
    (schema : Schema)
    → IsEncodableSchema schema
    → decode_schema (encode_schema schema)
      ≡ ok (new_schema schema.id schema.name schema.cols schema.pkey)
unfolding decode_schema expect
decode_schema-encode_schema schema s =
    rw
      (
        encode_schema-layout schema,
        read_u32-push_u32 schema.id _ s.id_fits,
        read_str-push_str schema.name _ s.name_fits,
        small (length schema.cols) s.cols_fit,
        read_u32-push_u32 (length schema.cols) _ s.cols_fit,
        read_columns-columns_bytes schema.cols _ s.cols_named,
        small (length schema.pkey) s.pkey_fits,
        read_u32-push_u32 (length schema.pkey) _ s.pkey_fits,
        read_indices_all (length schema.cols) schema.pkey s.cols_fit s.pkey_in_range,
      )
      refl
  where
    small : (n : ℕ) → n < 2 ^ 32 → n % 2 ^ 32 ≡ n
    small n h = omega (arith, h)

    read_indices_all :
        (width : ℕ) (pkey : List ℕ)
        → width < 2 ^ 32
        → All (λ idx. idx < width) pkey
        → read_indices width (length pkey) (indices_bytes pkey) ≡ ok (pkey, [])
    read_indices_all width pkey w h =
        ap (read_indices width (length pkey)) (sym (append-nil (indices_bytes pkey)))
        ∙ read_indices-indices_bytes width pkey [] w h
