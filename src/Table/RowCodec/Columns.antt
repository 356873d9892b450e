-- ===== src/Table/RowCodec/Columns.antt =====
-- The loops of the row codec, over lists of column indices.
use database_45_steps.Prelude.{
  ℕ, zero, suc, ◌+◌, ◌<◌, ◌≤◌, ◌≡◌, ◌≢◌, refl, ap, ◌∙◌, fun_ext, arith, inl, inr, true, false,
  Bool-cases, Option, none, some, List, [], ◌∷◌, ◌++◌, append_assoc, append-nil, ◌==◌, set,
  get_elem?, All,
}
use mathlib.Core.Path.{subst}
use database_45_steps.Core.Types.{Bytes}
use database_45_steps.Core.DbError.{Result, ok, err, fault, ◌>>=◌, make_error_code, to_int}
use database_45_steps.Table.Cell.{Cell, CellType, Row, type_of}
use database_45_steps.Table.CellCodec.{decode_cell}
use database_45_steps.Table.CellCodec.RoundTrip.{
  IsEncodable, cell_bytes, encode_cell_lem, decode_cell-cell_bytes,
}
use database_45_steps.Table.Schema.{Schema, ColumnHeader, is_pkey}
use database_45_steps.Table.Schema.Metadata.{has}
use database_45_steps.Table.RowCodec.{
  Status, put_cell, get_cell, encode_at, encode_from, decode_at, decode_from,
}

-- The columns that `encode_val` and `decode_val` visit, among the next `n` from `idx` on.
unfoldable pub value_columns : Schema → ℕ → ℕ → List ℕ
value_columns schema idx zero = []
value_columns schema idx (suc n) = elim (is_pkey schema idx) [
  | true ↦ value_columns schema (suc idx) n
  | false ↦ idx ∷ value_columns schema (suc idx) n
]

pub encode_from-at :
    (schema : Schema) (row : Row) (idx n : ℕ) (out : Bytes)
    → encode_from schema row idx n out ≡ encode_at schema row (value_columns schema idx n) out
unfolding encode_from encode_at value_columns
encode_from-at schema row idx zero out = refl
encode_from-at schema row idx (suc n) out = elim (Bool-cases (is_pkey schema idx)) [
  | inl e ↦ rw (encode_from, value_columns, e) (encode_from-at schema row (suc idx) n out)
  | inr e ↦
      rw (encode_from, value_columns, e)
        (ap (λ f. put_cell (get_elem? row idx) (get_elem? schema.cols idx) out >>= f)
          (fun_ext (λ out'. encode_from-at schema row (suc idx) n out')))
]

abbrev continue : Row → (Cell → Status × Row × Bytes) → Result Cell × Bytes → Status × Row × Bytes
continue row f (cell, rest) = elim cell [
  | ok c ↦ f c
  | err e ↦ (err e, row, rest)
  | fault ↦ (fault, row, rest)
]

pub decode_from-at :
    (schema : Schema) (row : Row) (idx n : ℕ) (buf : Bytes)
    → decode_from schema row idx n buf ≡ decode_at schema row (value_columns schema idx n) buf
unfolding decode_from decode_at value_columns
decode_from-at schema row idx zero buf = refl
decode_from-at schema row idx (suc n) buf = elim (Bool-cases (is_pkey schema idx)) [
  | inl e ↦ rw (decode_from, value_columns, e) (decode_from-at schema row (suc idx) n buf)
  | inr e ↦
      rw (decode_from, value_columns, e)
        (ap (λ f. continue row f (get_cell (get_elem? schema.cols idx) buf))
          (fun_ext (λ c.
            decode_from-at schema (set row idx c) (suc idx) n
              (get_cell (get_elem? schema.cols idx) buf).1)))
]

-- The cells of the given columns, taken from one row into another.
unfoldable pub copy_at : Row → List ℕ → Row → Row
copy_at row [] dest = dest
copy_at row (idx ∷ indices) dest = elim (get_elem? row idx) [
  | some c ↦ copy_at row indices (set dest idx c)
  | none ↦ copy_at row indices dest
]

-- A cell that was put was there, of the column's type, and its bytes were appended.
put_cell-ok :
    (c : Option Cell) (col : Option ColumnHeader) (out out' : Bytes)
    → put_cell c col out ≡ ok out'
    → (cell : Cell) × (header : ColumnHeader) × (c ≡ some cell)
      × (col ≡ some header)
      × (type_of cell ≡ header.cell_type)
      × (out' ≡ out ++ cell_bytes cell)
unfolding put_cell make_error_code to_int
put_cell-ok none col out out' h = absurd (cc h)
put_cell-ok (some c) none out out' h = absurd (cc h)
put_cell-ok (some c) (some col) out out' h = elim (encode_cell_lem c col.cell_type out) [
  | inl (same, e) ↦ (c, col, refl, refl, same, cc (rw e at h))
  | inr (differ, e) ↦ absurd (cc (rw e at h))
]

All-get :
    (row : Row) (i : ℕ) (c : Cell) → All IsEncodable row → get_elem? row i ≡ some c → IsEncodable c
All-get [] i c h e = absurd (cc e)
All-get (x ∷ row) zero c h e = subst IsEncodable (cc e) h.0
All-get (x ∷ row) (suc i) c h e = All-get row i c h.1 e

bind-ok :
    (r : Result Bytes) (f : Bytes → Result Bytes) (val : Bytes)
    → (r >>= f) ≡ ok val
    → (out : Bytes) × (r ≡ ok out) × (f out ≡ ok val)
bind-ok (ok out) f val h = (out, refl, h)
bind-ok (err e) f val h = absurd (cc h)
bind-ok fault f val h = absurd (cc h)

decode_one :
    (cell : Cell) (t : CellType) (body rest : Bytes)
    → type_of cell ≡ t
    → IsEncodable cell
    → decode_cell ((cell_bytes cell ++ body) ++ rest) t ≡ (ok cell, body ++ rest)
decode_one cell t body rest e h =
    ap (λ bs. decode_cell bs t) (append_assoc (cell_bytes cell) body rest)
    ∙ rw (← e) (decode_cell-cell_bytes cell (body ++ rest) h)

-- The loop of `decode_key`, from the result of reading one cell.
abbrev resume : Schema → Row → ℕ → List ℕ → Result Cell × Bytes → Status × Row × Bytes
resume schema dest idx indices (cell, rest) = elim cell [
  | ok c ↦ decode_at schema (set dest idx c) indices rest
  | err e ↦ (err e, dest, rest)
  | fault ↦ (fault, dest, rest)
]

decode_step :
    (schema : Schema) (row dest : Row) (idx : ℕ) (indices : List ℕ) (cell : Cell)
    (col : ColumnHeader) (body rest : Bytes)
    → get_elem? row idx ≡ some cell
    → get_elem? schema.cols idx ≡ some col
    → type_of cell ≡ col.cell_type
    → IsEncodable cell
    → decode_at schema (set dest idx cell) indices (body ++ rest)
      ≡ (ok tt, copy_at row indices (set dest idx cell), rest)
    → decode_at schema dest (idx ∷ indices) ((cell_bytes cell ++ body) ++ rest)
      ≡ (ok tt, copy_at row (idx ∷ indices) dest, rest)
unfolding decode_at copy_at get_cell
decode_step schema row dest idx indices cell col body rest here header same h e =
    ap (resume schema dest idx indices) (
      ap (λ c. get_cell c ((cell_bytes cell ++ body) ++ rest)) header
      ∙ decode_one cell col.cell_type body rest same h)
    ∙ e
    ∙ rw (copy_at, here) refl

-- Decoding what was encoded puts the cells back, whatever row they are put in.
pub decode_at-encode_at :
    (schema : Schema) (row dest : Row) (indices : List ℕ) (out val : Bytes)
    → All IsEncodable row
    → encode_at schema row indices out ≡ ok val
    → (body : Bytes) × (val ≡ out ++ body)
      × ((rest : Bytes)
          → decode_at schema dest indices (body ++ rest) ≡ (ok tt, copy_at row indices dest, rest))
unfolding encode_at decode_at copy_at get_cell
decode_at-encode_at schema row dest [] out val h e = ([], cc (e, append-nil out), λ rest. refl)
decode_at-encode_at schema row dest (idx ∷ indices) out val h e =
    let (out', p, q) =
      bind-ok (put_cell (get_elem? row idx) (get_elem? schema.cols idx) out)
        (encode_at schema row indices) val e in
    let (cell, col, here, header, same, appended) =
      put_cell-ok (get_elem? row idx) (get_elem? schema.cols idx) out out' p in
    let (body, split, reads) =
      decode_at-encode_at schema row (set dest idx cell) indices out' val h q in
    (
      cell_bytes cell ++ body,
      split ∙ ap (λ bs. bs ++ body) appended ∙ append_assoc out (cell_bytes cell) body,
      λ rest.
          decode_step schema row dest idx indices cell col body rest here header same
            (All-get row idx cell h here) (reads rest),
    )

-- The value columns are those that are not in the primary key.
pub value_columns-has :
    (schema : Schema) (idx n i : ℕ)
    → idx ≤ i
    → i < idx + n
    → is_pkey schema i ≡ false
    → has (value_columns schema idx n) i ≡ true
unfolding value_columns
value_columns-has schema idx zero i h k e = absurd (omega arith)
value_columns-has schema idx (suc n) i h k e = elim (Bool-cases (is_pkey schema idx)) [
  | inl p ↦
      rw (value_columns, p)
        (value_columns-has schema (suc idx) n i (omega (arith, le_ne idx i h (λ eq. cc (p, e, eq))))
          (omega arith) e)
  | inr p ↦
      rw (value_columns, p)
        (elim (Bool-cases (idx == i)) [
          | inl same ↦ rw same refl
          | inr other ↦ rw other (
              value_columns-has schema (suc idx) n i
                (omega (arith, le_ne idx i h (λ eq. ground (arith, other, eq)))) (omega arith) e)
        ])
]
  where
    le_ne : (a b : ℕ) → a ≤ b → a ≢ b → a < b
    le_ne a b h ne = omega arith
