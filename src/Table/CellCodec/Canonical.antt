-- ===== src/Table/CellCodec/Canonical.antt =====
-- The only bytes that `decode_cell` accepts are those that `encode_cell` writes.
use database_45_steps.Prelude.{
  ℕ, ◌+◌, ◌%◌, ◌^◌, ◌<◌, ◌≡◌, refl, sym, ap, ap₂, ◌∙◌, arith, [], ◌∷◌, ◌++◌, ltb, ◌==◌, length,
  take, drop, length-take, length-drop, take-append-drop, append_assoc, Bool-cases, inl, inr,
  ==_iff, take-AreBytes, AreBytes,
}
use mathlib.Core.Path.{subst₂}
use database_45_steps.Core.Types.{Bytes}
use database_45_steps.Core.DbError.{Result, ok}
use database_45_steps.Core.BitUtils.{pack_le, unpack_le}
use database_45_steps.Core.BitUtils.RoundTrip.{pack_le-unpack_le, unpack_le-lt}
use database_45_steps.Table.Int64.{IsI64, to_word, from_word, pack_le_i64, unpack_le_i64}
use database_45_steps.Table.Cell.{Cell, CellType, type_of}
use database_45_steps.Table.CellCodec.{decode_cell, decode_null, decode_i64, decode_str, null_byte}
use database_45_steps.Table.CellCodec.RoundTrip.{IsEncodable, cell_bytes}

to_word-from_word : (n : ℕ) → n < 2 ^ 64 → to_word (from_word n) ≡ n
unfolding to_word from_word
to_word-from_word n h = ground arith

IsI64-from_word : (n : ℕ) → n < 2 ^ 64 → IsI64 (from_word n)
unfolding from_word
IsI64-from_word n h = ground arith

-- Eight bytes are those of the integer that is read from them.
pack_le_i64-unpack_le_i64 :
    (buf : Bytes) → AreBytes buf → length buf ≡ 8 → pack_le_i64 (unpack_le_i64 buf) ≡ buf
unfolding pack_le_i64 unpack_le_i64
pack_le_i64-unpack_le_i64 buf bytes h =
    let small : unpack_le buf < 2 ^ 64 =
      omega (arith, unpack_le-lt buf bytes, ap (λ n. 256 ^ n) h) in
    ap (pack_le 8) (to_word-from_word (unpack_le buf) small)
    ∙ ap (λ n. pack_le n (unpack_le buf)) (sym h)
    ∙ pack_le-unpack_le buf bytes

-- What a decoded cell has to do with the bytes that it was read from.
pub record IsRead (buf : Bytes) (t : CellType) (c : Cell) (rest : Bytes) : Type 0 where
  pub typed : type_of c ≡ t
  pub encodable : IsEncodable c
  pub bytes : buf ≡ cell_bytes c ++ rest

transfer :
    (buf : Bytes) (t : CellType) {c c' : Cell} {rest rest' : Bytes}
    → IsRead buf t c rest
    → ◌≡◌ {A = Result Cell × Bytes} (ok c, rest) (ok c', rest')
    → IsRead buf t c' rest'
transfer buf t {c} {c'} {rest} {rest'} h e =
    let same_cell : c ≡ c' = cc in
    let same_rest : rest ≡ rest' = cc in subst₂ (IsRead buf t) same_cell same_rest h

null-IsRead :
    (buf : Bytes) (c : Cell) (rest : Bytes)
    → decode_null buf ≡ (ok c, rest)
    → IsRead buf CellType.no_type c rest
unfolding type_of cell_bytes
null-IsRead [] c rest h = absurd (cc h)
null-IsRead (b ∷ buf) c rest h = elim (Bool-cases (b == null_byte)) [
  | inl e ↦
      transfer (b ∷ buf) CellType.no_type
        (record {
          typed = refl;
          encodable = tt;
          bytes = ap (λ x. x ∷ buf) ((==_iff b null_byte).0 e);
        })
        (rw e at h)
  | inr e ↦ absurd (cc (rw e at h))
]

i64-IsRead :
    (buf : Bytes) (c : Cell) (rest : Bytes)
    → AreBytes buf
    → decode_i64 buf ≡ (ok c, rest)
    → IsRead buf CellType.i64 c rest
unfolding type_of cell_bytes
i64-IsRead buf c rest bytes h = elim (Bool-cases (ltb (length buf) 8)) [
  | inl e ↦ absurd (cc (rw e at h))
  | inr e ↦
      let front = take-AreBytes 8 buf bytes in
      let eight : length (take 8 buf) ≡ 8 = ground (arith, length-take 8 buf) in
      transfer buf CellType.i64
        (record {
          typed = refl;
          encodable = i64_fits (take 8 buf) front eight;
          bytes =
              sym (take-append-drop 8 buf)
              ∙ ap (λ bs. bs ++ drop 8 buf)
                  (sym (pack_le_i64-unpack_le_i64 (take 8 buf) front eight));
        })
        (rw e at h)
]
  where
    i64_fits : (bs : Bytes) → AreBytes bs → length bs ≡ 8 → IsI64 (unpack_le_i64 bs)
    i64_fits bs bytes h =
        unfold unpack_le_i64 in
        IsI64-from_word (unpack_le bs) (omega (arith, unpack_le-lt bs bytes, ap (λ n. 256 ^ n) h))

-- The length in front of a string, and the string.
string_bytes :
    (head val : Bytes)
    → AreBytes head
    → length head ≡ 4
    → unpack_le head ≡ length val
    → head ++ val ≡ pack_le 4 (length val % 2 ^ 32) ++ val
string_bytes head val bytes four size =
    let small : length val < 2 ^ 32 =
      omega (arith, size, unpack_le-lt head bytes, ap (λ n. 256 ^ n) four) in
    ap (λ bs. bs ++ val)
      (sym (pack_le-unpack_le head bytes) ∙ ap₂ pack_le four (size ∙ omega (arith, small)))

str-IsRead :
    (buf : Bytes) (c : Cell) (rest : Bytes)
    → AreBytes buf
    → decode_str buf ≡ (ok c, rest)
    → IsRead buf CellType.str c rest
unfolding type_of cell_bytes
str-IsRead buf c rest bytes h =
    let len : ℕ = unpack_le (take 4 buf) in
    elim (Bool-cases (ltb (length buf) 4)) [
      | inl e ↦ absurd (cc (rw e at h))
      | inr e ↦ elim (Bool-cases (ltb (length buf) (4 + len))) [
        | inl e' ↦ absurd (cc (rw (e, e') at h))
        | inr e' ↦
            let val = take len (drop 4 buf) in
            let front = take-AreBytes 4 buf bytes in
            let four : length (take 4 buf) ≡ 4 = ground (arith, length-take 4 buf) in
            let size : len ≡ length val =
              ground (arith, length-take len (drop 4 buf), length-drop 4 buf) in
            transfer buf CellType.str
              (record {
                typed = refl;
                encodable =
                    omega (arith, size, unpack_le-lt (take 4 buf) front, ap (λ n. 256 ^ n) four);
                bytes =
                    sym (take-append-drop 4 buf)
                    ∙ ap (λ bs. take 4 buf ++ bs) (sym (take-append-drop len (drop 4 buf)))
                    ∙ sym (append_assoc (take 4 buf) val (drop len (drop 4 buf)))
                    ∙ ap (λ bs. bs ++ drop len (drop 4 buf))
                        (string_bytes (take 4 buf) val front four size);
              })
              (rw (e, e') at h)
      ]
    ]

-- A cell that `CellCodec::decode` reads from bytes as a type is of that type, is empty or an
-- integer of 64 bits or a string whose length fits 32 bits, and the bytes are exactly its
-- encoding, followed by what is left.
pub decode_cell-IsRead :
    (buf : Bytes) (t : CellType) (c : Cell) (rest : Bytes)
    → AreBytes buf
    → decode_cell buf t ≡ (ok c, rest)
    → IsRead buf t c rest
unfolding decode_cell
decode_cell-IsRead buf CellType.no_type c rest bytes h = null-IsRead buf c rest h
decode_cell-IsRead buf CellType.i64 c rest bytes h = i64-IsRead buf c rest bytes h
decode_cell-IsRead buf CellType.str c rest bytes h = str-IsRead buf c rest bytes h
