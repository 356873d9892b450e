-- ===== src/Table/RowCodec/Copy.antt =====
-- Which cells a row has after those of some columns were copied into it.
use database_45_steps.Prelude.{
  ℕ, zero, suc, ◌<◌, ◌≡◌, ◌≢◌, refl, sym, ap, ◌∙◌, arith, inl, inr, true, Bool-cases, none, some,
  Option-cases, List, [], ◌∷◌, ◌==◌, ==_iff, length, length-set, set, get_elem?, get_elem?-set_self,
  get_elem?-set_ne,
}
use database_45_steps.Table.Cell.{Cell, Row}
use database_45_steps.Table.Schema.Metadata.{has}
use database_45_steps.Table.RowCodec.Columns.{copy_at}

elsewhere :
    (idx i : ℕ) (indices : List ℕ) → idx ≢ i → has (idx ∷ indices) i ≡ true → has indices i ≡ true
elsewhere idx i indices ne e = ground (arith, e, ne)

get_elem?-lt : (row : Row) (i : ℕ) → i < length row → get_elem? row i ≢ none
get_elem?-lt [] i h e = omega arith
get_elem?-lt (x ∷ row) zero h e = cc e
get_elem?-lt (x ∷ row) (suc i) h e = get_elem?-lt row i (omega arith) e

module _ (row : Row) where
  -- A cell that is the row's already stays so.
  pub copy_at-same :
      (indices : List ℕ) (dest : Row) (i : ℕ)
      → length dest ≡ length row
      → i < length row
      → get_elem? dest i ≡ get_elem? row i
      → get_elem? (copy_at row indices dest) i ≡ get_elem? row i
  unfolding copy_at
  copy_at-same [] dest i l h e = e
  copy_at-same (idx ∷ indices) dest i l h e = elim (Option-cases (get_elem? row idx)) [
    | inl none_here ↦ rw (copy_at, none_here) (copy_at-same indices dest i l h e)
    | inr (c, here) ↦
        rw (copy_at, here)
          (copy_at-same indices (set dest idx c) i (length-set dest idx c ∙ l) h
            (set_agrees dest idx i c l h here e))
  ]
    where
      set_agrees :
          (dest : Row) (idx i : ℕ) (c : Cell)
          → length dest ≡ length row
          → i < length row
          → get_elem? row idx ≡ some c
          → get_elem? dest i ≡ get_elem? row i
          → get_elem? (set dest idx c) i ≡ get_elem? row i
      set_agrees dest idx i c l h here e = elim (Bool-cases (idx == i)) [
        | inl same ↦
            let eq : idx ≡ i = (==_iff idx i).0 same in
            rw (← eq) (get_elem?-set_self dest idx c (omega (arith, l, h, eq)) ∙ sym here)
        | inr other ↦ get_elem?-set_ne dest c (λ eq. ground (arith, other, eq)) ∙ e
      ]

  -- The cells of the given columns are the row's.
  pub copy_at-has :
      (indices : List ℕ) (dest : Row) (i : ℕ)
      → length dest ≡ length row
      → i < length row
      → has indices i ≡ true
      → get_elem? (copy_at row indices dest) i ≡ get_elem? row i
  unfolding copy_at
  copy_at-has [] dest i l h e = absurd (cc e)
  copy_at-has (idx ∷ indices) dest i l h e = elim (Option-cases (get_elem? row idx)) [
    | inl none_here ↦
        rw (copy_at, none_here)
          (copy_at-has indices dest i l h (
            elsewhere idx i indices
              (λ eq. get_elem?-lt row i h (ap (get_elem? row) (sym eq) ∙ none_here)) e))
    | inr (c, here) ↦
        rw (copy_at, here)
          (elim (Bool-cases (idx == i)) [
            | inl same ↦
                let eq : idx ≡ i = (==_iff idx i).0 same in
                copy_at-same indices (set dest idx c) i (length-set dest idx c ∙ l) h
                  (rw (← eq) (get_elem?-set_self dest idx c (omega (arith, l, h, eq)) ∙ sym here))
            | inr other ↦
                copy_at-has indices (set dest idx c) i (length-set dest idx c ∙ l) h
                  (elsewhere idx i indices (λ eq. ground (arith, other, eq)) e)
          ])
  ]

  pub length-copy_at :
      (indices : List ℕ) (dest : Row) → length (copy_at row indices dest) ≡ length dest
  unfolding copy_at
  length-copy_at [] dest = refl
  length-copy_at (idx ∷ indices) dest = elim (Option-cases (get_elem? row idx)) [
    | inl none_here ↦ rw (copy_at, none_here) (length-copy_at indices dest)
    | inr (c, here) ↦
        rw (copy_at, here) (length-copy_at indices (set dest idx c) ∙ length-set dest idx c)
  ]
