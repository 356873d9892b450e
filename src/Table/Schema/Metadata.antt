-- ===== src/Table/Schema/Metadata.antt =====
-- The map of key columns that the constructor derives.
use database_45_steps.Prelude.{
  ℕ, zero, suc, ◌<◌, ◌≡◌, refl, sym, ap, ◌∙◌, arith, Bool, true, false, ◌||◌, List, [], ◌∷◌, ltb,
  ◌==◌, if◌then◌else◌, length, length-set, length-replicate, set, get_or, replicate,
}
use database_45_steps.Core.Types.{Bytes}
use database_45_steps.Table.Schema.{ColumnHeader, new_schema, mark, compute_metadata, is_pkey}

-- Whether an index is in a list of them.
abbrev pub has : List ℕ → ℕ → Bool
has [] i = false
has (idx ∷ indices) i = (idx == i) || has indices i

get_or-set :
    (flags : List Bool) (idx i : ℕ)
    → i < length flags
    → get_or (set flags idx true) i false ≡ ((idx == i) || get_or flags i false)
get_or-set [] idx i h = absurd (omega arith)
get_or-set (b ∷ flags) zero zero h = refl
get_or-set (b ∷ flags) zero (suc i) h = ground arith
get_or-set (b ∷ flags) (suc idx) zero h = ground arith
get_or-set (b ∷ flags) (suc idx) (suc i) h = ground (arith, get_or-set flags idx i)

or_comm_left : (a b c : Bool) → ((a || b) || c) ≡ (b || (a || c))
or_comm_left a b c = ground arith

marked_length :
    (flags : List Bool) (idx : ℕ)
    → length (if ltb idx (length flags) then set flags idx true else flags) ≡ length flags
marked_length flags idx = ground (arith, length-set flags idx true)

marked_here :
    (flags : List Bool) (idx i : ℕ)
    → i < length flags
    → get_or (if ltb idx (length flags) then set flags idx true else flags) i false
      ≡ ((idx == i) || get_or flags i false)
marked_here flags idx i h = ground (arith, get_or-set flags idx i)

mark-has :
    (flags : List Bool) (pkey : List ℕ) (i : ℕ)
    → i < length flags
    → get_or (mark flags pkey) i false ≡ (has pkey i || get_or flags i false)
unfolding mark
mark-has flags [] i h = refl
mark-has flags (idx ∷ pkey) i h =
    let next : List Bool = if ltb idx (length flags) then set flags idx true else flags in
    mark-has next pkey i (omega (arith, marked_length flags idx))
    ∙ ap (λ b. has pkey i || b) (marked_here flags idx i h)
    ∙ sym (or_comm_left (idx == i) (has pkey i) (get_or flags i false))

length-mark : (flags : List Bool) (pkey : List ℕ) → length (mark flags pkey) ≡ length flags
unfolding mark
length-mark flags [] = refl
length-mark flags (idx ∷ pkey) =
    length-mark (if ltb idx (length flags) then set flags idx true else flags) pkey
    ∙ marked_length flags idx

pub length-compute_metadata :
    (cols : List ColumnHeader) (pkey : List ℕ) → length (compute_metadata cols pkey) ≡ length cols
unfolding compute_metadata
length-compute_metadata cols pkey = length-mark _ pkey ∙ length-replicate (length cols) false

get_or-replicate : (n i : ℕ) → get_or (replicate n false) i false ≡ false
get_or-replicate zero i = refl
get_or-replicate (suc n) zero = refl
get_or-replicate (suc n) (suc i) = get_or-replicate n i

compute_metadata-has :
    (cols : List ColumnHeader) (pkey : List ℕ) (i : ℕ)
    → i < length cols
    → get_or (compute_metadata cols pkey) i false ≡ has pkey i
unfolding compute_metadata
compute_metadata-has cols pkey i h =
    mark-has (replicate (length cols) false) pkey i
      (omega (arith, h, length-replicate (length cols) false))
    ∙ ap (λ b. has pkey i || b) (get_or-replicate (length cols) i)
    ∙ ground arith

-- For a schema that the constructor built, `is_pkey` of an index below the number of columns is
-- whether the index is in the primary key, and of any other index it is false, also where the
-- primary key has indices beyond the columns.
pub is_pkey-has :
    (id : ℕ) (name : Bytes) (cols : List ColumnHeader) (pkey : List ℕ) (i : ℕ)
    → is_pkey (new_schema id name cols pkey) i ≡ (if ltb i (length cols) then has pkey i else false)
unfolding is_pkey
is_pkey-has id name cols pkey i =
    ground (arith, compute_metadata-has cols pkey i, length-compute_metadata cols pkey)
