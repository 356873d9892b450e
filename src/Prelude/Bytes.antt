-- ===== src/Prelude/Bytes.antt =====
-- Byte buffers: predicates on their elements, their Boolean equality, and cutting them in two.
use Prim.Native.Nat.{ℕ, zero, suc, ◌+◌, ◌≤◌, ◌<◌}
use mathlib.Core.Path.{◌≡◌, refl, sym, ap, subst}
use mathlib.Core.Logic.{◌↔◌}
use mathlib.Core.Bool.{Bool, true, false, ◌&&◌}
use mathlib.Core.List.{List, [], ◌∷◌, ◌++◌}
use native.Mathlib.Nat.{zero-add, suc-add}
use native.Mathlib.Omega.{arith}
use database_45_steps.Prelude.Tests.{◌==◌}
use database_45_steps.Prelude.Lists.{length, take, drop, replicate, take-append-drop}

abbrev pub All {ℓ κ} : {A : Type ℓ} → (A → Type κ) → List A → Type κ
All P [] = Unit
All P (x ∷ xs) = P x × All P xs

pub All-append {ℓ κ} :
    {A : Type ℓ} (P : A → Type κ) (xs ys : List A) → All P xs → All P ys → All P (xs ++ ys)
All-append P [] ys h k = k
All-append P (x ∷ xs) ys h k = (h.0, All-append P xs ys h.1 k)

pub All-append_left {ℓ κ} :
    {A : Type ℓ} (P : A → Type κ) (xs ys : List A) → All P (xs ++ ys) → All P xs
All-append_left P [] ys h = tt
All-append_left P (x ∷ xs) ys h = (h.0, All-append_left P xs ys h.1)

pub All-append_right {ℓ κ} :
    {A : Type ℓ} (P : A → Type κ) (xs ys : List A) → All P (xs ++ ys) → All P ys
All-append_right P [] ys h = h
All-append_right P (x ∷ xs) ys h = All-append_right P xs ys h.1

-- `std::byte` is a number below 256.
abbrev pub IsByte : ℕ → Type 0
IsByte b = b < 256

abbrev pub AreBytes : List ℕ → Type 0
AreBytes = All IsByte

module _ {ℓ} {A : Type ℓ} where
  pub take-append : (xs ys : List A) → take (length xs) (xs ++ ys) ≡ xs
  take-append [] ys = refl
  take-append (x ∷ xs) ys = ap (◌∷◌ x) (take-append xs ys)

  pub drop-append : (xs ys : List A) → drop (length xs) (xs ++ ys) ≡ ys
  drop-append [] ys = refl
  drop-append (x ∷ xs) ys = drop-append xs ys

  pub take-append_eq : (n : ℕ) (xs ys : List A) → length xs ≡ n → take n (xs ++ ys) ≡ xs
  take-append_eq n xs ys h = rw (← h) (take-append xs ys)

  pub drop-append_eq : (n : ℕ) (xs ys : List A) → length xs ≡ n → drop n (xs ++ ys) ≡ ys
  drop-append_eq n xs ys h = rw (← h) (drop-append xs ys)

  -- Two ways to cut a list in two: the longer front starts with the shorter one.
  pub append-split :
      (xs ys front back : List A)
      → xs ++ ys ≡ front ++ back
      → length xs ≤ length front
      → (middle : List A) × (front ≡ xs ++ middle) × (ys ≡ middle ++ back)
  append-split [] ys front back e h = (front, refl, e)
  append-split (x ∷ xs) ys [] back e h = absurd (omega arith)
  append-split (x ∷ xs) ys (y ∷ front) back e h =
      let (middle, p, q) = append-split xs ys front back (cc) (omega arith) in (middle, cc, q)

  pub drop_all : (n : ℕ) (xs : List A) → length xs ≤ n → drop n xs ≡ []
  drop_all zero [] h = refl
  drop_all zero (x ∷ xs) h = absurd (omega arith)
  drop_all (suc n) [] h = refl
  drop_all (suc n) (x ∷ xs) h = drop_all n xs (omega arith)

  pub take_all : (n : ℕ) (xs : List A) → length xs ≤ n → take n xs ≡ xs
  take_all zero [] h = refl
  take_all zero (x ∷ xs) h = absurd (omega arith)
  take_all (suc n) [] h = refl
  take_all (suc n) (x ∷ xs) h = ap (◌∷◌ x) (take_all n xs (omega arith))

  pub drop-drop : (m n : ℕ) (bs : List A) → drop (m + n) bs ≡ drop n (drop m bs)
  drop-drop zero n bs = rw (zero-add n) refl
  drop-drop (suc m) n [] = rw (suc-add m n) (sym (drop_all n [] (omega arith)))
  drop-drop (suc m) n (b ∷ bs) = rw (suc-add m n) (drop-drop m n bs)

-- `std::copy` of `src` to position `n` of a buffer. What would run past its end is dropped.
abbrev pub copy_to : List ℕ → ℕ → List ℕ → List ℕ
copy_to [] n src = []
copy_to (d ∷ dst) zero [] = d ∷ dst
copy_to (d ∷ dst) zero (s ∷ src) = s ∷ copy_to dst zero src
copy_to (d ∷ dst) (suc n) src = d ∷ copy_to dst n src

pub copy_to-replicate :
    (src : List ℕ) (n v : ℕ) → copy_to (replicate (length src + n) v) 0 src ≡ src ++ replicate n v
copy_to-replicate [] zero v = refl
copy_to-replicate [] (suc n) v = rw (zero-add (suc n)) refl
copy_to-replicate (s ∷ src) n v =
    rw (suc-add (length src) n) (ap (◌∷◌ s) (copy_to-replicate src n v))

pub copy_to-nil : (dst : List ℕ) (n : ℕ) → copy_to dst n [] ≡ dst
copy_to-nil [] n = refl
copy_to-nil (d ∷ dst) zero = refl
copy_to-nil (d ∷ dst) (suc n) = ap (◌∷◌ d) (copy_to-nil dst n)

pub copy_to-replicate_self : (src : List ℕ) (v : ℕ) → copy_to (replicate (length src) v) 0 src ≡ src
copy_to-replicate_self [] v = refl
copy_to-replicate_self (s ∷ src) v = ap (◌∷◌ s) (copy_to-replicate_self src v)

pub copy_to-append :
    (front back src : List ℕ)
    → copy_to (front ++ back) (length front) src ≡ front ++ copy_to back 0 src
copy_to-append [] back src = refl
copy_to-append (x ∷ front) back src = ap (◌∷◌ x) (copy_to-append front back src)

pub take-AreBytes : (n : ℕ) (bs : List ℕ) → AreBytes bs → AreBytes (take n bs)
take-AreBytes n bs h =
    All-append_left IsByte (take n bs) (drop n bs) (subst AreBytes (sym (take-append-drop n bs)) h)

pub drop-AreBytes : (n : ℕ) (bs : List ℕ) → AreBytes bs → AreBytes (drop n bs)
drop-AreBytes n bs h =
    All-append_right IsByte (take n bs) (drop n bs) (subst AreBytes (sym (take-append-drop n bs)) h)

-- A copy over the whole of a buffer.
pub copy_to_all : (dst src : List ℕ) → length dst ≡ length src → copy_to dst 0 src ≡ src
copy_to_all [] [] h = refl
copy_to_all [] (s ∷ src) h = absurd (omega arith)
copy_to_all (d ∷ dst) [] h = absurd (omega arith)
copy_to_all (d ∷ dst) (s ∷ src) h = ap (◌∷◌ s) (copy_to_all dst src (omega arith))

-- `subspan<offset, n>`
abbrev pub slice : ℕ → ℕ → List ℕ → List ℕ
slice offset n buf = take n (drop offset buf)

-- `operator==` of two byte vectors.
unfoldable pub beq_bytes : List ℕ → List ℕ → Bool
beq_bytes [] [] = true
beq_bytes [] (y ∷ ys) = false
beq_bytes (x ∷ xs) [] = false
beq_bytes (x ∷ xs) (y ∷ ys) = (x == y) && beq_bytes xs ys

pub beq_bytes_refl : (xs : List ℕ) → beq_bytes xs xs ≡ true
unfolding beq_bytes
beq_bytes_refl [] = refl
beq_bytes_refl (x ∷ xs) = ground (arith, beq_bytes_refl xs)

pub beq_bytes→eq : (xs ys : List ℕ) → beq_bytes xs ys ≡ true → xs ≡ ys
unfolding beq_bytes
beq_bytes→eq [] [] h = refl
beq_bytes→eq [] (y ∷ ys) h = cc
beq_bytes→eq (x ∷ xs) [] h = cc
beq_bytes→eq (x ∷ xs) (y ∷ ys) h = ground (arith, beq_bytes→eq xs ys)

pub beq_bytes_iff : (xs ys : List ℕ) → (beq_bytes xs ys ≡ true) ↔ (xs ≡ ys)
beq_bytes_iff xs ys = (beq_bytes→eq xs ys, λ e. rw e (beq_bytes_refl ys))
