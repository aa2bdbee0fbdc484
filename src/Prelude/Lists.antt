-- ===== src/Prelude/Lists.antt =====
-- Lists measured and indexed by native numbers, under the library's names.
use Prim.Native.Nat.{ℕ, zero, suc, ◌+◌, ◌<◌}
use mathlib.Core.Path.{◌≡◌, refl, ap, ◌∙◌, subst}
use mathlib.Core.Logic.{∥∥₁_elim, inl, inr}
use pinchtab.Prelude.Tests.{ltb, ltb→lt, Bool-cases}
use native.Mathlib.Nat.{ℕ_set}
use mathlib.Core.List.{List, [], ◌∷◌, ◌++◌, Perm, Permᴰ, append_assoc, perm_append_comm}
use mathlib.Core.List.Perm
use mathlib.Core.Option.{Option, none, some}
use native.Mathlib.Omega.{arith}

module _ {ℓ} {A : Type ℓ} where
  abbrev pub length : List A → ℕ
  length [] = 0
  length (x ∷ xs) = suc (length xs)

  abbrev pub get_elem? : List A → ℕ → Option A
  get_elem? [] i = none
  get_elem? (x ∷ xs) zero = some x
  get_elem? (x ∷ xs) (suc i) = get_elem? xs i

  -- A write out of bounds changes nothing.
  abbrev pub set : List A → ℕ → A → List A
  set [] i v = []
  set (x ∷ xs) zero v = v ∷ xs
  set (x ∷ xs) (suc i) v = x ∷ set xs i v

  abbrev pub take : ℕ → List A → List A
  take zero xs = []
  take (suc n) [] = []
  take (suc n) (x ∷ xs) = x ∷ take n xs

  pub length-append : (xs ys : List A) → length (xs ++ ys) ≡ length xs + length ys
  length-append [] ys = omega arith
  length-append (x ∷ xs) ys = omega (arith, length-append xs ys)

  pub length-set : (xs : List A) (i : ℕ) (v : A) → length (set xs i v) ≡ length xs
  length-set [] i v = refl
  length-set (x ∷ xs) zero v = refl
  length-set (x ∷ xs) (suc i) v = ap suc (length-set xs i v)

  pub get_elem?-lt : (h : List A) (i : ℕ) → i < length h → (x : A) × (get_elem? h i ≡ some x)
  get_elem?-lt [] i p = elim p [ ]
  get_elem?-lt (x ∷ h) zero p = (x, refl)
  get_elem?-lt (x ∷ h) (suc i) p = get_elem?-lt h i (omega arith)

  pub get_elem?-ge : (h : List A) (i : ℕ) (x : A) → get_elem? h i ≡ some x → i < length h
  get_elem?-ge [] i x p = cc
  get_elem?-ge (y ∷ h) zero x p = omega arith
  get_elem?-ge (y ∷ h) (suc i) x p = omega (arith, get_elem?-ge h i x p)

module _ {ℓ} {A : Type ℓ} where
  length-permᴰ : {xs ys : List A} → Permᴰ xs ys → length xs ≡ length ys
  length-permᴰ Permᴰ.nil = refl
  length-permᴰ (Permᴰ.cons _ p) = ap suc (length-permᴰ p)
  length-permᴰ (Permᴰ.swap _ _) = refl
  length-permᴰ (Permᴰ.trans p q) = length-permᴰ p ∙ length-permᴰ q

  pub length-perm : {xs ys : List A} → Perm xs ys → length xs ≡ length ys
  length-perm p = ∥∥₁_elim p (ℕ_set _ _) length-permᴰ

  -- The middle parts of two joined lists change places.
  pub append-interchange : (a b c d : List A) → Perm ((a ++ b) ++ (c ++ d)) ((a ++ c) ++ (b ++ d))
  append-interchange a b c d =
      rw (append_assoc a b (c ++ d), append_assoc a c (b ++ d))
        (Perm.append_left a (
          rw (← append_assoc b c d, ← append_assoc c b d)
            (Perm.append_right d (perm_append_comm b c))))

abbrev pub All {ℓ κ} : {A : Type ℓ} → (A → Type κ) → List A → Type κ
All P [] = Unit
All P (x ∷ xs) = P x × All P xs

module _ {ℓ} {A : Type ℓ} where
  -- The list with the element at an index replaced or, by `none`, taken out.
  abbrev pub put : ℕ → Option A → List A → List A
  put i next [] = []
  put zero none (x ∷ xs) = xs
  put zero (some y) (x ∷ xs) = y ∷ xs
  put (suc i) next (x ∷ xs) = x ∷ put i next xs

  pub get_elem?-put :
      (i : ℕ) (x y : A) (xs : List A)
      → get_elem? xs i ≡ some x
      → get_elem? (put i (some y) xs) i ≡ some y
  get_elem?-put i x y [] h = cc
  get_elem?-put zero x y (z ∷ xs) h = refl
  get_elem?-put (suc i) x y (z ∷ xs) h = get_elem?-put i x y xs h

  -- The sum of a measure.
  module _ (f : A → ℕ) where
    abbrev pub total : List A → ℕ
    total [] = 0
    total (x ∷ xs) = f x + total xs

    abbrev pub measure : Option A → ℕ
    measure none = 0
    measure (some x) = f x

    pub total-put :
        (i : ℕ) (x : A) (next : Option A) (xs : List A)
        → get_elem? xs i ≡ some x
        → total (put i next xs) + f x ≡ total xs + measure next
    total-put i x next [] h = cc
    total-put zero x none (y ∷ xs) h = ground arith
    total-put zero x (some z) (y ∷ xs) h = ground arith
    total-put (suc i) x next (y ∷ xs) h = omega (arith, total-put i x next xs h)

    -- an element that counts, where the sum is not 0
    pub total_pos :
        (xs : List A) → 0 < total xs → (i : ℕ) × ((x : A) × ((get_elem? xs i ≡ some x) × (0 < f x)))
    total_pos [] h = absurd (omega (arith, h))
    total_pos (x ∷ xs) h = elim (Bool-cases (ltb 0 (f x))) [
      | inl counts ↦ (0, (x, (refl, ltb→lt 0 (f x) counts)))
      | inr zero' ↦
          let (i, (y, (e, c))) = total_pos xs (ground (arith, zero', h)) in (suc i, (y, (e, c)))
    ]

module _ {ℓ κ} {A : Type ℓ} {P : A → Type κ} where
  pub All-put :
      (i : ℕ) (next : Option A) (xs : List A)
      → All P xs
      → ((y : A) → next ≡ some y → P y)
      → All P (put i next xs)
  All-put i next [] a p = a
  All-put zero none (x ∷ xs) a p = a.1
  All-put zero (some y) (x ∷ xs) a p = (p y refl, a.1)
  All-put (suc i) next (x ∷ xs) a p = (a.0, All-put i next xs a.1 p)

pub All-get {ℓ κ} :
    {A : Type ℓ} (P : A → Type κ) (i : ℕ) (x : A) (xs : List A)
    → All P xs
    → get_elem? xs i ≡ some x
    → P x
All-get P i x [] a e = absurd cc
All-get P zero x (y ∷ xs) a e = let same : y ≡ x = cc in subst P same a.0
All-get P (suc i) x (y ∷ xs) a e = All-get P i x xs a.1 e

pub All-map {ℓ κ κ'} :
    {A : Type ℓ} {P : A → Type κ} {Q : A → Type κ'} (xs : List A)
    → ((x : A) → P x → Q x)
    → All P xs
    → All Q xs
All-map [] f a = tt
All-map (x ∷ xs) f a = (f x a.0, All-map xs f a.1)
