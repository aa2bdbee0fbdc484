-- ===== src/Heap/Swap.antt =====
-- What a swap of two elements does to a slice.
use mathlib.Core.List.Perm
use mathlib.Core.List.{Perm}
use pinchtab.Prelude.{
  ℕ, zero, suc, ◌<◌, ◌≡◌, refl, sym, ◌∙◌, Bool, true, false, some, List, [], ◌∷◌, length, get_elem?,
  get_elem?-lt, set, length-set, ◌==◌, if◌then◌else◌, arith,
}
use pinchtab.Heap.{swap}

-- the place that a swap of `i` and `j` brings to `c`
abbrev pub exchange : ℕ → ℕ → ℕ → ℕ
exchange i j c = if j == c then i else if i == c then j else c

module _ {ℓ} {A : Type ℓ} where
  pub get_elem?-set :
      (h : List A) (i j : ℕ) (v : A)
      → i < length h
      → get_elem? (set h i v) j ≡ (if i == j then some v else get_elem? h j)
  get_elem?-set [] i j v p = elim p [ ]
  get_elem?-set (x ∷ h) zero zero v p = refl
  get_elem?-set (x ∷ h) zero (suc j) v p = ground arith
  get_elem?-set (x ∷ h) (suc i) zero v p = ground arith
  get_elem?-set (x ∷ h) (suc i) (suc j) v p = ground (arith, get_elem?-set h i j v)

  set-perm : (h : List A) (i : ℕ) (v x : A) → get_elem? h i ≡ some x → Perm (x ∷ set h i v) (v ∷ h)
  set-perm [] i v x p = cc
  set-perm (y ∷ h) zero v x p = ground (arith, Perm.swap v x h)
  set-perm (y ∷ h) (suc i) v x p =
      Perm.trans (Perm.swap y x _) (Perm.trans (Perm.cons y (set-perm h i v x p)) (Perm.swap v y h))

  swap_lem :
      (h : List A) (i j : ℕ) (x y : A)
      → get_elem? h i ≡ some x
      → get_elem? h j ≡ some y
      → swap h i j ≡ set (set h i y) j x
  unfolding swap
  swap_lem h i j x y p q = rw (p, q, swap)

  module _ (h : List A) (i j : ℕ) (hi : i < length h) (hj : j < length h) where
    choose :
        (c : ℕ) (a b : Bool) (x y : A)
        → get_elem? h i ≡ some x
        → get_elem? h j ≡ some y
        → (if a then some x else if b then some y else get_elem? h c)
          ≡ get_elem? h (if a then i else if b then j else c)
    choose c true b x y p q = sym p
    choose c false true x y p q = sym q
    choose c false false x y p q = refl

    pub get_elem?-swap : (c : ℕ) → get_elem? (swap h i j) c ≡ get_elem? h (exchange i j c)
    get_elem?-swap c =
        let (x, p) = get_elem?-lt h i hi in
        let (y, q) = get_elem?-lt h j hj in
        rw (swap_lem h i j x y p q) (
          rw (get_elem?-set (set h i y) j c x (omega (arith, length-set h i y)))
            (rw (get_elem?-set h i c y hi) (choose c (j == c) (i == c) x y p q)))

    pub length-swap : length (swap h i j) ≡ length h
    length-swap =
        let (x, p) = get_elem?-lt h i hi in
        let (y, q) = get_elem?-lt h j hj in
        rw (swap_lem h i j x y p q) (length-set _ j x ∙ length-set h i y)

    pub swap-perm : Perm (swap h i j) h
    swap-perm =
        let (x, p) = get_elem?-lt h i hi in
        let (y, q) = get_elem?-lt h j hj in
        let kept : get_elem? (set h i y) j ≡ some y =
          rw (get_elem?-set h i j y hi) (ground arith) in
        rw (swap_lem h i j x y p q)
          (Perm.cons_inv (Perm.trans (set-perm (set h i y) j x y kept) (set-perm h i y x p)))
