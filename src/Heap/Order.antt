-- ===== src/Heap/Order.antt =====
-- The order that the loops keep. A Less is required to be a strict weak order, as container/heap
-- documents.
use pinchtab.Prelude.{
  get_elem?-lt, ℕ, ◌≤◌, ◌<◌, ◌≡◌, refl, subst, ◌≢◌, Bool, true, false, Option, none, some, List,
  length, get_elem?, Bool-cases, inl, inr,
}
use pinchtab.Heap.{less_opt, less_at, parent, swap}
use pinchtab.Heap.Swap.{exchange, get_elem?-swap}

pub record IsWeakOrder {ℓ} {A : Type ℓ} (less : A → A → Bool) : Type ℓ where
  pub asym : (x y : A) → less x y ≡ true → less y x ≡ false
  pub trans : (x y z : A) → less y x ≡ false → less z y ≡ false → less z x ≡ false

module _ {ℓ} {A : Type ℓ} (less : A → A → Bool) where
  -- Every edge into the places `lo ≤ parent c`, `c < n` is in order.
  abbrev pub IsHeapFrom : ℕ → List A → ℕ → Type 0
  IsHeapFrom lo h n = (c : ℕ) → c < n → 0 < c → lo ≤ parent c → less_at less h c (parent c) ≡ false

  abbrev pub IsHeap : List A → Type 0
  IsHeap h = IsHeapFrom 0 h (length h)

  -- The edges from the parent of `i` to the children of `i` are in order.
  abbrev pub IsBridged : ℕ → List A → ℕ → ℕ → Type 0
  IsBridged lo h i n =
      (c : ℕ)
      → c < n
      → 0 < c
      → parent c ≡ i
      → 0 < i
      → lo ≤ parent i
      → less_at less h c (parent i) ≡ false

  -- `lo ≤ parent c`, but for the edges out of `i`.
  pub record IsSinking (lo : ℕ) (h : List A) (i n : ℕ) : Type 0 where
    pub edges :
        (c : ℕ) → c < n → 0 < c → lo ≤ parent c → parent c ≢ i → less_at less h c (parent c) ≡ false
    pub bridge : IsBridged lo h i n

  -- The same, but for the edge into `i` too.
  pub record IsLoose (lo : ℕ) (h : List A) (i n : ℕ) : Type 0 where
    pub edges :
        (c : ℕ)
        → c < n
        → 0 < c
        → lo ≤ parent c
        → parent c ≢ i
        → c ≢ i
        → less_at less h c (parent c) ≡ false
    pub bridge : IsBridged lo h i n

  -- All edges but the one into `j`.
  pub record IsRising (h : List A) (j n : ℕ) : Type 0 where
    pub edges : (c : ℕ) → c < n → 0 < c → c ≢ j → less_at less h c (parent c) ≡ false
    pub bridge : IsBridged 0 h j n

  pub less_at-swap :
      (h : List A) (i j : ℕ)
      → i < length h
      → j < length h
      → (a b : ℕ) → less_at less (swap h i j) a b ≡ less_at less h (exchange i j a) (exchange i j b)
  unfolding less_at
  less_at-swap h i j hi hj a b =
      λ t. less_opt less (get_elem?-swap h i j hi hj a t) (get_elem?-swap h i j hi hj b t)

  module _ (order : IsWeakOrder less) where
    asym_at : (x y : Option A) → less_opt less x y ≡ true → less_opt less y x ≡ false
    asym_at none y p = cc
    asym_at (some x) none p = refl
    asym_at (some x) (some y) p = order.asym x y p

    trans_at :
        (x z : Option A) (y : A)
        → less_opt less (some y) x ≡ false
        → less_opt less z (some y) ≡ false
        → less_opt less z x ≡ false
    trans_at none none y p q = refl
    trans_at none (some z) y p q = refl
    trans_at (some x) none y p q = refl
    trans_at (some x) (some z) y p q = order.trans x y z p q

    pub less_at-asym :
        (h : List A) (i j : ℕ) → less_at less h i j ≡ true → less_at less h j i ≡ false
    unfolding less_at
    less_at-asym h i j p = asym_at (get_elem? h i) (get_elem? h j) p

    pub less_at_trans :
        (h : List A) (i j k : ℕ)
        → j < length h
        → less_at less h j i ≡ false
        → less_at less h k j ≡ false
        → less_at less h k i ≡ false
    unfolding less_at
    less_at_trans h i j k p q r =
        let (y, e) = get_elem?-lt h j p in
        trans_at (get_elem? h i) (get_elem? h k) y
          (subst (λ o. less_opt less o (get_elem? h i) ≡ false) e q)
          (subst (λ o. less_opt less (get_elem? h k) o ≡ false) e r)

    pub less_at_irrefl : (h : List A) (i : ℕ) → less_at less h i i ≡ false
    less_at_irrefl h i = elim (Bool-cases (less_at less h i i)) [
      | inl e ↦ less_at-asym h i i e
      | inr e ↦ e
    ]
