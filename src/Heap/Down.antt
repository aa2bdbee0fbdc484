-- ===== src/Heap/Down.antt =====
-- `down` moves an element towards the leaves until no child is less.
use mathlib.Core.List.Perm
use mathlib.Core.List.{Perm}
use native.Mathlib.Numerals.{add-one}
use pinchtab.Prelude.{
  ℕ, zero, suc, ◌+◌, ◌*◌, ◌≤◌, ◌<◌, ◌≡◌, refl, ap, ◌∙◌, ◌⊎◌, get_elem?, inl, inr, Bool, true, false,
  List, length, Bool-cases, ltb, ltb→lt, lt→ltb, arith,
}
use pinchtab.Heap.{less_at, parent, swap, child, down_loop, down}
use pinchtab.Heap.Swap.{exchange, length-swap, swap-perm, get_elem?-swap}
use pinchtab.Heap.Order.{
  IsWeakOrder, IsHeapFrom, IsSinking, IsLoose, less_at-swap, less_at-asym, less_at_trans,
  less_at_irrefl,
}

module _ {ℓ} {A : Type ℓ} (less : A → A → Bool) where
  -- `child` is a child of `i` below `n`.
  pub child_bounds :
      (h : List A) (i n : ℕ)
      → 2 * i + 1 < n
      → (child less h i n < n) × (i < child less h i n) × (parent (child less h i n) ≡ i)
  unfolding child
  child_bounds h i n p = ground arith

  -- `down` leaves the places from `n` on alone.
  pub down_loop-get_elem? :
      (fuel : ℕ) (h : List A) (i n c : ℕ)
      → n ≤ length h
      → n ≤ c
      → get_elem? (down_loop less fuel h i n).0 c ≡ get_elem? h c
  unfolding down_loop
  down_loop-get_elem? zero h i n c l p = refl
  down_loop-get_elem? (suc fuel) h i n c l p = elim (Bool-cases (ltb (2 * i + 1) n)) [
    | inr leaf ↦ rw leaf
    | inl inner ↦ elim (Bool-cases (less_at less h (child less h i n) i)) [
      | inr rests ↦ rw (inner, rests)
      | inl below ↦
          let j = child less h i n in
          let b = child_bounds h i n (ltb→lt _ _ inner) in
          let same = length-swap h i j (omega (arith, b)) (omega (arith, b)) in
          let at = get_elem?-swap h i j (omega (arith, b)) (omega (arith, b)) c in
          let apart : exchange i j c ≡ c = ground (arith, b) in
          rw (inner, below)
            (down_loop-get_elem? fuel (swap h i j) j n c (omega (arith, same)) p
              ∙ at
              ∙ ap (get_elem? h) apart)
    ]
  ]

  module _ (order : IsWeakOrder less) where
    -- No child of `i` is less than `child`.
    child_least :
        (h : List A) (i n c : ℕ)
        → n ≤ length h
        → c < n
        → 0 < c
        → parent c ≡ i
        → less_at less h c (child less h i n) ≡ false
    unfolding child
    child_least h i n c l p pos e =
        let c_is : (c ≡ 2 * i + 1) ⊎ (c ≡ 2 * i + 1 + 1) = omega arith in
        ground (
          arith,
          c_is,
          less_at_irrefl less order h c,
          less_at-asym less order h (2 * i + 1 + 1) (2 * i + 1),
        )

    pub sink-IsSinking :
        (lo : ℕ) (h : List A) (i n : ℕ)
        → n ≤ length h
        → lo ≤ i
        → 2 * i + 1 < n
        → less_at less h (child less h i n) i ≡ true
        → IsLoose less lo h i n
        → IsSinking less lo (swap h i (child less h i n)) (child less h i n) n
    sink-IsSinking lo h i n l low p below s =
        let j = child less h i n in
        let b = child_bounds h i n p in
        record {
          edges = λ c q pos at_lo off.
              let at = less_at-swap less h i j (omega (arith, b)) (omega (arith, b)) c (parent c) in
              ground (
                arith,
                b,
                at,
                s.edges c q pos at_lo,
                s.bridge j b.0,
                child_least h i n c l q pos,
                less_at-asym less order h j i below,
              );
          bridge = λ c q pos e far _.
              let at = less_at-swap less h i j (omega (arith, b)) (omega (arith, b)) c (parent j) in
              ground (arith, b, at, s.edges c q pos);
        }

    -- No child of `i` is less than `i` when its lesser child is not.
    pub settled :
        (lo : ℕ) (h : List A) (i n : ℕ)
        → n ≤ length h
        → (ltb (2 * i + 1) n ≡ false) ⊎ (less_at less h (child less h i n) i ≡ false)
        → (c : ℕ) → c < n
        → 0 < c
        → parent c ≡ i
        → less_at less h c (parent c) ≡ false
    settled lo h i n l (inl e) c p pos q = absurd (ground arith)
    settled lo h i n l (inr e) c p pos q =
        let b = child_bounds h i n (omega arith) in
        let old = less_at_trans less order h i (child less h i n) c (omega (arith, b)) e in
        ground (arith, old (child_least h i n c l p pos q))

    pub down_loop_lem :
        (lo fuel : ℕ) (h : List A) (i n : ℕ)
        → n ≤ length h
        → lo ≤ i
        → n < i + fuel
        → IsSinking less lo h i n
        → IsHeapFrom less lo (down_loop less fuel h i n).0 n
          × Perm (down_loop less fuel h i n).0 h
          × (i ≤ (down_loop less fuel h i n).1)
    unfolding down_loop
    down_loop_lem lo zero h i n l low f s = (
      (λ c q pos at_lo. s.edges c q pos at_lo (λ e. absurd (ground arith))),
      Perm.rfl,
      omega arith,
    )
    down_loop_lem lo (suc fuel) h i n l low f s = elim (Bool-cases (ltb (2 * i + 1) n)) [
      | inr leaf ↦ rw leaf (
        (λ c q pos at_lo.
            ground (arith, s.edges c q pos at_lo, settled lo h i n l (inl leaf) c q pos)),
        Perm.rfl,
        omega arith,
      )
      | inl inner ↦ elim (Bool-cases (less_at less h (child less h i n) i)) [
        | inr rests ↦
            rw (inner, rests)
              (
                (λ c q pos at_lo.
                    ground (arith, s.edges c q pos at_lo, settled lo h i n l (inr rests) c q pos)),
                Perm.rfl,
                omega arith,
              )
        | inl below ↦
            let j = child less h i n in
            let p : 2 * i + 1 < n = omega (arith, ltb→lt _ _ inner) in
            let b = child_bounds h i n p in
            let same = length-swap h i j (omega (arith, b)) (omega (arith, b)) in
            let sink = sink-IsSinking lo h i n l low p below (record {
              edges = λ c q pos at_lo off _. s.edges c q pos at_lo off;
              bridge = s.bridge;
            }) in
            let (heap, perm, later) =
              down_loop_lem lo fuel (swap h i j) j n (omega (arith, same)) (omega (arith, b))
                (omega (arith, b)) sink in
            rw (inner, below)
              (
                heap,
                Perm.trans perm (swap-perm h i j (omega (arith, b)) (omega (arith, b))),
                omega (arith, b),
              )
      ]
    ]

    pub down_stays :
        (h : List A) (i n : ℕ)
        → (ltb (2 * i + 1) n ≡ false) ⊎ (less_at less h (child less h i n) i ≡ false)
        → down less h i n ≡ (h, false)
    unfolding down down_loop
    down_stays h i n (inl leaf) = rw add-one (rw leaf (ground arith))
    down_stays h i n (inr rests) = elim (Bool-cases (ltb (2 * i + 1) n)) [
      | inr leaf ↦ rw add-one (rw leaf (ground arith))
      | inl inner ↦ rw add-one (rw (inner, rests) (ground arith))
    ]

    pub down_sinks :
        (h : List A) (i n : ℕ)
        → n ≤ length h
        → 2 * i + 1 < n
        → less_at less h (child less h i n) i ≡ true
        → IsLoose less 0 h i n
        → (k : List A) × (down less h i n ≡ (k, true))
          × IsHeapFrom less 0 k n
          × Perm k h
          × (get_elem? k n ≡ get_elem? h n)
    unfolding down down_loop
    down_sinks h i n l p below s =
        let j = child less h i n in
        let b = child_bounds h i n p in
        let same = length-swap h i j (omega (arith, b)) (omega (arith, b)) in
        let (heap, perm, later) =
          down_loop_lem 0 n (swap h i j) j n (omega (arith, same)) (omega arith) (omega (arith, b))
            (sink-IsSinking 0 h i n l (omega arith) p below s) in
        let kept = down_loop-get_elem? n (swap h i j) j n n (omega (arith, same)) (omega arith) in
        let at = get_elem?-swap h i j (omega (arith, b)) (omega (arith, b)) n in
        let apart : exchange i j n ≡ n = ground (arith, b) in
        let moved : ltb i (down_loop less n (swap h i j) j n).1 ≡ true =
          lt→ltb _ _ (omega (arith, b)) in
        (
          (down_loop less n (swap h i j) j n).0,
          rw add-one (rw (lt→ltb _ _ p, below) (rw moved)),
          heap,
          Perm.trans perm (swap-perm h i j (omega (arith, b)) (omega (arith, b))),
          kept ∙ at ∙ ap (get_elem? h) apart,
        )
