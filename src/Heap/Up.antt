-- ===== src/Heap/Up.antt =====
-- `up` moves an element towards the root until its parent is not greater.
use mathlib.Core.List.Perm
use mathlib.Core.List.{Perm}
use pinchtab.Prelude.{
  ℕ, zero, suc, ◌+◌, ◌≤◌, ◌<◌, ◌≡◌, ◌≢◌, refl, ap, ◌∙◌, get_elem?, inl, inr, Bool, true, List,
  length, Bool-cases, ◌==◌, arith,
}
use pinchtab.Heap.{less_at, parent, swap, up_loop, up}
use pinchtab.Heap.Swap.{exchange, length-swap, swap-perm, get_elem?-swap}
use pinchtab.Heap.Order.{
  IsWeakOrder, IsHeapFrom, IsRising, less_at-swap, less_at-asym, less_at_trans,
}

module _ {ℓ} {A : Type ℓ} (less : A → A → Bool) (order : IsWeakOrder less) where
  rise-IsRising :
      (h : List A) (j n : ℕ)
      → n ≤ length h
      → j < n
      → parent j ≢ j
      → less_at less h j (parent j) ≡ true
      → IsRising less h j n
      → IsRising less (swap h (parent j) j) (parent j) n
  rise-IsRising h j n l p up_ok below r = record {
    edges = λ c q pos off.
        let at = less_at-swap less h (parent j) j (omega arith) (omega arith) c (parent c) in
        let old = less_at_trans less order h j (parent j) c (omega arith) in
        ground (
          arith,
          at,
          r.edges c q pos,
          r.bridge c q pos,
          less_at-asym less order h j (parent j) below,
          old,
        );
    bridge = λ c q pos e far _.
        let at =
          less_at-swap less h (parent j) j (omega arith) (omega arith) c (parent (parent j)) in
        let old = less_at_trans less order h (parent (parent j)) (parent j) c (omega arith) in
        ground (arith, at, r.edges c q pos, r.edges (parent j) (omega arith) far, old);
  }

  -- `up` leaves the places past `j` alone.
  pub up_loop-get_elem? :
      (fuel : ℕ) (h : List A) (j c : ℕ)
      → j < length h
      → j < c
      → get_elem? (up_loop less fuel h j) c ≡ get_elem? h c
  unfolding up_loop
  up_loop-get_elem? zero h j c l p = refl
  up_loop-get_elem? (suc fuel) h j c l p = elim (Bool-cases (parent j == j)) [
    | inl top ↦ rw top
    | inr more ↦ elim (Bool-cases (less_at less h j (parent j))) [
      | inr ordered ↦ rw (more, ordered)
      | inl below ↦
          let same = length-swap h (parent j) j (omega arith) (omega arith) in
          let at = get_elem?-swap h (parent j) j (omega arith) (omega arith) c in
          let apart : exchange (parent j) j c ≡ c = ground arith in
          rw (more, below)
            (up_loop-get_elem? fuel (swap h (parent j) j) (parent j) c (omega (arith, same))
                (omega arith)
              ∙ at
              ∙ ap (get_elem? h) apart)
    ]
  ]

  -- Where only the edge into `j` may be out of order, `up` makes a heap of the same elements.
  pub up_loop_lem :
      (fuel : ℕ) (h : List A) (j n : ℕ)
      → n ≤ length h
      → j < n
      → j < fuel
      → IsRising less h j n
      → IsHeapFrom less 0 (up_loop less fuel h j) n × Perm (up_loop less fuel h j) h
  unfolding up_loop
  up_loop_lem zero h j n l p f r = elim f [ ]
  up_loop_lem (suc fuel) h j n l p f r = elim (Bool-cases (parent j == j)) [
    | inl top ↦ rw top ((λ c q pos _. r.edges c q pos (ground arith)), Perm.rfl)
    | inr more ↦ elim (Bool-cases (less_at less h j (parent j))) [
      | inl below ↦
          let same = length-swap h (parent j) j (omega arith) (omega arith) in
          let apart : parent j ≢ j = ground arith in
          let (heap, perm) =
            up_loop_lem fuel (swap h (parent j) j) (parent j) n (omega (arith, same)) (omega arith)
              (omega arith) (rise-IsRising h j n l p apart below r) in
          rw (more, below)
            (heap, Perm.trans perm (swap-perm h (parent j) j (omega arith) (omega arith)))
      | inr ordered ↦ rw (more, ordered) ((λ c q pos _. ground (arith, r.edges c q pos)), Perm.rfl)
    ]
  ]

  pub up_lem :
      (h : List A) (j n : ℕ)
      → n ≤ length h
      → j < n
      → IsRising less h j n
      → IsHeapFrom less 0 (up less h j) n × Perm (up less h j) h
  unfolding up
  up_lem h j n l p r = up_loop_lem (j + 1) h j n l p (omega arith) r
