-- ===== src/Heap/Remove.antt =====
-- What Remove does to a heap, at any place.
use mathlib.Core.List.Perm
use mathlib.Core.List.{Perm}
use pinchtab.Prelude.{
  get_elem?-ge, ℕ, suc, ◌+◌, ◌*◌, ◌-◌, ◌<◌, ◌≡◌, ap, ◌∙◌, ◌⊎◌, inl, inr, Bool, false, some, List,
  ◌∷◌, length, length-perm, get_elem?, take, Bool-cases, ltb, ltb→lt, if◌then◌else◌, ◌==◌, ==_iff,
  arith,
}
use pinchtab.Heap.{less_at, parent, swap, child, up, down, remove}
use pinchtab.Heap.Swap.{exchange, length-swap, swap-perm, get_elem?-swap}
use pinchtab.Heap.Order.{IsWeakOrder, IsHeapFrom, IsHeap, IsLoose, less_at-swap, less_at_trans}
use pinchtab.Heap.Up.{up_loop-get_elem?, up_lem}
use pinchtab.Heap.Down.{settled, down_stays, down_sinks}
use pinchtab.Heap.Ops.{pop_last_lem}

module _ {ℓ} {A : Type ℓ} (less : A → A → Bool) (order : IsWeakOrder less) where
  -- The slice after Remove's `if !down(h, i, n) { up(h, i) }`.
  abbrev moved_either : List A → ℕ → ℕ → List A
  moved_either h i n = let (sunk, moved) = down less h i n in if moved then sunk else up less sunk i

  abbrev Restored : List A → ℕ → List A → Type ℓ
  Restored h n k = IsHeapFrom less 0 k n × Perm k h × (get_elem? k n ≡ get_elem? h n)

  stays_lem :
      (h : List A) (i n : ℕ)
      → n < length h
      → i < n
      → IsLoose less 0 h i n
      → (ltb (2 * i + 1) n ≡ false) ⊎ (less_at less h (child less h i n) i ≡ false)
      → Restored h n (moved_either h i n)
  unfolding up
  stays_lem h i n l p s stay =
      let (heap, perm) = up_lem less order h i n (omega arith) p (record {
        edges = λ c q pos off.
            ground (arith, s.edges c q pos, settled less order 0 h i n (omega arith) stay c q pos);
        bridge = s.bridge;
      }) in
      rw (down_stays less order h i n stay)
        (heap, perm, up_loop-get_elem? less order (i + 1) h i n (omega arith) p)

  moved_either_lem :
      (h : List A) (i n : ℕ)
      → n < length h
      → i < n
      → IsLoose less 0 h i n
      → Restored h n (moved_either h i n)
  moved_either_lem h i n l p s = elim (Bool-cases (ltb (2 * i + 1) n)) [
    | inr leaf ↦ stays_lem h i n l p s (inl leaf)
    | inl inner ↦ elim (Bool-cases (less_at less h (child less h i n) i)) [
      | inr rests ↦ stays_lem h i n l p s (inr rests)
      | inl below ↦
          let (k, e, heap, perm, kept) =
            down_sinks less order h i n (omega arith) (ltb→lt _ _ inner) below s in
          rw e (heap, perm, kept)
    ]
  ]

  -- The last element, put in place of the one at `i`, may be out of order both ways.
  swap-IsLoose :
      (h : List A) (i n : ℕ)
      → n < length h
      → i < n
      → IsHeap less h
      → IsLoose less 0 (swap h i n) i n
  swap-IsLoose h i n l p heap = record {
    edges = λ c q pos low off out.
        let at = less_at-swap less h i n (omega arith) l c (parent c) in ground (arith, at, heap c);
    bridge = λ c q pos e far low.
        let at = less_at-swap less h i n (omega arith) l c (parent i) in
        let old = less_at_trans less order h (parent i) i c (omega arith) in
        ground (arith, at, heap c, heap i, old);
  }

  -- Remove at any place: the element there, and a heap of the others.
  pub remove_lem :
      (h : List A) (i : ℕ) (x : A)
      → IsHeap less h
      → get_elem? h i ≡ some x
      → (rest : List A) × (remove less h i ≡ some (x, rest)) × IsHeap less rest × Perm (x ∷ rest) h
  unfolding remove
  remove_lem h i x heap e =
      let n = length h - 1 in
      let p = get_elem?-ge h i x e in
      let size : length h ≡ suc n = omega arith in
      elim (Bool-cases (n == i)) [
        | inl end ↦
            let (out, kept, all) =
              pop_last_lem less order h n x size (ap (get_elem? h) ((==_iff n i).0 end) ∙ e)
                (λ c q pos low. heap c (omega arith) pos low) in
            (take n h, rw end out, kept, all)
        | inr inner ↦
            let q : i < n = ground arith in
            let same = length-swap h i n p (omega arith) in
            let (heap', perm, kept) =
              moved_either_lem (swap h i n) i n (omega (arith, same)) q
                (swap-IsLoose h i n (omega arith) q heap) in
            let there : exchange i n n ≡ i = ground arith in
            let k = moved_either (swap h i n) i n in
            let (out, rest, all) =
              pop_last_lem less order k n x (length-perm perm ∙ same ∙ size)
                (kept ∙ get_elem?-swap h i n p (omega arith) n ∙ ap (get_elem? h) there ∙ e)
                heap' in
            (
              take n k,
              rw inner out,
              rest,
              Perm.trans all (Perm.trans perm (swap-perm h i n p (omega arith))),
            )
      ]
