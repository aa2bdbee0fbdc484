-- ===== src/Heap/Ops.antt =====
-- What Init, Push, Pop and Remove do to a heap.
use mathlib.Core.List.Perm
use mathlib.Core.List.{Perm, perm_middle, append-nil}
use pinchtab.Prelude.{
  get_elem?-lt, get_elem?-ge, ℕ, zero, suc, ◌+◌, ◌-◌, ◌/◌, ◌≤◌, ◌<◌, ◌≡◌, refl, ap, sym, ◌∙◌, subst,
  Bool, false, some, List, [], ◌∷◌, ◌++◌, length, length-append, length-perm, get_elem?, take, All,
  arith,
}
use pinchtab.Heap.{
  less_opt, less_at, parent, swap, down_loop, down, init_loop, init, push, pop_last, pop,
}
use pinchtab.Heap.Swap.{exchange, length-swap, swap-perm, get_elem?-swap}
use pinchtab.Heap.Order.{
  IsWeakOrder, IsHeapFrom, IsHeap, IsSinking, less_at-swap, less_at_trans, less_at_irrefl,
}
use pinchtab.Heap.Up.{up_lem}
use pinchtab.Heap.Down.{down_loop-get_elem?, down_loop_lem}

module _ {ℓ} {A : Type ℓ} where
  get_elem?-take : (n : ℕ) (h : List A) (c : ℕ) → c < n → get_elem? (take n h) c ≡ get_elem? h c
  get_elem?-take zero h c p = elim p [ ]
  get_elem?-take (suc n) [] c p = refl
  get_elem?-take (suc n) (x ∷ h) zero p = refl
  get_elem?-take (suc n) (x ∷ h) (suc c) p = get_elem?-take n h c (omega arith)

  length-take : (n : ℕ) (h : List A) → n ≤ length h → length (take n h) ≡ n
  length-take zero h p = refl
  length-take (suc n) [] p = elim p [ ]
  length-take (suc n) (x ∷ h) p = ap suc (length-take n h (omega arith))

  take_last :
      (n : ℕ) (h : List A) (x : A)
      → length h ≡ suc n
      → get_elem? h n ≡ some x
      → Perm (x ∷ take n h) h
  take_last n [] x p q = cc
  take_last zero (y ∷ []) x p q = ground (arith, Perm.refl (y ∷ []))
  take_last zero (y ∷ z ∷ h) x p q = absurd (omega arith)
  take_last (suc n) (y ∷ h) x p q =
      Perm.trans (Perm.swap y x (take n h)) (Perm.cons y (take_last n h x (omega arith) q))

  concat-perm : (h : List A) (x : A) → Perm (h ++ x ∷ []) (x ∷ h)
  concat-perm h x = rw (append-nil h) at (perm_middle {a = x} h [])

  get_elem?-append :
      (h : List A) (x : A) (c : ℕ) → c < length h → get_elem? (h ++ x ∷ []) c ≡ get_elem? h c
  get_elem?-append [] x c p = elim p [ ]
  get_elem?-append (y ∷ h) x zero p = refl
  get_elem?-append (y ∷ h) x (suc c) p = get_elem?-append h x c (omega arith)

  All-of_get {κ} :
      (P : A → Type κ) (h : List A) → ((i : ℕ) (y : A) → get_elem? h i ≡ some y → P y) → All P h
  All-of_get P [] f = tt
  All-of_get P (x ∷ h) f = (f 0 x refl, All-of_get P h (λ i y e. f (suc i) y e))

module _ {ℓ} {A : Type ℓ} (less : A → A → Bool) where
  -- Slices that agree below `n` have the same edges there.
  IsHeapFrom-agree :
      (lo n : ℕ) (h k : List A)
      → ((c : ℕ) → c < n → get_elem? k c ≡ get_elem? h c)
      → IsHeapFrom less lo h n
      → IsHeapFrom less lo k n
  unfolding less_at
  IsHeapFrom-agree lo n h k same heap c p pos low =
      (λ t. less_opt less (same c p t) (same (parent c) (omega arith) t)) ∙ heap c p pos low

  module _ (order : IsWeakOrder less) where
    down_lem :
        (lo : ℕ) (h : List A) (i n : ℕ)
        → n ≤ length h
        → lo ≤ i
        → IsSinking less lo h i n
        → IsHeapFrom less lo (down less h i n).0 n × Perm (down less h i n).0 h
    unfolding down
    down_lem lo h i n l low s =
        let (heap, perm, _) = down_loop_lem less order lo (n + 1) h i n l low (omega arith) s in
        (heap, perm)

    init_loop_lem :
        (k : ℕ) (h : List A)
        → IsHeapFrom less k h (length h)
        → IsHeap less (init_loop less k h) × Perm (init_loop less k h) h
    unfolding init_loop
    init_loop_lem zero h heap = (heap, Perm.rfl)
    init_loop_lem (suc i) h heap =
        let (heap', perm) = down_lem i h i (length h) (omega arith) (omega arith) (record {
          edges = λ c p pos low off. heap c p pos (omega arith);
          bridge = λ c p pos e far low. absurd (omega arith);
        }) in
        let same = length-perm perm in
        let (done, perm') =
          init_loop_lem i (down less h i (length h)).0
            (subst (IsHeapFrom less i (down less h i (length h)).0) (sym same) heap') in
        (done, Perm.trans perm' perm)

    -- Init orders any slice.
    pub init_lem : (h : List A) → IsHeap less (init less h) × Perm (init less h) h
    unfolding init
    init_lem h = init_loop_lem (length h / 2) h (λ c p pos low. absurd (omega arith))

    pub push_lem :
        (h : List A) (x : A)
        → IsHeap less h
        → IsHeap less (push less h x) × Perm (push less h x) (x ∷ h)
    unfolding push
    push_lem h x heap =
        let long = length-append h (x ∷ []) in
        let (heap', perm) =
          up_lem less order (h ++ x ∷ []) (length h) (length (h ++ x ∷ [])) (omega arith)
            (omega (arith, long))
            (record {
              edges = λ c p pos off.
                  IsHeapFrom-agree 0 (length h) h (h ++ x ∷ []) (get_elem?-append h x) heap c
                    (omega (arith, long)) pos (omega arith);
              bridge = λ c p pos e far _. absurd (omega (arith, long));
            }) in
        (
          subst (IsHeapFrom less 0 (push less h x)) (sym (length-perm perm)) heap',
          Perm.trans perm (concat-perm h x),
        )

    -- A slice that is a heap but for its last element loses just that element.
    pub pop_last_lem :
        (h : List A) (n : ℕ) (x : A)
        → length h ≡ suc n
        → get_elem? h n ≡ some x
        → IsHeapFrom less 0 h n
        → (pop_last h ≡ some (x, take n h)) × IsHeap less (take n h) × Perm (x ∷ take n h) h
    unfolding pop_last
    pop_last_lem h n x l e heap =
        let last : length h - 1 ≡ n = omega arith in
        let short = length-take n h (omega arith) in
        (
          rw (last, e, pop_last) (rw last),
          subst (IsHeapFrom less 0 (take n h)) (sym short)
              (IsHeapFrom-agree 0 n h (take n h) (get_elem?-take n h) heap),
          take_last n h x l e,
        )

    root_least_below :
        (k : ℕ) (h : List A) (i : ℕ)
        → IsHeap less h
        → i < k
        → i < length h
        → less_at less h i 0 ≡ false
    root_least_below zero h i heap f p = elim f [ ]
    root_least_below (suc k) h zero heap f p = less_at_irrefl less order h 0
    root_least_below (suc k) h (suc i) heap f p =
        less_at_trans less order h 0 (parent (suc i)) (suc i) (omega arith)
          (root_least_below k h (parent (suc i)) heap (omega arith) (omega arith))
          (heap (suc i) p (omega arith) (omega arith))

    -- No element of a heap is less than its root.
    pub root_least :
        (h : List A) (x : A)
        → IsHeap less h
        → get_elem? h 0 ≡ some x
        → All (λ y. less y x ≡ false) h
    unfolding less_at
    root_least h x heap e = All-of_get _ h λ i y f.
        let at = root_least_below (suc i) h i heap (omega arith) (get_elem?-ge h i y f) in
        subst (λ o. less_opt less (some y) o ≡ false) e
          (subst (λ o. less_opt less o (get_elem? h 0) ≡ false) f at)

    -- What Pop returns: a least element, and a heap of the others.
    pub record Popped (h : List A) (r : A × List A) : Type ℓ where
      pub heap : IsHeap less r.1
      pub same : Perm (r.0 ∷ r.1) h
      pub least : All (λ y. less y r.0 ≡ false) h

    pub pop_lem :
        (h : List A)
        → IsHeap less h
        → 0 < length h
        → (r : A × List A) × (pop less h ≡ some r) × Popped h r
    unfolding pop down
    pop_lem h heap p =
        let n = length h - 1 in
        let (x, e) = get_elem?-lt h 0 p in
        let h1 = swap h 0 n in
        let same = length-swap h 0 n p (omega arith) in
        let (heap', perm) = down_lem 0 h1 0 n (omega (arith, same)) (omega arith) (record {
          edges = λ c q pos low off.
              let at = less_at-swap less h 0 n p (omega arith) c (parent c) in
              ground (arith, at, heap c);
          bridge = λ c q pos f far low. absurd (omega arith);
        }) in
        let h2 = (down_loop less (n + 1) h1 0 n).0 in
        let kept =
          down_loop-get_elem? less (n + 1) h1 0 n n (omega (arith, same)) (omega arith)
          ∙ get_elem?-swap h 0 n p (omega arith) n in
        let root : exchange 0 n n ≡ 0 = ground arith in
        let long = length-perm perm in
        let (out, rest, all) =
          pop_last_lem h2 n x (omega (arith, same, long)) (kept ∙ ap (get_elem? h) root ∙ e)
            heap' in
        (
          (x, take n h2),
          out,
          record {
            heap = rest;
            same = Perm.trans all (Perm.trans perm (swap-perm h 0 n p (omega arith)));
            least = root_least h x heap e;
          },
        )
