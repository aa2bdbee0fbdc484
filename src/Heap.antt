-- ===== src/Heap.antt =====
-- Go's container/heap over a slice, which internal/scheduler/queue.go orders its tasks with. It is
-- generic in the slice's element and its Less. An index that is out of range, where Go panics,
-- leaves the slice alone.
pub mod Swap
pub mod Order
pub mod Up
pub mod Down
pub mod Ops
pub mod Remove
use pinchtab.Prelude.{
  ℕ, zero, suc, ◌+◌, ◌-◌, ◌*◌, ◌/◌, Bool, false, true, not, ◌&&◌, ◌||◌, Option, none, some, List,
  [], ◌∷◌, ◌++◌, length, get_elem?, set, take, ltb, ◌==◌, if◌then◌else◌,
}

-- `h[i], h[j] = h[j], h[i]`
pub swap {ℓ} : {A : Type ℓ} → List A → ℕ → ℕ → List A
swap h i j = elim (get_elem? h i) [
  | none ↦ h
  | some x ↦ elim (get_elem? h j) [ none ↦ h | some y ↦ set (set h i y) j x ]
]

abbrev pub parent : ℕ → ℕ
parent c = (c - 1) / 2

-- `h.Pop()`: the last element and the slice without it
pub pop_last {ℓ} : {A : Type ℓ} → List A → Option (A × List A)
pop_last h = elim (get_elem? h (length h - 1)) [
  | none ↦ none
  | some x ↦ some (x, take (length h - 1) h)
]

module _ {ℓ} {A : Type ℓ} (less : A → A → Bool) where
  abbrev pub less_opt : Option A → Option A → Bool
  less_opt none y = false
  less_opt (some x) none = false
  less_opt (some x) (some y) = less x y

  -- `h.Less(i, j)`
  pub less_at : List A → ℕ → ℕ → Bool
  less_at h i j = less_opt (get_elem? h i) (get_elem? h j)

  -- `up(h, j)`: each round halves `j`, so `j + 1` rounds are enough.
  pub up_loop : ℕ → List A → ℕ → List A
  up_loop zero h j = h
  up_loop (suc fuel) h j =
      let rise = up_loop fuel (swap h (parent j) j) (parent j) in
      if parent j == j || not (less_at h j (parent j)) then h else rise

  unfoldable pub up : List A → ℕ → List A
  unfolding up_loop less_at swap
  up h j = up_loop (j + 1) h j

  -- the child of `i` with which `down` compares it: the lesser of the two
  pub child : List A → ℕ → ℕ → ℕ
  child h i n =
      let j1 = 2 * i + 1 in let j2 = j1 + 1 in if ltb j2 n && less_at h j2 j1 then j2 else j1

  -- `down(h, i, n)` without its result: the slice and the index where the loop stopped. Each round
  -- moves `i` up, so `n` rounds are enough.
  pub down_loop : ℕ → List A → ℕ → ℕ → List A × ℕ
  down_loop zero h i n = (h, i)
  down_loop (suc fuel) h i n =
      let j = child h i n in
      let sink = down_loop fuel (swap h i j) j n in
      if ltb (2 * i + 1) n then (if less_at h j i then sink else (h, i)) else (h, i)

  unfoldable pub down : List A → ℕ → ℕ → List A × Bool
  unfolding down_loop child less_at swap
  down h i n = let (h', i') = down_loop (n + 1) h i n in (h', ltb i i')

  -- `for i := n/2 - 1; i >= 0; i-- { down(h, i, n) }`, with `k` rounds left
  pub init_loop : ℕ → List A → List A
  init_loop zero h = h
  init_loop (suc i) h = init_loop i (down h i (length h)).0

  unfoldable pub init : List A → List A
  unfolding init_loop down
  init h = init_loop (length h / 2) h

  unfoldable pub push : List A → A → List A
  unfolding up
  push h x = up (h ++ x ∷ []) (length h)

  -- `heap.Pop(h)`; `none` where Go panics, on an empty heap
  unfoldable pub pop : List A → Option (A × List A)
  unfolding down pop_last
  pop h = let n = length h - 1 in pop_last (down (swap h 0 n) 0 n).0

  -- `heap.Remove(h, i)`
  unfoldable pub remove : List A → ℕ → Option (A × List A)
  unfolding down up pop_last
  remove h i =
      let n = length h - 1 in
      let (sunk, moved) = down (swap h i n) i n in
      pop_last (if n == i then h else if moved then sunk else up sunk i)
