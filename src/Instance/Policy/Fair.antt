-- ===== src/Instance/Policy/Fair.antt =====
-- internal/instance/allocation/round_robin.go: a round robin over candidates that stay the same.
use native.Mathlib.Nat.{
  zero-add, add-zero, suc-add, add-suc, mod-add-mod, mod_self, mod-lt, suc-mod, mod-eq_of_lt,
}
use mathlib.Core.List.Perm
use mathlib.Core.List.{Perm, perm_append_comm, append_assoc, append-nil}
use pinchtab.Prelude.{
  ℕ, zero, suc, ◌+◌, ◌%◌, ◌<◌, ◌≤◌, ◌≡◌, refl, sym, ap, ◌∙◌, subst, Option, none, some, List, [],
  ◌∷◌, ◌++◌, length, length-append, get_elem?, arith,
}
use pinchtab.Instance.Repository.{Instance}
use pinchtab.Instance.Policy.{Policy, round_robin, next_index, select}

abbrev cons : Option Instance → List Instance → List Instance
cons none insts = insts
cons (some inst) insts = inst ∷ insts

-- The instances that a number of calls of Select return, one after the other.
unfoldable pub selects : (ℕ → ℕ) → ℕ → Policy → List Instance → List Instance
unfolding select
selects draw zero p insts = []
selects draw (suc k) p insts = let (p', o) = select draw p insts in cons o (selects draw k p' insts)

abbrev two_64 : ℕ
two_64 = 18446744073709551616

cons-append : (o : Option Instance) (xs ys : List Instance) → cons o (xs ++ ys) ≡ cons o xs ++ ys
cons-append none xs ys = refl
cons-append (some x) xs ys = refl

module _ (draw : ℕ → ℕ) where
  select_round :
      (c : ℕ) (insts : List Instance)
      → 0 < length insts
      → suc c < two_64
      → select draw (round_robin c) insts
        ≡ (round_robin (suc c), get_elem? insts (c % length insts))
  unfolding select next_index
  select_round c [] h lt = absurd (omega (arith, h))
  select_round c (inst ∷ insts) h lt =
      let added : (c + 1) % two_64 ≡ suc c = omega (arith, lt) in
      let back : (suc c + 18446744073709551615) % two_64 ≡ c = omega (arith, lt) in
      rw (added, back) refl

  at_middle :
      (pre post : List Instance) (x : Instance) → get_elem? (pre ++ x ∷ post) (length pre) ≡ some x
  at_middle [] post x = refl
  at_middle (y ∷ pre) post x = at_middle pre post x

  -- the calls go along the list
  selects_along :
      (insts pre mid post : List Instance) (c : ℕ)
      → insts ≡ pre ++ (mid ++ post)
      → (0 < length mid → c % length insts ≡ length pre)
      → c + length mid < two_64
      → selects draw (length mid) (round_robin c) insts ≡ mid
  unfolding selects
  selects_along insts pre [] post c e at lt = refl
  selects_along insts pre (x ∷ mid) post c e at lt =
      let here : c % length insts ≡ length pre = at (omega arith) in
      let long : length insts ≡ length pre + suc (length mid + length post) =
        ap length e
        ∙ omega (arith, length-append pre (x ∷ (mid ++ post)), length-append mid post) in
      let picked : get_elem? insts (c % length insts) ≡ some x =
        ap (get_elem? insts) here
        ∙ ap (λ l. get_elem? l (length pre)) e
        ∙ at_middle pre (mid ++ post) x in
      let next : 0 < length mid → suc c % length insts ≡ length (pre ++ x ∷ []) = λ more.
        suc-mod c (length insts)
        ∙ ap (λ i. suc i % length insts) here
        ∙ mod-eq_of_lt (omega (arith, long, more))
        ∙ omega (arith, length-append pre (x ∷ [])) in
      let rest =
        selects_along insts (pre ++ x ∷ []) mid post (suc c)
          (e ∙ sym (append_assoc pre (x ∷ []) (mid ++ post))) next (omega (arith, lt)) in
      rw (select_round c insts (omega (arith, long)) (omega (arith, lt)), picked)
        (ap (λ l. x ∷ l) rest)

  -- the counter goes on
  selects-add :
      (insts : List Instance) (a b c : ℕ)
      → 0 < length insts
      → c + a < two_64
      → selects draw (a + b) (round_robin c) insts
        ≡ selects draw a (round_robin c) insts ++ selects draw b (round_robin (c + a)) insts
  unfolding selects
  selects-add insts zero b c h lt = rw (zero-add b, add-zero c) refl
  selects-add insts (suc a) b c h lt =
      let step = select_round c insts h (omega (arith, lt)) in
      let rest = selects-add insts a b (suc c) h (omega (arith, lt)) in
      let chosen = get_elem? insts (c % length insts) in
      rw (suc-add a b, add-suc c a, step)
        (ap (cons chosen) rest
          ∙ cons-append chosen (selects draw a (round_robin (suc c)) insts)
              (selects draw b (round_robin (suc c + a)) insts)
          ∙ ap
              (λ k.
                cons chosen (selects draw a (round_robin (suc c)) insts)
                ++ selects draw b (round_robin k) insts)
              (suc-add c a))

cut :
    (insts : List Instance) (n : ℕ)
    → n ≤ length insts
    → (pre : List Instance) × ((post : List Instance) × ((insts ≡ pre ++ post) × (length pre ≡ n)))
cut insts zero le = ([], (insts, (refl, refl)))
cut [] (suc n) le = absurd (omega (arith, le))
cut (x ∷ insts) (suc n) le =
    let (pre, (post, (e, same))) = cut insts n (omega (arith, le)) in
    (x ∷ pre, (post, (ap (λ l. x ∷ l) e, ap suc same)))

-- a round, from the candidate in whose place the counter stands
selects_round :
    (draw : ℕ → ℕ) (c : ℕ) (insts pre post : List Instance)
    → insts ≡ pre ++ post
    → length pre ≡ c % length insts
    → 0 < length insts
    → c + length insts < two_64
    → selects draw (length insts) (round_robin c) insts ≡ post ++ pre
selects_round draw c insts pre post e same pos lt =
    let n = length insts in
    let a = length post in
    let b = length pre in
    let long : n ≡ b + a = ap length e ∙ length-append pre post in
    let start : (c + a) % n ≡ 0 =
      sym (mod-add-mod c n a)
      ∙ ap (λ i. (i + a) % n) (sym same)
      ∙ ap (λ i. i % n) (sym long)
      ∙ mod_self n in
    let first : selects draw a (round_robin c) insts ≡ post =
      selects_along draw insts pre post [] c (e ∙ ap (λ l. pre ++ l) (sym (append-nil post)))
        (λ more. sym same) (omega (arith, long, lt)) in
    let second : selects draw b (round_robin (c + a)) insts ≡ pre =
      selects_along draw insts [] pre post (c + a) e (λ more. start) (omega (arith, long, lt)) in
    let total : n ≡ a + b = omega (arith, long) in
    ap (λ k. selects draw k (round_robin c) insts) total
    ∙ selects-add draw insts a b c pos (omega (arith, long, lt))
    ∙ ap (λ l. l ++ selects draw b (round_robin (c + a)) insts) first
    ∙ ap (λ l. post ++ l) second

-- Over candidates that stay the same, and until its counter passes the largest uint64, a round robin
-- takes each candidate exactly once in as many calls as there are candidates, wherever it stands.
pub selects-Perm :
    (draw : ℕ → ℕ) (c : ℕ) (insts : List Instance)
    → c + length insts < 18446744073709551616
    → Perm (selects draw (length insts) (round_robin c) insts) insts
unfolding selects
selects-Perm draw c [] lt = Perm.refl []
selects-Perm draw c (x ∷ xs) lt =
    let insts = x ∷ xs in
    let below = mod-lt c {m = length insts} (omega arith) in
    let (pre, (post, (e, same))) = cut insts (c % length insts) (omega (arith, below)) in
    let round = selects_round draw c insts pre post e same (omega arith) lt in
    subst (λ l. Perm (selects draw (length insts) (round_robin c) insts) l) (sym e)
      (rw round (perm_append_comm post pre))
