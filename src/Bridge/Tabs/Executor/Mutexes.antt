-- ===== src/Bridge/Tabs/Executor/Mutexes.antt =====
-- internal/bridge/tabs/tab_executor.go: no mutex is taken twice.
use pinchtab.Prelude.{
  ℕ, ◌≤◌, ◌≡◌, ◌⊎◌, ap, refl, String, Bool, true, Option, none, some, ◌==◌, get_elem?, total,
  measure, total-put, Option-cases, inl, inr, arith,
}
use pinchtab.Prelude.Map
use pinchtab.Prelude.Map.{Map}
use pinchtab.Bridge.Tabs.Executor.{
  Phase, waiting, placed, contending, granted, executing, leaving, abandoned, abandoned_held,
  removing, removing_held, Job, TabExecutor, tab_mutex, has, Moved, advance, execute, remove_tab,
  Action, executes, removes, move, on_tab, moved, step,
}

abbrev pub has_next : ℕ → Option Phase → ℕ
has_next m none = 0
has_next m (some p) = has m (record { tab = ""; phase = p })

has_any_tab :
    (m : ℕ) (tab : String) (next : Option Phase)
    → measure (has m) (on_tab tab next) ≡ has_next m next
has_any_tab m tab none = refl
has_any_tab m tab (some p) = refl

-- No mutex is taken twice.
abbrev pub Mutual : TabExecutor → Type 0
Mutual te = (m : ℕ) → total (has m) te.jobs ≤ 1

-- A step takes a mutex only where it is free.
pub record Takes (m : ℕ) (p : Phase) (te : TabExecutor) (o : Moved) : Type 0 where
  pub jobs : o.0.jobs ≡ te.jobs
  pub free :
      (has_next m o.1 ≤ has_next m (some p)) ⊎ ((total (has m) te.jobs ≡ 0) × (has_next m o.1 ≤ 1))

module _ (done : Bool) (tab : String) (te : TabExecutor) (m : ℕ) where
  -- where the mutex that is waited for is the one in question, so is its test
  same_total : (n : ℕ) → (m == n) ≡ true → total (has n) te.jobs ≡ total (has m) te.jobs
  same_total n e = let same : n ≡ m = ground (arith, e) in ap (λ k. total (has k) te.jobs) same

  pub advance-Takes : (p : Phase) → Takes m p te (advance done tab p te)
  unfolding advance tab_mutex
  advance-Takes waiting = record { jobs = ground arith; free = ground arith }
  advance-Takes placed = elim (Option-cases (Map.lookup tab te.tab_locks)) [
    | inl absent ↦ rw absent (record { jobs = refl; free = inl (omega arith) })
    | inr (n, found) ↦ rw found (record { jobs = refl; free = inl (omega arith) })
  ]
  advance-Takes (contending n) = record { jobs = ground arith; free = ground (arith, same_total n) }
  advance-Takes (granted n) = record { jobs = ground arith; free = ground arith }
  advance-Takes (executing n) = record { jobs = ground arith; free = ground arith }
  advance-Takes leaving = record { jobs = ground arith; free = ground arith }
  advance-Takes (abandoned n) = record { jobs = ground arith; free = ground (arith, same_total n) }
  advance-Takes (abandoned_held n) = record { jobs = ground arith; free = ground arith }
  advance-Takes (removing n) = record { jobs = ground arith; free = ground (arith, same_total n) }
  advance-Takes (removing_held n) = record { jobs = ground arith; free = ground arith }

moved-Mutual :
    (i : ℕ) (done : Bool) (o : Option Job) (te : TabExecutor)
    → get_elem? te.jobs i ≡ o
    → Mutual te
    → Mutual (moved i done o te)
unfolding moved
moved-Mutual i done none te e b m = b m
moved-Mutual i done (some j) te e b m =
    let o = advance done j.tab j.phase te in
    let takes = advance-Takes done j.tab te m j.phase in
    rw takes.jobs (elim takes.free [
      | inl less ↦ omega (
        arith,
        total-put (has m) i j (on_tab j.tab o.1) te.jobs e,
        has_any_tab m j.tab o.1,
        b m,
        less,
      )
      | inr (free, one) ↦ omega (
        arith,
        total-put (has m) i j (on_tab j.tab o.1) te.jobs e,
        has_any_tab m j.tab o.1,
        free,
        one,
      )
    ])

pub step-Mutual : (a : Action) (te : TabExecutor) → Mutual te → Mutual (step a te)
unfolding step execute remove_tab
step-Mutual (executes done tab) te b m = ground (arith, b m)
step-Mutual (removes tab) te b m = elim (Option-cases (Map.lookup tab te.tab_locks)) [
  | inl absent ↦ rw absent (b m)
  | inr (n, found) ↦ rw found (omega (arith, b m))
]
step-Mutual (move i done) te b m = moved-Mutual i done (get_elem? te.jobs i) te refl b m
