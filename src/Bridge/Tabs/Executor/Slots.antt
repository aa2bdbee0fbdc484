-- ===== src/Bridge/Tabs/Executor/Slots.antt =====
-- internal/bridge/tabs/tab_executor.go: the slots of the semaphore.
use pinchtab.Prelude.{
  ℕ, ◌+◌, ◌≤◌, ◌<◌, ◌≡◌, refl, String, Bool, Option, none, some, List, [], ◌∷◌, get_elem?, total,
  measure, total-put, Option-cases, inl, inr, arith,
}
use pinchtab.Prelude.Int.{ℤ}
use pinchtab.Prelude.Map
use pinchtab.Bridge.Tabs.Executor.{
  Phase, waiting, placed, contending, granted, executing, leaving, Job, TabExecutor,
  new_tab_executor, tab_mutex, Moved, advance, execute, remove_tab, Action, executes, removes, move,
  on_tab, settle, moved, step, run,
}

-- 1 where a job has a slot, and where it runs its task
abbrev slot_of : Phase → ℕ
slot_of placed = 1
slot_of (contending m) = 1
slot_of (granted m) = 1
slot_of (executing m) = 1
slot_of leaving = 1
slot_of _ = 0

abbrev pub slot : Job → ℕ
slot j = slot_of j.phase

abbrev pub runs : Job → ℕ
runs j = elim j.phase [ executing m ↦ 1 | _ ↦ 0 ]

abbrev slot_next : Option Phase → ℕ
slot_next none = 0
slot_next (some p) = slot_of p

-- The slots taken are those of the jobs, and no more than there are.
pub record Bounded (te : TabExecutor) : Type 0 where
  pub exact : te.used ≡ total slot te.jobs
  pub within : te.used ≤ te.max_parallel
  pub positive : 0 < te.max_parallel

record Counts (p : Phase) (te : TabExecutor) (o : Moved) : Type 0 where
  pub jobs : o.0.jobs ≡ te.jobs
  pub limit : o.0.max_parallel ≡ te.max_parallel
  pub count : o.0.used + slot_of p ≡ te.used + slot_next o.1
  pub within : o.0.used ≤ te.max_parallel

module _ (done : Bool) (tab : String) (te : TabExecutor) (le : te.used ≤ te.max_parallel) where
  advance-Counts : (p : Phase) → slot_of p ≤ te.used → Counts p te (advance done tab p te)
  unfolding advance tab_mutex
  advance-Counts waiting h = record {
    jobs = ground arith;
    limit = ground arith;
    count = ground arith;
    within = ground arith;
  }
  advance-Counts placed h = elim (Option-cases (Map.lookup tab te.tab_locks)) [
    | inl absent ↦ rw absent (record { jobs = refl; limit = refl; count = refl; within = le })
    | inr (m, found) ↦ rw found (record { jobs = refl; limit = refl; count = refl; within = le })
  ]
  advance-Counts p h = record {
    jobs = ground arith;
    limit = ground arith;
    count = ground arith;
    within = ground arith;
  }

on_tab-measure :
    (tab : String) (next : Option Phase) → measure slot (on_tab tab next) ≡ slot_next next
on_tab-measure tab none = refl
on_tab-measure tab (some p) = refl

-- a job that counts is part of the sum
slot-le : (i : ℕ) (j : Job) (jobs : List Job) → get_elem? jobs i ≡ some j → slot j ≤ total slot jobs
slot-le i j jobs e = omega (arith, total-put slot i j none jobs e)

settle-Bounded :
    (i : ℕ) (j : Job) (te : TabExecutor) (o : Moved)
    → get_elem? te.jobs i ≡ some j
    → Counts j.phase te o
    → Bounded te
    → Bounded (settle i j.tab o)
settle-Bounded i j te (te', next) e c b =
    let puts = total-put slot i j (on_tab j.tab next) te.jobs e in
    let same = on_tab-measure j.tab next in
    record {
      exact = rw c.jobs (omega (arith, puts, same, c.count, b.exact));
      within = rw c.limit c.within;
      positive = rw c.limit b.positive;
    }

moved-Bounded :
    (i : ℕ) (done : Bool) (o : Option Job) (te : TabExecutor)
    → get_elem? te.jobs i ≡ o
    → Bounded te
    → Bounded (moved i done o te)
unfolding moved
moved-Bounded i done none te e b = b
moved-Bounded i done (some j) te e b =
    let le : slot j ≤ te.used = omega (arith, slot-le i j te.jobs e, b.exact) in
    settle-Bounded i j te (advance done j.tab j.phase te) e
      (advance-Counts done j.tab te b.within j.phase le) b

step-Bounded : (a : Action) (te : TabExecutor) → Bounded te → Bounded (step a te)
unfolding step execute remove_tab
step-Bounded (executes done tab) te b = record {
  exact = ground (arith, b.exact);
  within = ground (arith, b.within);
  positive = ground (arith, b.positive);
}
step-Bounded (removes tab) te b = elim (Option-cases (Map.lookup tab te.tab_locks)) [
  | inl absent ↦ rw absent b
  | inr (m, found) ↦
      rw found (record { exact = omega (arith, b.exact); within = b.within; positive = b.positive })
]
step-Bounded (move i done) te b = moved-Bounded i done (get_elem? te.jobs i) te refl b

run-Bounded : (acts : List Action) (te : TabExecutor) → Bounded te → Bounded (run acts te)
unfolding run
run-Bounded [] te b = b
run-Bounded (a ∷ acts) te b = run-Bounded acts (step a te) (step-Bounded a te b)

runs-le-slot : (jobs : List Job) → total runs jobs ≤ total slot jobs
runs-le-slot [] = omega arith
runs-le-slot (j ∷ jobs) = omega (arith, runs-one j, runs-le-slot jobs)
  where
    runs-one : (j : Job) → runs j ≤ slot j
    runs-one j = ground arith

-- Over any interleaving of calls from NewTabExecutor on: the slots in use are exactly those of the
-- calls that have one, so none is lost; at least one call, and at most MaxParallel, can have one at
-- once, and so at most MaxParallel tasks run at once.
pub run-slots :
    (max : ℤ) (cpus : ℕ) (acts : List Action)
    → let te = run acts (new_tab_executor max cpus) in
      Bounded te × (total runs te.jobs ≤ te.max_parallel)
unfolding new_tab_executor
run-slots max cpus acts =
    let b =
      run-Bounded acts (new_tab_executor max cpus)
        (record { exact = refl; within = omega arith; positive = ground arith }) in
    (b, omega (arith, b.exact, b.within, runs-le-slot (run acts (new_tab_executor max cpus)).jobs))
