-- ===== src/Bridge/Tabs/Executor/Exclusive.antt =====
-- internal/bridge/tabs/tab_executor.go: the mutex of each tab.
use pinchtab.Prelude.{
  ℕ, ◌≤◌, ◌≡◌, sym, ◌∙◌, subst, refl, String, Bool, true, false, Option, none, some, List, [], ◌∷◌,
  str_eq, eq_iff, get_elem?, total, if◌then◌else◌, Option-cases, Bool-cases, inl, inr, arith, All,
  All-put, All-get, All-map,
}
use pinchtab.Prelude.Int.{ℤ}
use pinchtab.Prelude.Map
use pinchtab.Prelude.Map.{Map}
use pinchtab.Bridge.Tabs.Executor.{
  Phase, placed, contending, granted, executing, Job, TabExecutor, new_tab_executor, tab_mutex, has,
  Moved, advance, execute, remove_tab, Action, executes, removes, move, on_tab, settle, moved, step,
  run,
}
use pinchtab.Bridge.Tabs.Executor.Mutexes.{Mutual, advance-Takes, step-Mutual}
use pinchtab.Bridge.Tabs.Executor.Slots.{runs}

-- the mutex that a call of Execute was given
abbrev wants : Phase → Option ℕ
wants (contending m) = some m
wants (granted m) = some m
wants (executing m) = some m
wants _ = none

on_tab_inv :
    (tab : String) (next : Option Phase) (j : Job)
    → on_tab tab next ≡ some j
    → (next ≡ some j.phase) × (j.tab ≡ tab)
on_tab_inv tab none j e = absurd cc
on_tab_inv tab (some p) j e = (ground (arith, e), ground (arith, e))

module _ (tab : String) where
  -- A call of Execute on the tab was given the mutex that the tab still has.
  abbrev OwnedBy : Map ℕ → Job → Type 0
  OwnedBy locks j =
      (m : ℕ) → str_eq j.tab tab ≡ true → wants j.phase ≡ some m → Map.lookup tab locks ≡ some m

  abbrev Owned : TabExecutor → Type 0
  Owned te = All (OwnedBy te.tab_locks) te.jobs

  abbrev pub IsKeeping : Action → Type 0
  IsKeeping (removes t) = str_eq t tab ≡ false
  IsKeeping _ = Unit

  -- A step leaves the tab its mutex, and uses that one.
  record Uses (t : String) (te : TabExecutor) (o : Moved) : Type 0 where
    pub kept :
        (m : ℕ) → Map.lookup tab te.tab_locks ≡ some m → Map.lookup tab o.0.tab_locks ≡ some m
    pub used :
        (p : Phase) (m : ℕ)
        → o.1 ≡ some p
        → str_eq t tab ≡ true
        → wants p ≡ some m
        → Map.lookup tab o.0.tab_locks ≡ some m

  module _ (done : Bool) (t : String) (te : TabExecutor) where
    placed-Uses : Uses t te (advance done t placed te)
    unfolding advance tab_mutex
    placed-Uses = elim (Option-cases (Map.lookup t te.tab_locks)) [
      | inl absent ↦ rw absent (record {
        kept = λ m f.
            ground (arith, f, absent, eq_iff t tab, Map.lookup-insert t tab te.next te.tab_locks);
        used = λ p m e s w. ground (arith, e, s, w, Map.lookup-insert t tab te.next te.tab_locks);
      })
      | inr (n, found) ↦ rw found (record {
        kept = λ m f. f;
        used = λ p m e s w.
            subst (λ k. Map.lookup k te.tab_locks ≡ some m) ((eq_iff t tab).0 s)
              (ground (arith, e, w, found));
      })
    ]

    advance-Uses :
        (p : Phase)
        → OwnedBy te.tab_locks (record { tab = t; phase = p })
        → Uses t te (advance done t p te)
    unfolding advance
    advance-Uses placed h = placed-Uses
    advance-Uses p h = record {
      kept = λ m f. ground (arith, f);
      used = λ q m e s w. ground (arith, e, s, w, h m);
    }

  settle-Owned :
      (i : ℕ) (j : Job) (te : TabExecutor) (o : Moved)
      → o.0.jobs ≡ te.jobs
      → Uses j.tab te o
      → Owned te
      → Owned (settle i j.tab o)
  settle-Owned i j te (te', next) same u owned = rw same (
      All-put i (on_tab j.tab next) te.jobs
        (All-map te.jobs (λ k own m s w. u.kept m (own m s w)) owned)
        (λ k e m s w.
          let (same_phase, same_tab) = on_tab_inv j.tab next k e in
          u.used k.phase m same_phase (subst (λ x. str_eq x tab ≡ true) same_tab s) w))

  moved-Owned :
      (i : ℕ) (done : Bool) (o : Option Job) (te : TabExecutor)
      → get_elem? te.jobs i ≡ o
      → Owned te
      → Owned (moved i done o te)
  unfolding moved
  moved-Owned i done none te e b = b
  moved-Owned i done (some j) te e b =
      settle-Owned i j te (advance done j.tab j.phase te)
        (advance-Takes done j.tab te 0 j.phase).jobs
        (advance-Uses done j.tab te j.phase (All-get (OwnedBy te.tab_locks) i j te.jobs b e)) b

  step-Owned : (a : Action) (te : TabExecutor) → IsKeeping a → Owned te → Owned (step a te)
  unfolding step execute remove_tab
  step-Owned (executes done t) te k b = elim (Bool-cases (str_eq t "")) [
    | inl empty ↦ rw empty b
    | inr named ↦ elim (Bool-cases done) [
      | inl over ↦ rw (named, over) b
      | inr live ↦ rw (named, live) ((λ m s w. absurd (ground (arith, w))), b)
    ]
  ]
  step-Owned (removes t) te k b = elim (Option-cases (Map.lookup t te.tab_locks)) [
    | inl absent ↦ rw absent b
    | inr (n, found) ↦ rw found (
      (λ m s w. absurd (ground (arith, w))),
      All-map te.jobs
          (λ j own m s w. ground (arith, own m s w, k, Map.lookup-delete t tab te.tab_locks)) b,
    )
  ]
  step-Owned (move i done) te k b = moved-Owned i done (get_elem? te.jobs i) te refl b

  run-Exclusive :
      (acts : List Action) (te : TabExecutor)
      → All IsKeeping acts
      → Mutual te
      → Owned te
      → Mutual (run acts te) × Owned (run acts te)
  unfolding run
  run-Exclusive [] te k b o = (b, o)
  run-Exclusive (a ∷ acts) te k b o =
      run-Exclusive acts (step a te) k.1 (step-Mutual a te b) (step-Owned a te k.0 o)

  -- 1 where a job runs its task on the tab
  abbrev pub runs_here : Job → ℕ
  runs_here j = if str_eq j.tab tab then runs j else 0

  -- what the tab has, of a job that runs on it
  runs_owned :
      (locks : Map ℕ) (o : Option ℕ) (t : String) (p : Phase)
      → let j : Job = record { tab = t; phase = p } in
        Map.lookup tab locks ≡ o
        → OwnedBy locks j
        → runs_here j ≤ elim o [ none ↦ 0 | some m ↦ has m j ]
  runs_owned locks o t (executing n) e own = elim (Bool-cases (str_eq t tab)) [
    | inl here ↦ rw (here, sym e ∙ own n here refl) (ground arith)
    | inr away ↦ rw away (omega arith)
  ]
  runs_owned locks o t p e own = ground arith

  here-le-has :
      (locks : Map ℕ) (m : ℕ) (jobs : List Job)
      → Map.lookup tab locks ≡ some m
      → All (OwnedBy locks) jobs
      → total runs_here jobs ≤ total (has m) jobs
  here-le-has locks m [] e o = omega arith
  here-le-has locks m (j ∷ jobs) e o =
      omega (arith, runs_owned locks (some m) j.tab j.phase e o.0, here-le-has locks m jobs e o.1)

  here_absent :
      (locks : Map ℕ) (jobs : List Job)
      → Map.lookup tab locks ≡ none
      → All (OwnedBy locks) jobs
      → total runs_here jobs ≡ 0
  here_absent locks [] e o = refl
  here_absent locks (j ∷ jobs) e o =
      omega (arith, runs_owned locks none j.tab j.phase e o.0, here_absent locks jobs e o.1)

-- Over any interleaving of calls from NewTabExecutor on in which RemoveTab is not called for the tab,
-- at most one task runs on the tab at any instant.
pub run-exclusive :
    (max : ℤ) (cpus : ℕ) (tab : String) (acts : List Action)
    → All (IsKeeping tab) acts
    → total (runs_here tab) (run acts (new_tab_executor max cpus)).jobs ≤ 1
unfolding new_tab_executor
run-exclusive max cpus tab acts k =
    let te = run acts (new_tab_executor max cpus) in
    let (once, owned) =
      run-Exclusive tab acts (new_tab_executor max cpus) k (λ m. omega arith) tt in
    elim (Option-cases (Map.lookup tab te.tab_locks)) [
      | inl absent ↦ omega (arith, here_absent tab te.tab_locks te.jobs absent owned)
      | inr (m, found) ↦ omega (arith, once m, here-le-has tab te.tab_locks m te.jobs found owned)
    ]
