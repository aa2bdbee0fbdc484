-- ===== src/Instance/Manager/Runs.antt =====
-- internal/instance/manager.go: what holds after any calls from NewManager on.
use pinchtab.Prelude.{
  ℕ, ◌<◌, ◌≡◌, refl, String, true, false, none, some, List, [], ◌∷◌, inl, inr, Option-cases,
}
use pinchtab.Prelude.Map
use pinchtab.Prelude.Map.{Map}
use pinchtab.Instance.Repository
use pinchtab.Instance.Repository.{Instance, Repository, Visits, new_repository}
use pinchtab.Instance.Repository.Running.{Keyed}
use pinchtab.Instance.Locator.{FetchTabs}
use pinchtab.Instance.Locator.Finds.{Found, find_instance_by_tab_id-Found}
use pinchtab.Instance.Policy.{new_policy}
use pinchtab.Instance.Allocator.{Allocated, allocate-Allocated}
use pinchtab.Instance.Manager.{
  Manager, new_manager, launch, stop, find, register_tab, invalidate_tab, refresh, allocate,
  set_allocation_policy, change_status, Call, launches, stops, adds, removes, finds, registers,
  invalidates, refreshes, allocates, sets_policy, changes, call, run,
}

-- an entry stands under the id of its instance
abbrev pub IsKeyed : String → Instance → Type 0
IsKeyed key inst = inst.id ≡ key

call-Keyed : (c : Call) (m : Manager) → Keyed m.repo.instances → Keyed (call c m).repo.instances
unfolding call launch stop find register_tab invalidate_tab refresh allocate set_allocation_policy
    change_status Repository.add Repository.remove Repository.launch Repository.stop
call-Keyed (launches none) m k = k
call-Keyed (launches (some inst)) m k =
    Map.insert-Every IsKeyed inst.id inst m.repo.instances refl k
call-Keyed (stops false id) m k = k
call-Keyed (stops true id) m k = Map.delete-Every IsKeyed id m.repo.instances k
call-Keyed (adds inst) m k = Map.insert-Every IsKeyed inst.id inst m.repo.instances refl k
call-Keyed (removes id) m k = Map.delete-Every IsKeyed id m.repo.instances k
call-Keyed (finds fetch order tab) m k = k
call-Keyed (registers tab id) m k = k
call-Keyed (invalidates tab) m k = k
call-Keyed (refreshes fetch order) m k = k
call-Keyed (allocates draw order) m k = k
call-Keyed (sets_policy name) m k = elim (Option-cases (new_policy name)) [
  | inl unknown ↦ rw unknown k
  | inr (p, known) ↦ rw known k
]
call-Keyed (changes id status) m k = elim (Option-cases (Map.lookup id m.repo.instances)) [
  | inl absent ↦ rw absent k
  | inr (inst, found) ↦ rw found (
      Map.insert-Every IsKeyed id (record inst { status = status }) m.repo.instances
        (k id inst found) k)
]

run-Keyed :
    (cs : List Call) (m : Manager) → Keyed m.repo.instances → Keyed (run cs m).repo.instances
unfolding run
run-Keyed [] m k = k
run-Keyed (c ∷ cs) m k = run-Keyed cs (call c m) (call-Keyed c m k)

-- After any calls from NewManager on, and whatever order a `range` over the instances takes:
-- FindInstanceByTabID answers an instance of the repository that runs, and that the cache names for
-- the tab or that lists the tab when it is asked; the tab is cached with it. It answers none only
-- where no instance that runs lists the tab.
pub run-find :
    (cs : List Call) (fetch : FetchTabs) (order : Map Instance) (tab : String)
    → let m = run cs new_manager in
      Visits order m.repo.instances
      → Found fetch tab m.repo m.locator
          ((find fetch order tab m).0.locator, (find fetch order tab m).1)
unfolding new_manager find new_repository
run-find cs fetch order tab v =
    let m = run cs new_manager in
    find_instance_by_tab_id-Found fetch order tab m.repo m.locator v
      (run-Keyed cs new_manager (λ key inst e. absurd (Map.lookup-nil key inst e)))

-- After any calls from NewManager on, whatever the policy, the order that a `range` over the
-- instances takes and the random numbers drawn below their bounds: Allocate gives an instance of the
-- repository that runs, or says that none runs, which is then so; the policy never fails.
pub run-allocate :
    (cs : List Call) (draw : ℕ → ℕ) (order : Map Instance)
    → ((n : ℕ) → 0 < n → draw n < n)
    → let m = run cs new_manager in
      Visits order m.repo.instances → Allocated m.repo (allocate draw order m).1
unfolding new_manager allocate new_repository
run-allocate cs draw order below v =
    let m = run cs new_manager in
    allocate-Allocated draw order m.policy m.repo below v
      (run-Keyed cs new_manager (λ key inst e. absurd (Map.lookup-nil key inst e)))
