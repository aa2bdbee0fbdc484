-- ===== src/Bridge/Tabs/Executor/Tests.antt =====
-- The executor at small concrete inputs.
use pinchtab.Prelude.{◌≡◌, ◌≤◌, refl, false, List, [], ◌∷◌, ◌++◌, total}
use pinchtab.Prelude.Int.{pos}
use pinchtab.Prelude.Map
use pinchtab.Bridge.Tabs.Executor.{
  new_tab_executor, tab_mutex, advance, execute, remove_tab, Action, executes, removes, move, moved,
  step, run,
}
use pinchtab.Bridge.Tabs.Executor.Slots.{runs, Bounded, run-slots}
use pinchtab.Bridge.Tabs.Executor.Exclusive.{runs_here, run-exclusive}

-- Execute on a tab, up to its task
abbrev runs_task : List Action
runs_task = executes false "t" ∷ move 0 false ∷ move 0 false ∷ move 0 false ∷ move 0 false ∷ []

-- Two calls on one tab: the second waits for the mutex.
abbrev two_calls : List Action
two_calls = runs_task ++ runs_task

one_runs : total (runs_here "t") (run two_calls (new_tab_executor (pos 2) 4)).jobs ≡ 1
unfolding run step moved advance execute remove_tab tab_mutex new_tab_executor Map.lookup Map.insert
one_runs = refl

-- RemoveTab between them drops the mutex that the first call has: both tasks run on the tab.
both_run :
    total
      (runs_here "t")
      (run (runs_task ++ removes "t" ∷ runs_task) (new_tab_executor (pos 2) 4)).jobs
    ≡ 2
unfolding run step moved advance execute remove_tab tab_mutex new_tab_executor Map.lookup Map.insert
    Map.delete
both_run = refl

run-slots_example :
    let te = run two_calls (new_tab_executor (pos 2) 4) in
    Bounded te × (total runs te.jobs ≤ te.max_parallel)
run-slots_example = run-slots (pos 2) 4 two_calls

run-exclusive_example : total (runs_here "t") (run two_calls (new_tab_executor (pos 2) 4)).jobs ≤ 1
run-exclusive_example =
    run-exclusive (pos 2) 4 "t" two_calls
      (tt, (tt, (tt, (tt, (tt, (tt, (tt, (tt, (tt, (tt, tt))))))))))
