-- ===== src/Scheduler/Tests.antt =====
-- The theorems on the parts of the scheduler, at small concrete inputs.
use pinchtab.Prelude.{◌≡◌, refl, ◌⊎◌, none, some, [], ◌∷◌, arith}
use pinchtab.Prelude.Map
use pinchtab.Scheduler.Task.{Task, queued, assigned, running, done, cancelled, set_state}
use pinchtab.Scheduler.Task.Lifecycle
use pinchtab.Scheduler.Task.Lifecycle.{
  Follows, IsTimed, ◌⟶*◌, set_state-Follows, run_follows, run-terminal, set_state-IsTimed,
}
use pinchtab.Scheduler.Queue.{enqueue, dequeue, complete, remove, expire_deadlined}
use pinchtab.Scheduler.Queue.Admit.{Admitted, enqueue-Admitted}
use pinchtab.Scheduler.Queue.Fair.{Dequeued, dequeue-Dequeued}
use pinchtab.Scheduler.Queue.Finish.{Completed, complete-Completed, Removed, remove-Removed}
use pinchtab.Scheduler.Queue.Expire.{Expired, expire_deadlined-Expired}
use pinchtab.Scheduler.Results
use pinchtab.Scheduler.Results.{ResultStore, new_result_store}
use pinchtab.Scheduler.Results.Evict.{IsOld, get-evict}
use pinchtab.Scheduler.Metrics.{new_metrics}
use pinchtab.Scheduler.Metrics.Totals
use pinchtab.Scheduler.Metrics.Totals.{IsTotal, record_all, record_all-IsTotal}
use pinchtab.Scheduler.Samples.{
  slow, urgent, sample_task, one_task, two_tasks, one_task-IsSound, two_tasks-IsSound,
}

dequeue-Dequeued_example : Dequeued 1 2 two_tasks (dequeue 1 2 two_tasks)
dequeue-Dequeued_example =
    dequeue-Dequeued 1 2 two_tasks (two_tasks-IsSound.valid) (two_tasks-IsSound.named) (omega arith)

enqueue-Admitted_example : Admitted urgent one_task (enqueue urgent one_task)
enqueue-Admitted_example = enqueue-Admitted urgent one_task (one_task-IsSound.valid)

two_tasks-Completed : Completed "ada" two_tasks (complete "ada" two_tasks)
two_tasks-Completed = complete-Completed "ada" two_tasks (two_tasks-IsSound.valid)

without_slow-Removed : Removed "tsk_slow" "ada" two_tasks (remove "tsk_slow" "ada" two_tasks)
without_slow-Removed = remove-Removed "tsk_slow" "ada" two_tasks (two_tasks-IsSound.valid)

expire_deadlined-Expired_example :
    Expired (λ _. 300) two_tasks (expire_deadlined (λ _. 300) two_tasks)
expire_deadlined-Expired_example =
    expire_deadlined-Expired (λ _. 300) two_tasks (two_tasks-IsSound.valid)

set_state-Follows_example :
    Follows (sample_task slow queued) running (set_state 7 (sample_task slow queued) running)
set_state-Follows_example = set_state-Follows 7 (sample_task slow queued) running

run_follows_example :
    queued
    ⟶* (Lifecycle.run
        (sample_task slow queued)
        ((7, assigned) ∷ (8, running) ∷ (9, done) ∷ [])).state
run_follows_example =
    run_follows (sample_task slow queued) ((7, assigned) ∷ (8, running) ∷ (9, done) ∷ [])

cancelled_stays :
    Lifecycle.run (sample_task slow cancelled) ((9, done) ∷ []) ≡ sample_task slow cancelled
cancelled_stays = run-terminal (sample_task slow cancelled) ((9, done) ∷ []) refl

assigned_in_time : IsTimed (set_state 7 (sample_task slow queued) assigned).0
assigned_in_time = set_state-IsTimed 7 (sample_task slow queued) assigned (omega arith) (record {
  unstarted = λ _. refl;
  started = λ h. ground arith;
  unfinished = λ _. refl;
  finished = λ h. ground arith;
})

-- a store with one task that was done at the time 9
abbrev done_at_nine : Task
done_at_nine = record (sample_task slow done) { completed_at = 9 }

abbrev one_result : ResultStore
one_result = record { tasks = ("tsk_slow", done_at_nine) ∷ []; ttl = 50 }

get-evict_example :
    ((Results.get "tsk_slow" (Results.evict 60 one_result) ≡ none)
      × IsOld 60 one_result done_at_nine)
    ⊎ ((Results.get "tsk_slow" (Results.evict 60 one_result) ≡ some done_at_nine)
        × ¬ IsOld 60 one_result done_at_nine)
unfolding Results.get Map.lookup
get-evict_example = get-evict 60 one_result "tsk_slow" done_at_nine (refl, tt) refl

all_counted :
    IsTotal
      (record_all (Totals.submit "ada" ∷ Totals.submit "bob" ∷ Totals.fail "ada" ∷ []) new_metrics)
all_counted =
    record_all-IsTotal (Totals.submit "ada" ∷ Totals.submit "bob" ∷ Totals.fail "ada" ∷ [])
