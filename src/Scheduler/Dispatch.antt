-- ===== src/Scheduler/Dispatch.antt =====
-- The workers, the reaper and Stop of internal/scheduler/scheduler.go. A worker's dispatch is four
-- steps, between which other goroutines run: the Dequeue, the two changes of state before the
-- request, and what follows the request.
use pinchtab.Prelude.{
  ℕ, String, Bool, true, false, Option, none, some, List, [], ◌∷◌, if◌then◌else◌,
}
use pinchtab.Prelude.Map
use pinchtab.Prelude.Map.{Map}
use pinchtab.Scheduler.Task.{
  TaskRef, assigned, running, done, failed, cancelled, is_terminal, set_state,
}
use pinchtab.Scheduler.Queue
use pinchtab.Scheduler.Results
use pinchtab.Scheduler.Metrics.{
  record_complete, record_fail, record_expire, record_dispatch_latency,
}
use pinchtab.Scheduler.State.{Scheduler, load, write, set_state_of, store_result, finish_task}

-- `s.queue.Dequeue(s.inflightLimits())`
unfoldable pub take : Scheduler → Option (TaskRef × Scheduler)
take s = elim (Queue.dequeue s.cfg.max_per_agent_flight s.cfg.max_inflight s.queue) [
  | none ↦ none
  | some (r, q) ↦ some (r, record s { queue = q })
]

-- `results.Store(t)` and the new context's cancel function
abbrev pub open_context : TaskRef → Scheduler → Scheduler
open_context r s = record s {
  results = Results.store (load r s) s.results;
  cancels = Map.insert r.id false s.cancels;
}

-- dispatch up to the context; true if it goes on
unfoldable pub assign : ℕ → TaskRef → Scheduler → Scheduler × Bool
assign now r s =
    let s1 = set_state_of now r assigned s in
    elim (set_state now (load r s) assigned).1 [
      | some _ ↦ (finish_task r s1, false)
      | none ↦ (open_context r s1, true)
    ]

-- the deferred cleanup
abbrev pub drop_context : TaskRef → Scheduler → Scheduler
drop_context r s = record s { cancels = Map.delete r.id s.cancels }

-- dispatch up to the request; true if it goes on
unfoldable pub start : ℕ → TaskRef → Scheduler → Scheduler × Bool
start now r s =
    let s1 = set_state_of now r running s in
    elim (set_state now (load r s) running).1 [
      | some _ ↦ (drop_context r (finish_task r s1), false)
      | none ↦ (store_result r s1, true)
    ]

-- what executeTask returns
pub data Outcome : Type 0 where
  success : String → Outcome
  failure : String → Outcome

-- the failed or completed task is counted
abbrev pub count_outcome : TaskRef → Outcome → Scheduler → Scheduler
count_outcome r (failure _) s = record s { metrics = record_fail r.agent_id s.metrics }
count_outcome r (success _) s = record s { metrics = record_complete r.agent_id s.metrics }

-- the error or the result is written, and the state changes if it may
abbrev pub settle : ℕ → TaskRef → Outcome → Scheduler → Scheduler
settle now r (failure error) s =
    set_state_of now r failed (write r (record (load r s) { error = error }) s)
settle now r (success result) s =
    set_state_of now r done (write r (record (load r s) { result = some result }) s)

abbrev pub count_latency : ℕ → Scheduler → Scheduler
count_latency latency s = record s { metrics = record_dispatch_latency latency s.metrics }

-- dispatch after the request, whose dispatch began `latency` before
unfoldable pub conclude : ℕ → ℕ → TaskRef → Outcome → Scheduler → Scheduler
conclude now latency r outcome s =
    drop_context r
      (finish_task r (count_outcome r outcome (settle now r outcome (count_latency latency s))))

abbrev pub count_expired : TaskRef → Scheduler → Scheduler
count_expired r s = record s { metrics = record_fail r.agent_id (record_expire s.metrics) }

-- the reaper's treatment of one expired task
unfoldable pub reap_task : ℕ → TaskRef → Scheduler → Scheduler
reap_task now r s =
    let late = record (load r s) { error = "deadline exceeded while queued" } in
    finish_task r (count_expired r (set_state_of now r failed (write r late s)))

-- the reaper's loop over the expired tasks
unfoldable pub reap_loop : ℕ → List TaskRef → Scheduler → Scheduler
unfolding reap_task
reap_loop now [] s = s
reap_loop now (r ∷ rs) s = reap_loop now rs (reap_task now r s)

-- one tick of deadlineReaper
unfoldable pub reap : ℕ → (TaskRef → ℕ) → Scheduler → Scheduler
unfolding reap_loop
reap now clock s =
    let (q, expired) = Queue.expire_deadlined clock s.queue in
    reap_loop now expired (record s { queue = q })

-- the loop of Stop over the live tasks, once the workers have ended
unfoldable pub shut_task : ℕ → TaskRef → Scheduler → Scheduler
shut_task now r s =
    let s1 = set_state_of now r cancelled s in
    let s2 = write r (record (load r s1) { error = "scheduler shutdown" }) s1 in
    if is_terminal (load r s).state then s else store_result r s2

unfoldable pub shut_down : ℕ → Map TaskRef → Scheduler → Scheduler
unfolding shut_task
shut_down now [] s = s
shut_down now ((id, r) ∷ m) s = shut_down now m (shut_task now r s)

unfoldable pub stop : ℕ → Scheduler → Scheduler
unfolding shut_down
stop now s = let s1 = shut_down now s.live s in record s1 { live = [] }

-- the reaper of the results
unfoldable pub evict : ℕ → Scheduler → Scheduler
evict now s = record s { results = Results.evict now s.results }
