-- ===== src/Scheduler/Cancel.antt =====
-- Cancel of internal/scheduler/scheduler.go, cut into its critical sections, between which other
-- goroutines run.
use pinchtab.Prelude.{String, ℕ, zero, suc, Bool, true, Option, none, some, if◌then◌else◌}
use pinchtab.Prelude.Map
use pinchtab.Prelude.Map.{Map}
use pinchtab.Scheduler.Task.{
  Task, TaskRef, TaskState, queued, cancelled, is_terminal, set_state, StateError,
}
use pinchtab.Scheduler.Queue
use pinchtab.Scheduler.Results
use pinchtab.Scheduler.Results.{same_state}
use pinchtab.Scheduler.Metrics.{record_cancel}
use pinchtab.Scheduler.State.{Scheduler, load, set_state_of, finish_task}

pub data CancelError : Type 0 where
  not_found not_active : CancelError
  already_terminal : TaskState → CancelError
  cancel_failed : StateError → CancelError

-- the answer for a task that is not live
unfoldable pub absent : Option Task → CancelError
absent none = not_found
absent (some stored) =
    if is_terminal stored.state then already_terminal stored.state else not_active

-- `cancel()`, where the task has a cancel function
abbrev pub call_cancel : String → Map Bool → Map Bool
call_cancel id m = elim (Map.lookup id m) [ none ↦ m | some _ ↦ Map.insert id true m ]

-- Where a call of Cancel stands: before it looks for the live task, or for the result; before GetState;
-- before Remove, with the state that it has read; before the cancel function, SetState and what follows
-- it; and at its end.
pub data Cancelling : Type 0 where
  looking unlisted : Cancelling
  found_live : TaskRef → Cancelling
  observed : TaskState → TaskRef → Cancelling
  removed signalled marked : TaskRef → Cancelling
  answered : Option CancelError → Cancelling

-- a task that was seen queued leaves the queue
abbrev pub withdraw : TaskState → TaskRef → Scheduler → Scheduler
withdraw state r s = record s {
  queue = if same_state state queued then (Queue.remove r.id r.agent_id s.queue).0 else s.queue;
}

-- the section under cancelsMu
abbrev pub signal : String → Scheduler → Scheduler
signal id s = record s { cancels = call_cancel id s.cancels }

abbrev pub count_cancel : TaskRef → Scheduler → Scheduler
count_cancel r s = record s { metrics = record_cancel r.agent_id s.metrics }

-- after GetState
abbrev pub judged : TaskState → TaskRef → Cancelling
judged state r =
    if is_terminal state then answered (some (already_terminal state)) else observed state r

-- after SetState
abbrev pub after_set : TaskRef → Option StateError → Cancelling
after_set r none = marked r
after_set r (some e) = answered (some (cancel_failed e))

abbrev pub after_look : Option TaskRef → Cancelling
after_look none = unlisted
after_look (some r) = found_live r

-- the next section of a call
unfoldable pub cancel_step : ℕ → String → Cancelling → Scheduler → Scheduler × Cancelling
unfolding absent
cancel_step now id looking s = (s, after_look (Map.lookup id s.live))
cancel_step now id unlisted s = (s, answered (some (absent (Results.get id s.results))))
cancel_step now id (found_live r) s = (s, judged (load r s).state r)
cancel_step now id (observed state r) s = (withdraw state r s, removed r)
cancel_step now id (removed r) s = (signal id s, signalled r)
cancel_step now id (signalled r) s =
    (set_state_of now r cancelled s, after_set r (set_state now (load r s) cancelled).1)
cancel_step now id (marked r) s = (finish_task r (count_cancel r s), answered none)
cancel_step now id (answered o) s = (s, answered o)

-- sections of a call of which no other goroutine comes between
unfoldable pub cancel_steps : ℕ → ℕ → String → Cancelling → Scheduler → Scheduler × Cancelling
unfolding cancel_step
cancel_steps zero now id p s = (s, p)
cancel_steps (suc n) now id p s =
    let (s', p') = cancel_step now id p s in cancel_steps n now id p' s'

-- Cancel where no other goroutine comes between: it has six sections at most
unfoldable pub cancel : ℕ → String → Scheduler → Scheduler × Cancelling
unfolding cancel_steps
cancel now task_id s = cancel_steps 6 now task_id looking s
