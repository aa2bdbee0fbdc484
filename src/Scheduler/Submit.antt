-- ===== src/Scheduler/Submit.antt =====
-- Submit of internal/scheduler/scheduler.go, and the batch of batch.go. An operation is one step of
-- the model: what another goroutine may do between its locks is left out.
use pinchtab.Prelude.{
  ℕ, suc, ◌+◌, ◌*◌, String, Bool, Option, none, some, ltb, str_eq, if◌then◌else◌,
}
use pinchtab.Prelude.Map
use pinchtab.Scheduler.Task.{
  Task, TaskRef, queued, rejected, SubmitRequest, ValidationError, validate,
}
use pinchtab.Scheduler.Queue
use pinchtab.Scheduler.Queue.{QueueError, Admission, position, refused}
use pinchtab.Scheduler.Results
use pinchtab.Scheduler.Metrics.{record_submit, record_reject}
use pinchtab.Scheduler.State.{Scheduler, write}
use pinchtab.Scheduler.Config.{second}

-- What Submit asks of the world: validateCallbackURL, `time.Parse(time.RFC3339, …)`, `timeNow()`, the
-- random task id, and the text of an error.
pub record World : Type 0 where
  pub valid_callback : String → Bool
  pub parse_deadline : String → Option ℕ
  pub now : ℕ
  pub task_id : String
  pub error_text : QueueError → String

pub data SubmitError : Type 0 where
  invalid_task : ValidationError → SubmitError
  invalid_deadline past_deadline : SubmitError
  queue_full : QueueError → SubmitError

-- The deadline of a request: a minute from now, or the one that it gives.
abbrev pub deadline_of : World → SubmitRequest → Option ℕ
deadline_of w req =
    if str_eq req.deadline "" then some (w.now + 60 * second) else w.parse_deadline req.deadline

unfoldable pub new_ref : World → SubmitRequest → ℕ → ℕ → TaskRef
new_ref w req deadline address = record {
  address = address;
  id = w.task_id;
  agent_id = req.agent_id;
  action = req.action;
  tab_id = req.tab_id;
  ref = req.ref;
  params = req.params;
  priority = req.priority;
  deadline = deadline;
  created_at = w.now;
  callback_url = req.callback_url;
}

-- the task that Submit builds
unfoldable pub new_task : TaskRef → Task
new_task r = record {
  spec = r;
  state = queued;
  started_at = 0;
  completed_at = 0;
  latency_ms = 0;
  result = none;
  error = "";
  position = 0;
}

-- a task that the queue refuses: its result is stored
abbrev pub reject : World → TaskRef → QueueError → Scheduler → Scheduler
reject w r e s =
    let t = record (new_task r) { state = rejected; error = w.error_text e } in
    write r t (record s {
      results = Results.store t s.results;
      metrics = record_reject r.agent_id s.metrics;
      next_address = suc s.next_address;
    })

-- a task that the queue has taken: it is live
abbrev pub register : TaskRef → ℕ → Scheduler → Scheduler
register r p s =
    let t = record (new_task r) { position = p } in
    write r t (record s {
      live = Map.insert r.id r s.live;
      results = Results.store t s.results;
      metrics = record_submit r.agent_id s.metrics;
      next_address = suc s.next_address;
    })

-- Submit from `s.queue.Enqueue(t)` on
unfoldable pub accept : World → TaskRef → Scheduler → Scheduler × Option SubmitError
unfolding new_task
accept w r s =
    let (q, admission) = Queue.enqueue r s.queue in
    elim admission [
      | refused e ↦ (reject w r e (record s { queue = q }), some (queue_full e))
      | position p ↦ (register r p (record s { queue = q }), none)
    ]

-- the parsed deadline is refused if it is before `now`; the default one never is
unfoldable pub checked :
    World → SubmitRequest → Scheduler → Option ℕ → Scheduler × Option SubmitError
unfolding accept new_ref
checked w req s none = (s, some invalid_deadline)
checked w req s (some d) =
    if ltb d w.now then (s, some past_deadline) else accept w (new_ref w req d s.next_address) s

-- Submit; the task that it returns is the one at the address that was next, if a task was built.
unfoldable pub submit : World → SubmitRequest → Scheduler → Scheduler × Option SubmitError
unfolding validate checked
submit w req s = elim (validate w.valid_callback req) [
  | some e ↦ (s, some (invalid_task e))
  | none ↦ checked w req s (deadline_of w req)
]
