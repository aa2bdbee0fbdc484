-- ===== src/Scheduler/Batch.antt =====
-- handleBatch of internal/scheduler/batch.go, once the body is decoded. The tasks of a batch are
-- submitted one after the other; each submission has its own reading of the clock and its own
-- random id.
use pinchtab.Prelude.{
  ℕ, suc, String, Option, none, some, List, [], ◌∷◌, length, ltb, ◌==◌, str_eq, if◌then◌else◌,
}
use pinchtab.Prelude.Int.{ℤ}
use pinchtab.Scheduler.Task.{Task, TaskState, rejected, SubmitRequest}
use pinchtab.Scheduler.State.{Scheduler}
use pinchtab.Scheduler.Submit.{World, SubmitError, queue_full, submit}

pub record BatchTaskDef : Type 0 where
  pub action : String
  pub tab_id : String
  pub ref : String
  pub params : String
  pub priority : ℤ
  pub deadline : String

pub record BatchRequest : Type 0 where
  pub agent_id : String
  pub callback_url : String
  pub tasks : List BatchTaskDef

pub record BatchResponseItem : Type 0 where
  pub task_id : String
  pub state : TaskState
  pub position : ℕ
  pub error : Option SubmitError

pub data BatchResponse : Type 0 where
  missing_agent_id empty_batch : BatchResponse
  batch_too_large : ℕ → ℕ → BatchResponse
  answered : List BatchResponseItem → BatchResponse

abbrev pub submit_request : BatchRequest → BatchTaskDef → SubmitRequest
submit_request req td = record {
  agent_id = req.agent_id;
  action = td.action;
  tab_id = td.tab_id;
  ref = td.ref;
  params = td.params;
  priority = td.priority;
  deadline = td.deadline;
  callback_url = req.callback_url;
}

-- the item of a task, given what Submit returns and the task that it built, if it built one
abbrev pub item_of : String → Task → Option SubmitError → BatchResponseItem
item_of id t none = record { task_id = t.id; state = t.state; position = t.position; error = none }
item_of id t (some (queue_full e)) = record {
  task_id = id;
  state = rejected;
  position = 0;
  error = some (queue_full e);
}
item_of id t (some e) = record { task_id = ""; state = rejected; position = 0; error = some e }

-- the loop over the tasks, from the one with the index `i` on
unfoldable pub batch_loop :
    (ℕ → World)
    → BatchRequest
    → ℕ
    → List BatchTaskDef
    → Scheduler
    → Scheduler × List BatchResponseItem
batch_loop world req i [] s = (s, [])
batch_loop world req i (td ∷ tds) s =
    let (s1, error) = submit (world i) (submit_request req td) s in
    let (s2, items) = batch_loop world req (suc i) tds s1 in
    (s2, item_of (world i).task_id (s1.memory s.next_address) error ∷ items)

unfoldable pub handle_batch : (ℕ → World) → BatchRequest → Scheduler → Scheduler × BatchResponse
unfolding batch_loop
handle_batch world req s =
    let (s', items) = batch_loop world req 0 req.tasks s in
    if str_eq req.agent_id ""
    then (s, missing_agent_id)
    else if length req.tasks == 0
    then (s, empty_batch)
    else if ltb s.cfg.max_batch_size (length req.tasks)
    then (s, batch_too_large (length req.tasks) s.cfg.max_batch_size)
    else (s', answered items)
