-- ===== src/Scheduler/Samples.antt =====
-- Small schedulers for the examples.
use pinchtab.Prelude.{ℕ, ◌+◌, String, true, none, some, [], ◌∷◌, arith, refl, length-perm}
use pinchtab.Prelude.Int.{pos}
use pinchtab.Prelude.Map
use pinchtab.Heap
use pinchtab.Heap.Ops.{push_lem}
use pinchtab.Scheduler.Queue.Less.{less-IsWeakOrder}
use pinchtab.Scheduler.Queue.Invariant.{IsOwned, IsBusy, push-IsOwned, empty_agent-IsOwned}
use pinchtab.Scheduler.System.Linked.{IsLinked}
use pinchtab.Scheduler.Task.{Task, TaskRef, TaskState, SubmitRequest}
use pinchtab.Scheduler.Queue.{TaskQueue, AgentQueue, less, new_task_queue, enqueue}
use pinchtab.Scheduler.Queue.Sound.{IsSound, new-IsSound, enqueue-IsSound}
use pinchtab.Scheduler.Config.{Config}
use pinchtab.Scheduler.State.{Scheduler, new}
use pinchtab.Scheduler.Submit.{World}

-- a task of an agent: its address, id, agent, priority and deadline
abbrev pub sample_ref : ℕ → String → String → ℕ → ℕ → TaskRef
sample_ref address id agent priority deadline = record {
  address = address;
  id = id;
  agent_id = agent;
  action = "click";
  tab_id = "tab_1";
  ref = "e5";
  params = "";
  priority = pos priority;
  deadline = deadline;
  created_at = 100 + address;
  callback_url = "";
}

abbrev pub slow : TaskRef
slow = sample_ref 0 "tsk_slow" "ada" 5 0

abbrev pub urgent : TaskRef
urgent = sample_ref 1 "tsk_urgent" "ada" 1 200

abbrev pub other : TaskRef
other = sample_ref 2 "tsk_other" "bob" 3 0

abbrev pub sample_task : TaskRef → TaskState → Task
sample_task r state = record {
  spec = r;
  state = state;
  started_at = 0;
  completed_at = 0;
  latency_ms = 0;
  result = none;
  error = "";
  position = 0;
}

abbrev pub no_tasks : TaskQueue
no_tasks = new_task_queue 3 2

abbrev pub one_task : TaskQueue
one_task = (enqueue slow no_tasks).0

abbrev pub two_tasks : TaskQueue
two_tasks = (enqueue urgent one_task).0

pub no_tasks-IsSound : IsSound no_tasks
no_tasks-IsSound = new-IsSound 3 2 (omega arith)

pub one_task-IsSound : IsSound one_task
one_task-IsSound = enqueue-IsSound slow no_tasks refl no_tasks-IsSound

pub two_tasks-IsSound : IsSound two_tasks
two_tasks-IsSound = enqueue-IsSound urgent one_task refl one_task-IsSound

abbrev pub sample_config : Config
sample_config = record {
  max_queue_size = 3;
  max_per_agent = 2;
  max_inflight = 2;
  max_per_agent_flight = 1;
  result_ttl = 50;
  worker_count = 1;
  max_batch_size = 5;
  watcher_interval = 10;
}

-- a scheduler at the time 150, in which the next task has the given id
abbrev pub sample_world : String → World
sample_world id = record {
  valid_callback = λ _. true;
  parse_deadline = λ _. some 500;
  now = 150;
  task_id = id;
  error_text = λ _. "full";
}

abbrev pub sample_request : SubmitRequest
sample_request = record {
  agent_id = "ada";
  action = "click";
  tab_id = "tab_1";
  ref = "e5";
  params = "";
  priority = pos 1;
  deadline = "2026-01-01T00:00:00Z";
  callback_url = "";
}

-- a scheduler in which `slow` is live, in the given state, and `agent`'s tasks are as in the queue
abbrev pub one_live : TaskState → TaskQueue → Scheduler
one_live state q = record (new (sample_task slow state) sample_config) {
  queue = q;
  live = ("tsk_slow", slow) ∷ [];
  next_address = 1;
}

pub one_live-IsLinked : (state : TaskState) (q : TaskQueue) → IsLinked (one_live state q)
unfolding new
one_live-IsLinked state q =
    Map.Every-cons _ "tsk_slow" slow [] (refl, omega arith, refl)
      (λ j w e. absurd (Map.lookup-nil j w e))

-- an agent with `slow` queued and so many tasks in flight
abbrev pub busy_agent : ℕ → AgentQueue
busy_agent n = record { tasks = Heap.push less [] slow; inflight = n }

abbrev pub busy_queue : ℕ → TaskQueue
busy_queue n = record {
  agents = ("ada", busy_agent n) ∷ [];
  total_count = 1;
  max_total = 3;
  max_per_agent = 2;
  notify = true;
}

pub busy_queue-IsSound : (n : ℕ) → IsSound (busy_queue n)
unfolding Map.lookup
busy_queue-IsSound n =
    let nothing = empty_agent-IsOwned "ada" in
    let (heap, perm) = push_lem less less-IsWeakOrder [] slow (nothing.heap) in
    record {
      valid = record {
        distinct = (refl, tt);
        owned =
            Map.Every-cons IsOwned "ada" (busy_agent n) [] (push-IsOwned slow _ n nothing)
              (λ j w e. absurd (Map.lookup-nil j w e));
        busy =
            Map.Every-cons IsBusy "ada" (busy_agent n) [] (omega (arith, length-perm perm))
              (λ j w e. absurd (Map.lookup-nil j w e));
        counted = omega (arith, length-perm perm);
      };
      room = omega arith;
      named = refl;
    }
