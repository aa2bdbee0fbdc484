-- ===== src/Scheduler/State.antt =====
-- The Scheduler of internal/scheduler/scheduler.go: its state, and what its operations share. A task
-- is shared by pointers; `memory` holds the task at each address below `next_address`.
use pinchtab.Prelude.{
  ℕ, ◌+◌, String, Bool, not, ◌&&◌, Option, none, some, List, [], ◌∷◌, ltb, ◌==◌, str_eq,
  if◌then◌else◌,
}
use pinchtab.Prelude.Map
use pinchtab.Prelude.Map.{Map}
use pinchtab.Scheduler.Task.{Task, TaskRef, TaskState, is_terminal, set_state}
use pinchtab.Scheduler.Queue
use pinchtab.Scheduler.Queue.{TaskQueue, QueueStats, new_task_queue}
use pinchtab.Scheduler.Results
use pinchtab.Scheduler.Results.{ResultStore, new_result_store}
use pinchtab.Scheduler.Metrics.{Metrics, new_metrics}
use pinchtab.Scheduler.Config.{Config, normalize}

-- `cancels` tells for each context that has a cancel function whether it has been called, and
-- `webhooks` counts the slots of webhookSem that are taken; `sent` lists the tasks for whose
-- callbacks a delivery was started, the latest first.
pub record Scheduler : Type 0 where
  pub cfg : Config
  pub queue : TaskQueue
  pub results : ResultStore
  pub metrics : Metrics
  pub live : Map TaskRef
  pub cancels : Map Bool
  pub webhooks : ℕ
  pub sent : List Task
  pub memory : ℕ → Task
  pub next_address : ℕ

-- New; `blank` is what stands at the addresses that are not in use.
unfoldable pub new : Task → Config → Scheduler
new blank config =
    let cfg = normalize config in
    record {
      cfg = cfg;
      queue = new_task_queue cfg.max_queue_size cfg.max_per_agent;
      results = new_result_store cfg.result_ttl;
      metrics = new_metrics;
      live = [];
      cancels = [];
      webhooks = 0;
      sent = [];
      memory = λ _. blank;
      next_address = 0;
    }

-- the task behind a pointer
abbrev pub load : TaskRef → Scheduler → Task
load r s = s.memory r.address

-- a write through a pointer
abbrev pub write : TaskRef → Task → Scheduler → Scheduler
write r t s = record s { memory = λ p. if p == r.address then t else s.memory p }

-- `t.SetState(next)` through a pointer
unfoldable pub set_state_of : ℕ → TaskRef → TaskState → Scheduler → Scheduler
set_state_of now r next s = write r (set_state now (load r s) next).0 s

-- `s.results.Store(t)`
abbrev pub store_result : TaskRef → Scheduler → Scheduler
store_result r s = record s { results = Results.store (load r s) s.results }

-- the goroutine that posts to the callback, if a slot of webhookSem is free
abbrev pub max_webhooks : ℕ
max_webhooks = 16

abbrev pub fire_webhook : TaskRef → Scheduler → Scheduler
fire_webhook r s =
    if not (str_eq r.callback_url "") && is_terminal (load r s).state
    then (if ltb s.webhooks max_webhooks
        then record s { webhooks = s.webhooks + 1; sent = load r s ∷ s.sent }
        else s)
    else s

-- finishTask up to the webhook
abbrev pub end_task : TaskRef → Scheduler → Scheduler
end_task r s = record s {
  results = Results.store (load r s) s.results;
  queue = Queue.complete r.agent_id s.queue;
  live = Map.delete r.id s.live;
}

-- finishTask
unfoldable pub finish_task : TaskRef → Scheduler → Scheduler
finish_task r s = fire_webhook r (end_task r s)

-- GetTask
unfoldable pub get_task : String → Scheduler → Option Task
get_task task_id s = elim (Map.lookup task_id s.live) [
  | some r ↦ some (load r s)
  | none ↦ Results.get task_id s.results
]

-- ReloadConfig
unfoldable pub reload_config : Config → Scheduler → Scheduler
reload_config c s = record s {
  queue =
      if ltb 0 c.max_queue_size
      then Queue.set_limits c.max_queue_size c.max_per_agent s.queue
      else s.queue;
  cfg =
      if ltb 0 c.max_inflight
      then record (s.cfg) {
        max_inflight = c.max_inflight;
        max_per_agent_flight = c.max_per_agent_flight;
      }
      else s.cfg;
  results = if ltb 0 c.result_ttl then Results.set_ttl c.result_ttl s.results else s.results;
}
