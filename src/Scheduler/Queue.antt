-- ===== src/Scheduler/Queue.antt =====
-- internal/scheduler/queue.go: per-agent priority queues behind two limits. Each operation holds the
-- queue's lock, so it is one function. An `int` limit below 0 acts as 0 in every test.
pub mod Less
pub mod Invariant
pub mod Admit
pub mod Fair
pub mod Expire
pub mod Finish
pub mod Sound
use pinchtab.Prelude.{
  ℕ, suc, ◌+◌, ◌-◌, String, Bool, true, false, not, ◌&&◌, Option, none, some, List, [], ◌∷◌, ◌++◌,
  length, ltb, leb, ◌==◌, str_eq, if◌then◌else◌,
}
use pinchtab.Prelude.Int.{ltb_ℤ, eqb_ℤ}
use pinchtab.Prelude.Map
use pinchtab.Prelude.Map.{Map}
use pinchtab.Heap
use pinchtab.Scheduler.Task.{TaskRef}

-- `taskHeap.Less`: the lower priority value, then the earlier creation
unfoldable pub less : TaskRef → TaskRef → Bool
less s t =
    if eqb_ℤ s.priority t.priority
    then ltb s.created_at t.created_at
    else ltb_ℤ s.priority t.priority

pub record AgentQueue : Type 0 where
  pub tasks : List TaskRef
  pub inflight : ℕ

-- `notify` is whether the channel, whose buffer holds one signal, has one.
pub record TaskQueue : Type 0 where
  pub agents : Map AgentQueue
  pub total_count : ℕ
  pub max_total : ℕ
  pub max_per_agent : ℕ
  pub notify : Bool

unfoldable pub new_task_queue : ℕ → ℕ → TaskQueue
new_task_queue max_total max_per_agent = record {
  agents = [];
  total_count = 0;
  max_total = max_total;
  max_per_agent = max_per_agent;
  notify = false;
}

pub set_limits : ℕ → ℕ → TaskQueue → TaskQueue
set_limits max_total max_per_agent q = record q {
  max_total = if ltb 0 max_total then max_total else q.max_total;
  max_per_agent = if ltb 0 max_per_agent then max_per_agent else q.max_per_agent;
}

-- "global queue full (count/max)" and "agent queue full for agent (count/max)"
pub data QueueError : Type 0 where
  global_full : ℕ → ℕ → QueueError
  agent_full : String → ℕ → ℕ → QueueError

abbrev empty_agent : AgentQueue
empty_agent = record { tasks = []; inflight = 0 }

abbrev or_empty : Option AgentQueue → AgentQueue
or_empty none = empty_agent
or_empty (some aq) = aq

-- the queue after `heap.Push(&aq.tasks, t)` and the signal
abbrev admit : TaskRef → AgentQueue → TaskQueue → TaskQueue
admit t aq q = record q {
  agents = Map.insert t.agent_id (record aq { tasks = Heap.push less aq.tasks t }) q.agents;
  total_count = q.total_count + 1;
  notify = true;
}

pub data Admission : Type 0 where
  position : ℕ → Admission
  refused : QueueError → Admission

-- Enqueue: the queue afterwards, and the position or the error. An agent without an entry gets one
-- before its limit is checked.
unfoldable pub enqueue : TaskRef → TaskQueue → TaskQueue × Admission
enqueue t q =
    let aq = or_empty (Map.lookup t.agent_id q.agents) in
    if leb q.max_total q.total_count
    then (q, refused (global_full q.total_count q.max_total))
    else if leb q.max_per_agent (length aq.tasks)
    then (
      record q { agents = Map.insert t.agent_id aq q.agents },
      refused (agent_full t.agent_id (length aq.tasks) q.max_per_agent),
    )
    else (admit t aq q, position (q.total_count + 1))

abbrev pub max_int : ℕ
max_int = 9223372036854775807

-- the loop of Dequeue over the agents, with the best agent and its count so far
pub best_agent : ℕ → Map AgentQueue → String × ℕ → String × ℕ
best_agent max_per [] best = best
best_agent max_per ((id, aq) ∷ m) (agent, count) = best_agent max_per m (
    if length aq.tasks == 0
    then (agent, count)
    else if leb max_per aq.inflight
    then (agent, count)
    else if ltb aq.inflight count
    then (id, aq.inflight)
    else (agent, count))

abbrev pub inflight_of : Map AgentQueue → ℕ
inflight_of = Map.sum (λ aq. aq.inflight)

-- `heap.Pop(&aq.tasks)` for the agent that was chosen
pub take_from : String → AgentQueue → TaskQueue → Option (TaskRef × TaskQueue)
take_from agent aq q = elim (Heap.pop less aq.tasks) [
  | none ↦ none
  | some (t, rest) ↦ some (
    t,
    record q {
      agents = Map.insert agent (record { tasks = rest; inflight = aq.inflight + 1 }) q.agents;
      total_count = q.total_count - 1;
    },
  )
]

-- Dequeue; `none` is the nil task, which leaves the queue as it was.
pub dequeue : ℕ → ℕ → TaskQueue → Option (TaskRef × TaskQueue)
unfolding best_agent take_from
dequeue max_per max_global q =
    let agent = (best_agent max_per q.agents ("", max_int)).0 in
    if leb max_global (inflight_of q.agents)
    then none
    else if str_eq agent ""
    then none
    else elim (Map.lookup agent q.agents) [ none ↦ none | some aq ↦ take_from agent aq q ]

-- an agent's entry, which goes when it has no task queued or in flight
abbrev put : String → AgentQueue → Map AgentQueue → Map AgentQueue
put agent aq m =
    if aq.inflight == 0 && length aq.tasks == 0 then Map.delete agent m else Map.insert agent aq m

pub complete : String → TaskQueue → TaskQueue
complete agent q = elim (Map.lookup agent q.agents) [
  | none ↦ q
  | some aq ↦ record q {
    agents = put agent (record aq { inflight = aq.inflight - 1 }) q.agents;
    notify = if length aq.tasks == 0 then q.notify else true;
  }
]

-- the index of the first task with the id, counting from `i`
pub index_of : String → List TaskRef → ℕ → Option ℕ
index_of id [] i = none
index_of id (t ∷ ts) i = if str_eq t.id id then some i else index_of id ts (suc i)

remove_at : String → AgentQueue → ℕ → TaskQueue → TaskQueue × Bool
remove_at agent aq i q = elim (Heap.remove less aq.tasks i) [
  | none ↦ (q, false)
  | some (_, rest) ↦ (
    record q {
      agents = put agent (record aq { tasks = rest }) q.agents;
      total_count = q.total_count - 1;
    },
    true,
  )
]

pub remove : String → String → TaskQueue → TaskQueue × Bool
unfolding index_of remove_at
remove task_id agent q = elim (Map.lookup agent q.agents) [
  | none ↦ (q, false)
  | some aq ↦ elim (index_of task_id aq.tasks 0) [
    | none ↦ (q, false)
    | some i ↦ remove_at agent aq i q
  ]
]

-- `!t.Deadline.IsZero() && t.Deadline.Before(timeNow())`
abbrev pub is_expired : ℕ → TaskRef → Bool
is_expired now t = not (t.deadline == 0) && ltb t.deadline now

-- the tasks that have expired, and those that remain; `now t` is the clock's reading for `t`
pub expired_tasks : (TaskRef → ℕ) → List TaskRef → List TaskRef
expired_tasks now [] = []
expired_tasks now (t ∷ ts) =
    let rest = expired_tasks now ts in if is_expired (now t) t then t ∷ rest else rest

pub remaining_tasks : (TaskRef → ℕ) → List TaskRef → List TaskRef
remaining_tasks now [] = []
remaining_tasks now (t ∷ ts) =
    let rest = remaining_tasks now ts in if is_expired (now t) t then rest else t ∷ rest

pub expire_agent : (TaskRef → ℕ) → AgentQueue → AgentQueue
unfolding expired_tasks remaining_tasks
expire_agent now aq =
    let remaining = remaining_tasks now aq.tasks in
    if length remaining == length aq.tasks
    then aq
    else record aq { tasks = Heap.init less remaining }

-- the loop of ExpireDeadlined over the agents: those that are left, and the expired tasks
pub expire_agents : (TaskRef → ℕ) → Map AgentQueue → Map AgentQueue × List TaskRef
unfolding expire_agent
expire_agents now [] = ([], [])
expire_agents now ((id, aq) ∷ m) =
    let (rest, expired) = expire_agents now m in
    let kept = expire_agent now aq in
    (
      if length kept.tasks == 0 && kept.inflight == 0 then rest else (id, kept) ∷ rest,
      expired_tasks now aq.tasks ++ expired,
    )

pub expire_deadlined : (TaskRef → ℕ) → TaskQueue → TaskQueue × List TaskRef
unfolding expire_agents
expire_deadlined now q =
    let (agents, expired) = expire_agents now q.agents in
    (record q { agents = agents; total_count = q.total_count - length expired }, expired)

pub record AgentStats : Type 0 where
  pub queued : ℕ
  pub inflight : ℕ

pub record QueueStats : Type 0 where
  pub total_queued : ℕ
  pub total_inflight : ℕ
  pub agents : Map AgentStats

agent_stats : Map AgentQueue → Map AgentStats
agent_stats [] = []
agent_stats ((id, aq) ∷ m) =
    (id, record { queued = length aq.tasks; inflight = aq.inflight }) ∷ agent_stats m

pub stats : TaskQueue → QueueStats
unfolding agent_stats
stats q = record {
  total_queued = q.total_count;
  total_inflight = inflight_of q.agents;
  agents = agent_stats q.agents;
}
