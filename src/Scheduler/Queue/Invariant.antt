-- ===== src/Scheduler/Queue/Invariant.antt =====
-- The invariant of the queue, and that every operation keeps it.
use mathlib.Core.List.Perm
use mathlib.Core.List.{Mem, not-mem-nil, mem-cons}
use mathlib.Core.Logic.Or
use pinchtab.Prelude.{
  ℕ, ◌+◌, ◌<◌, ◌≡◌, ap, inl, inr, String, false, ◌&&◌, Option, some, List, length, ◌==◌, str_eq,
  eq_refl, Bool-cases, Option-cases, arith,
}
use pinchtab.Prelude.Map
use pinchtab.Prelude.Map.{Map, String-set}
use pinchtab.Heap
use pinchtab.Heap.Order.{IsHeap}
use pinchtab.Heap.Ops.{push_lem}
use pinchtab.Scheduler.Task.{TaskRef}
use pinchtab.Scheduler.Queue.{TaskQueue, AgentQueue, less, empty_agent, or_empty, put}
use pinchtab.Scheduler.Queue.Less.{less-IsWeakOrder}

-- An agent's tasks are a heap, and are the agent's own.
pub record IsOwned (agent : String) (aq : AgentQueue) : Type 0 where
  pub heap : IsHeap less aq.tasks
  pub own : (t : TaskRef) → Mem t aq.tasks → t.agent_id ≡ agent

-- An entry has a task queued or in flight.
abbrev pub IsBusy : String → AgentQueue → Type 0
IsBusy agent aq = 0 < length aq.tasks + aq.inflight

abbrev pub queued_of : Map AgentQueue → ℕ
queued_of = Map.sum (λ aq. length aq.tasks)

-- Entries that hold `n` queued tasks in all.
pub record Counts (m : Map AgentQueue) (n : ℕ) : Type 0 where
  pub distinct : Map.Distinct m
  pub owned : Map.Every IsOwned m
  pub busy : Map.Every IsBusy m
  pub counted : n ≡ queued_of m

-- `totalCount` counts the queued tasks, each agent's tasks are a heap of its own, and there is no
-- entry for an idle agent.
abbrev pub IsValid : TaskQueue → Type 0
IsValid q = Counts q.agents q.total_count

abbrev pub queued_at : Option AgentQueue → ℕ
queued_at = Map.at (λ aq. length aq.tasks)

pub insert-Counts :
    (agent : String) (aq : AgentQueue) (m : Map AgentQueue) (n n' : ℕ)
    → Counts m n
    → IsOwned agent aq
    → IsBusy agent aq
    → n' + queued_at (Map.lookup agent m) ≡ n + length aq.tasks
    → Counts (Map.insert agent aq m) n'
insert-Counts agent aq m n n' c own busy e = record {
  distinct = Map.insert-Distinct agent aq m c.distinct;
  owned = Map.insert-Every IsOwned agent aq m own c.owned;
  busy = Map.insert-Every IsBusy agent aq m busy c.busy;
  counted = omega (arith, c.counted, e, Map.sum-insert (λ aq. length aq.tasks) agent aq m);
}

pub put-Counts :
    (agent : String) (aq : AgentQueue) (m : Map AgentQueue) (n n' : ℕ)
    → Counts m n
    → IsOwned agent aq
    → n' + queued_at (Map.lookup agent m) ≡ n + length aq.tasks
    → Counts (put agent aq m) n'
put-Counts agent aq m n n' c own e = elim (Bool-cases (aq.inflight == 0 && length aq.tasks == 0)) [
  | inl idle ↦ rw idle (record {
    distinct = Map.delete-Distinct agent m c.distinct;
    owned = Map.delete-Every IsOwned agent m c.owned;
    busy = Map.delete-Every IsBusy agent m c.busy;
    counted =
        ground (arith, c.counted, e, Map.sum-delete (λ aq. length aq.tasks) agent m c.distinct);
  })
  | inr work ↦ rw work (insert-Counts agent aq m n n' c own (ground arith) e)
]

pub empty_agent-IsOwned : (agent : String) → IsOwned agent empty_agent
empty_agent-IsOwned agent = record {
  heap = λ c p pos low. elim p [ ];
  own = λ t m. absurd (not-mem-nil m);
}

pub or_empty-IsOwned :
    (agent : String) (q : TaskQueue)
    → IsValid q
    → IsOwned agent (or_empty (Map.lookup agent q.agents))
or_empty-IsOwned agent q v = elim (Option-cases (Map.lookup agent q.agents)) [
  | inl absent ↦ rw absent (empty_agent-IsOwned agent)
  | inr (aq, found) ↦ rw found (v.owned agent aq found)
]

-- The heap operations keep an agent's tasks its own.
pub push-IsOwned :
    (t : TaskRef) (aq : AgentQueue) (inflight : ℕ)
    → IsOwned t.agent_id aq
    → IsOwned t.agent_id (record { tasks = Heap.push less aq.tasks t; inflight = inflight })
push-IsOwned t aq inflight o =
    let (heap, perm) = push_lem less less-IsWeakOrder aq.tasks t o.heap in
    record {
      heap = heap;
      own = λ s m.
          Or.elim (String-set _ _) (mem-cons.0 ((Perm.mem_iff perm).0 m))
            (λ e. ap (λ r. r.agent_id) e) (o.own s);
    }

-- The tasks that an agent has queued, and its number of tasks in flight.
abbrev pub tasks_of : String → TaskQueue → List TaskRef
tasks_of agent q = (or_empty (Map.lookup agent q.agents)).tasks

abbrev pub inflight_for : String → TaskQueue → ℕ
inflight_for agent q = (or_empty (Map.lookup agent q.agents)).inflight

-- The two queues hold the same for an agent.
abbrev pub SameFor : String → TaskQueue → TaskQueue → Type 0
SameFor agent q q' =
    (tasks_of agent q' ≡ tasks_of agent q) × (inflight_for agent q' ≡ inflight_for agent q)

-- What an insertion leaves for the other agents.
pub insert-SameFor :
    (agent a : String) (aq : AgentQueue) (m : Map AgentQueue)
    → str_eq agent a ≡ false
    → or_empty (Map.lookup a (Map.insert agent aq m)) ≡ or_empty (Map.lookup a m)
insert-SameFor agent a aq m h = rw (Map.lookup-insert agent a aq m) (rw h)

pub insert_self :
    (agent : String) (aq : AgentQueue) (m : Map AgentQueue)
    → Map.lookup agent (Map.insert agent aq m) ≡ some aq
insert_self agent aq m = rw (Map.lookup-insert agent agent aq m) (rw (eq_refl agent))

-- What becomes of an agent's entry under `put`.
pub put_self :
    (agent : String) (aq : AgentQueue) (m : Map AgentQueue)
    → or_empty (Map.lookup agent (put agent aq m)) ≡ aq
put_self agent aq m = elim (Bool-cases (aq.inflight == 0 && length aq.tasks == 0)) [
  | inl idle ↦ rw idle (rw (Map.lookup-delete agent agent m) (rw (eq_refl agent) (ground arith)))
  | inr work ↦ rw work (ap or_empty (insert_self agent aq m))
]

pub put_other :
    (agent a : String) (aq : AgentQueue) (m : Map AgentQueue)
    → str_eq agent a ≡ false
    → or_empty (Map.lookup a (put agent aq m)) ≡ or_empty (Map.lookup a m)
put_other agent a aq m h = elim (Bool-cases (aq.inflight == 0 && length aq.tasks == 0)) [
  | inl idle ↦ rw idle (rw (Map.lookup-delete agent a m) (rw h))
  | inr work ↦ rw work (insert-SameFor agent a aq m h)
]
