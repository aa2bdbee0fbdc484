-- ===== src/Scheduler/Queue/Admit.antt =====
-- Enqueue and SetLimits.
use mathlib.Core.List.{Perm}
use pinchtab.Prelude.{
  ◌+◌, ◌≤◌, ◌<◌, ◌≡◌, ◌≢◌, refl, sym, ap, subst, inl, inr, String, true, false, Option, none, some,
  ◌∷◌, length, length-perm, leb, leb→le, str_eq, eq_iff, Bool-cases, arith,
}
use pinchtab.Prelude.Map
use pinchtab.Prelude.Map.{Map}
use pinchtab.Heap
use pinchtab.Heap.Ops.{push_lem}
use pinchtab.Scheduler.Task.{TaskRef}
use pinchtab.Scheduler.Queue.{
  TaskQueue, AgentQueue, Admission, position, refused, global_full, agent_full, less, or_empty,
  admit, enqueue,
}
use pinchtab.Scheduler.Queue.Less.{less-IsWeakOrder}
use pinchtab.Scheduler.Queue.Invariant.{
  IsValid, tasks_of, inflight_for, SameFor, queued_at, insert-Counts, or_empty-IsOwned,
  push-IsOwned, insert-SameFor, insert_self,
}

-- The same tasks are queued and in flight for every agent.
abbrev SameTasks : TaskQueue → TaskQueue → Type 0
SameTasks q q' = ((a : String) → SameFor a q q') × (q'.total_count ≡ q.total_count)

-- What Enqueue promises on each of its three ways out.
abbrev pub Admitted : TaskRef → TaskQueue → TaskQueue × Admission → Type 0
Admitted t q (q', position p) =
    (p ≡ q.total_count + 1)
    × (q'.total_count ≡ p)
    × (p ≤ q.max_total)
    × (length (tasks_of t.agent_id q') ≤ q.max_per_agent)
    × Perm (tasks_of t.agent_id q') (t ∷ tasks_of t.agent_id q)
    × (inflight_for t.agent_id q' ≡ inflight_for t.agent_id q)
    × ((a : String) → t.agent_id ≢ a → SameFor a q q')
    × (q'.notify ≡ true)
Admitted t q (q', refused (global_full n m)) =
    SameTasks q q' × (n ≡ q.total_count) × (m ≡ q.max_total) × (m ≤ n)
Admitted t q (q', refused (agent_full a n m)) =
    SameTasks q q'
    × (a ≡ t.agent_id)
    × (n ≡ length (tasks_of t.agent_id q))
    × (m ≡ q.max_per_agent)
    × (m ≤ n)
    × (q.total_count < q.max_total)

ne_of_str : (a b : String) → a ≢ b → str_eq a b ≡ false
ne_of_str a b h = elim (Bool-cases (str_eq a b)) [
  | inl e ↦ absurd (h ((eq_iff a b).0 e))
  | inr e ↦ e
]

insert_same :
    (k a : String) (m : Map AgentQueue)
    → or_empty (Map.lookup a (Map.insert k (or_empty (Map.lookup k m)) m))
      ≡ or_empty (Map.lookup a m)
insert_same k a m = elim (Bool-cases (str_eq k a)) [
  | inl hit ↦
      rw (Map.lookup-insert k a (or_empty (Map.lookup k m)) m)
        (rw hit (ap (λ b. or_empty (Map.lookup b m)) ((eq_iff k a).0 hit)))
  | inr miss ↦ insert-SameFor k a _ m miss
]

admit-Admitted :
    (t : TaskRef) (q : TaskQueue)
    → IsValid q
    → q.total_count < q.max_total
    → length (tasks_of t.agent_id q) < q.max_per_agent
    → Admitted t q
        (admit t (or_empty (Map.lookup t.agent_id q.agents)) q, position (q.total_count + 1))
admit-Admitted t q v room more =
    let aq = or_empty (Map.lookup t.agent_id q.agents) in
    let (heap, perm) =
      push_lem less less-IsWeakOrder aq.tasks t (or_empty-IsOwned t.agent_id q v).heap in
    let self = insert_self t.agent_id (record aq { tasks = Heap.push less aq.tasks t }) q.agents in
    let tasks = ap (λ o. (or_empty o).tasks) self in
    (
      refl,
      refl,
      omega arith,
      subst (λ ts. length ts ≤ q.max_per_agent) (sym tasks) (omega (arith, length-perm perm)),
      subst (λ ts. Perm ts (t ∷ aq.tasks)) (sym tasks) perm,
      ap (λ o. (or_empty o).inflight) self,
      (λ a other.
          let same = insert-SameFor t.agent_id a _ q.agents (ne_of_str t.agent_id a other) in
          (ap (λ aq. aq.tasks) same, ap (λ aq. aq.inflight) same)),
      refl,
    )

queued_at-or_empty : (o : Option AgentQueue) → queued_at o ≡ length (or_empty o).tasks
queued_at-or_empty none = refl
queued_at-or_empty (some aq) = refl

-- Into a valid queue, Enqueue accepts a task exactly when both limits leave room for it: then the
-- agent's tasks are the old ones and the new one, within the limits, nothing else is queued or
-- dropped, and a worker is signalled. Else it reports the limit that is reached, and no task is
-- queued or dropped.
pub enqueue-Admitted : (t : TaskRef) (q : TaskQueue) → IsValid q → Admitted t q (enqueue t q)
unfolding enqueue
enqueue-Admitted t q v = elim (Bool-cases (leb q.max_total q.total_count)) [
  | inl full ↦ rw full (((λ a. (refl, refl)), refl), refl, refl, leb→le _ _ full)
  | inr room ↦ elim (Bool-cases (leb q.max_per_agent (length (tasks_of t.agent_id q)))) [
    | inl full ↦
        let same = λ (a : String). insert_same t.agent_id a q.agents in
        rw (room, full)
          (
            ((λ a. (ap (λ aq. aq.tasks) (same a), ap (λ aq. aq.inflight) (same a))), refl),
            refl,
            refl,
            refl,
            leb→le _ _ full,
            ground arith,
          )
    | inr more ↦ rw (room, more) (admit-Admitted t q v (ground arith) (ground arith))
  ]
]

-- Enqueue keeps the queue valid, where an agent may have a task queued at all.
pub enqueue-IsValid :
    (t : TaskRef) (q : TaskQueue) → 0 < q.max_per_agent → IsValid q → IsValid (enqueue t q).0
unfolding enqueue
enqueue-IsValid t q p v =
    let aq = or_empty (Map.lookup t.agent_id q.agents) in
    let own = or_empty-IsOwned t.agent_id q v in
    let grown = length-perm (push_lem less less-IsWeakOrder aq.tasks t own.heap).1 in
    let before = queued_at-or_empty (Map.lookup t.agent_id q.agents) in
    elim (Bool-cases (leb q.max_total q.total_count)) [
      | inl full ↦ rw full v
      | inr room ↦ elim (Bool-cases (leb q.max_per_agent (length aq.tasks))) [
        | inl full ↦
            rw (room, full)
              (insert-Counts t.agent_id aq q.agents q.total_count q.total_count v own (ground arith)
                (omega (arith, before)))
        | inr more ↦
            rw (room, more)
              (insert-Counts t.agent_id _ q.agents q.total_count (q.total_count + 1) v
                (push-IsOwned t aq aq.inflight own) (omega (arith, grown))
                (omega (arith, grown, before)))
      ]
    ]
