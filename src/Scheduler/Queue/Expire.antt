-- ===== src/Scheduler/Queue/Expire.antt =====
-- ExpireDeadlined: which tasks it takes out.
use mathlib.Core.List.Perm
use mathlib.Core.List.{Perm, Mem, not-mem-nil, mem-cons, mem-append, mem-append_right, perm_middle}
use mathlib.Core.Logic.Or
use pinchtab.Prelude.{
  ℕ, ◌+◌, ◌≤◌, ◌<◌, ◌≡◌, refl, ap, subst, ◌⊎◌, inl, inr, String, true, false, ◌&&◌, none, List, [],
  ◌∷◌, ◌++◌, length, length-perm, length-append, All, append-interchange, ◌==◌, if◌then◌else◌,
  Bool-cases, ==_iff, eq_iff, arith,
}
use pinchtab.Prelude.Map
use pinchtab.Prelude.Map.{Map}
use pinchtab.Heap.Ops.{init_lem}
use pinchtab.Scheduler.Task.{TaskRef}
use pinchtab.Scheduler.Queue.{
  TaskQueue, AgentQueue, less, is_expired, expired_tasks, remaining_tasks, expire_agent,
  expire_agents, expire_deadlined, or_empty,
}
use pinchtab.Scheduler.Queue.Less.{less-IsWeakOrder}
use pinchtab.Scheduler.Queue.Invariant.{IsOwned, IsBusy, IsValid, queued_of, inflight_for}

module _ (now : TaskRef → ℕ) where
  abbrev Overdue : TaskRef → Type 0
  Overdue t = is_expired (now t) t ≡ true

  abbrev OnTime : TaskRef → Type 0
  OnTime t = is_expired (now t) t ≡ false

  split-perm : (ts : List TaskRef) → Perm (expired_tasks now ts ++ remaining_tasks now ts) ts
  unfolding expired_tasks remaining_tasks
  split-perm [] = Perm.nil
  split-perm (t ∷ ts) = elim (Bool-cases (is_expired (now t) t)) [
    | inl late ↦ rw late (Perm.cons t (split-perm ts))
    | inr fine ↦
        rw fine (Perm.trans (perm_middle (expired_tasks now ts) _) (Perm.cons t (split-perm ts)))
  ]

  expired_tasks-Overdue : (ts : List TaskRef) → All Overdue (expired_tasks now ts)
  unfolding expired_tasks
  expired_tasks-Overdue [] = tt
  expired_tasks-Overdue (t ∷ ts) = elim (Bool-cases (is_expired (now t) t)) [
    | inl late ↦ rw late (late, expired_tasks-Overdue ts)
    | inr fine ↦ rw fine (expired_tasks-Overdue ts)
  ]

  remaining_tasks-OnTime : (ts : List TaskRef) → All OnTime (remaining_tasks now ts)
  unfolding remaining_tasks
  remaining_tasks-OnTime [] = tt
  remaining_tasks-OnTime (t ∷ ts) = elim (Bool-cases (is_expired (now t) t)) [
    | inl late ↦ rw late (remaining_tasks-OnTime ts)
    | inr fine ↦ rw fine (fine, remaining_tasks-OnTime ts)
  ]

  -- A list that keeps all its tasks has none that is overdue.
  none_expired :
      (ts : List TaskRef)
      → length (remaining_tasks now ts) ≡ length ts
      → remaining_tasks now ts ≡ ts
  unfolding remaining_tasks
  none_expired [] e = refl
  none_expired (t ∷ ts) e =
      let size = length-perm (split-perm ts) in
      let parts = length-append (expired_tasks now ts) (remaining_tasks now ts) in
      elim (Bool-cases (is_expired (now t) t)) [
        | inl late ↦ absurd (ground (arith, size, parts))
        | inr fine ↦ rw fine (ap (◌∷◌ t) (none_expired ts (ground arith)))
      ]

  remaining_mem : (t : TaskRef) (ts : List TaskRef) → Mem t (remaining_tasks now ts) → Mem t ts
  remaining_mem t ts m =
      (Perm.mem_iff (split-perm ts)).0 (mem-append_right (expired_tasks now ts) m)

  -- What is left of an agent's queue: a heap of the tasks that are not overdue.
  expire_agent_lem :
      (agent : String) (aq : AgentQueue)
      → IsOwned agent aq
      → Perm (expire_agent now aq).tasks (remaining_tasks now aq.tasks)
        × ((expire_agent now aq).inflight ≡ aq.inflight)
        × IsOwned agent (expire_agent now aq)
  unfolding expire_agent
  expire_agent_lem agent aq o =
      elim (Bool-cases (length (remaining_tasks now aq.tasks) == length aq.tasks)) [
        | inl all ↦
            let kept = none_expired aq.tasks ((==_iff _ _).0 all) in
            rw all (rw kept Perm.rfl, refl, o)
        | inr some_late ↦
            let (heap, perm) = init_lem less less-IsWeakOrder (remaining_tasks now aq.tasks) in
            rw some_late (
              perm,
              refl,
              record {
                heap = heap;
                own = λ t m. o.own t (remaining_mem t aq.tasks ((Perm.mem_iff perm).0 m));
              },
            )
      ]

-- All the tasks that are queued.
abbrev pub all_tasks : Map AgentQueue → List TaskRef
all_tasks [] = []
all_tasks ((id, aq) ∷ m) = aq.tasks ++ all_tasks m

length-all_tasks : (m : Map AgentQueue) → length (all_tasks m) ≡ queued_of m
length-all_tasks [] = refl
length-all_tasks ((id, aq) ∷ m) =
    omega (arith, length-append aq.tasks (all_tasks m), length-all_tasks m)

abbrev entry : String → AgentQueue → Map AgentQueue → Map AgentQueue
entry id aq m = if length aq.tasks == 0 && aq.inflight == 0 then m else (id, aq) ∷ m

all_tasks-entry :
    (id : String) (aq : AgentQueue) (m : Map AgentQueue)
    → all_tasks (entry id aq m) ≡ aq.tasks ++ all_tasks m
all_tasks-entry id aq m = elim (Bool-cases (length aq.tasks == 0 && aq.inflight == 0)) [
  | inl idle ↦ rw idle (nil_append aq.tasks (all_tasks m) (ground arith))
  | inr work ↦ rw work
]
  where
    nil_append : (a b : List TaskRef) → length a ≡ 0 → b ≡ a ++ b
    nil_append [] b e = refl
    nil_append (t ∷ a) b e = absurd (omega arith)

module _ (now : TaskRef → ℕ) where
  -- No task is lost or made up.
  expire_agents-perm :
      (m : Map AgentQueue)
      → Map.Distinct m
      → Map.Every IsOwned m
      → Perm ((expire_agents now m).1 ++ all_tasks (expire_agents now m).0) (all_tasks m)
  unfolding expire_agents
  expire_agents-perm [] d o = Perm.nil
  expire_agents-perm ((id, aq) ∷ m) d o =
      let kept = expire_agent now aq in
      let (rest, expired) = expire_agents now m in
      let (perm, _, _) = expire_agent_lem now id aq (Map.Every-head IsOwned id aq m o) in
      let mine =
        Perm.trans (Perm.append_left (expired_tasks now aq.tasks) perm) (split-perm now aq.tasks) in
      let theirs = expire_agents-perm m d.1 (Map.Every-tail IsOwned id aq m d.0 o) in
      rw (all_tasks-entry id kept rest) (
        Perm.trans
          (append-interchange (expired_tasks now aq.tasks) expired kept.tasks (all_tasks rest))
          (Perm.append mine theirs))

  pub expire_agents-absent :
      (k : String) (m : Map AgentQueue)
      → Map.lookup k m ≡ none
      → Map.lookup k (expire_agents now m).0 ≡ none
  unfolding expire_agents Map.lookup
  expire_agents-absent k [] e = refl
  expire_agents-absent k ((id, aq) ∷ m) e = ground (arith, expire_agents-absent k m)

  expire_agents-Counts :
      (m : Map AgentQueue)
      → Map.Distinct m
      → Map.Every IsOwned m
      → Map.Distinct (expire_agents now m).0
        × Map.Every IsOwned (expire_agents now m).0
        × Map.Every IsBusy (expire_agents now m).0
  unfolding expire_agents
  expire_agents-Counts [] d o =
      (tt, (λ k v e. absurd (Map.lookup-nil k v e)), (λ k v e. absurd (Map.lookup-nil k v e)))
  expire_agents-Counts ((id, aq) ∷ m) d o =
      let kept = expire_agent now aq in
      let (rest, expired) = expire_agents now m in
      let (_, _, own) = expire_agent_lem now id aq (Map.Every-head IsOwned id aq m o) in
      let (distinct, owned, busy) =
        expire_agents-Counts m d.1 (Map.Every-tail IsOwned id aq m d.0 o) in
      elim (Bool-cases (length kept.tasks == 0 && kept.inflight == 0)) [
        | inl idle ↦ rw idle (distinct, owned, busy)
        | inr work ↦ rw work (
          (expire_agents-absent id m d.0, distinct),
          Map.Every-cons IsOwned id kept rest own owned,
          Map.Every-cons IsBusy id kept rest (ground arith) busy,
        )
      ]

  All-of_perm :
      (ts us : List TaskRef)
      → All (Overdue now) ts
      → All (Overdue now) us
      → All (Overdue now) (ts ++ us)
  All-of_perm [] us h k = k
  All-of_perm (t ∷ ts) us h k = (h.0, All-of_perm ts us h.1 k)

  expire_agents-Overdue : (m : Map AgentQueue) → All (Overdue now) (expire_agents now m).1
  unfolding expire_agents
  expire_agents-Overdue [] = tt
  expire_agents-Overdue ((id, aq) ∷ m) =
      All-of_perm _ _ (expired_tasks-Overdue now aq.tasks) (expire_agents-Overdue m)

  late_of_mem : (t : TaskRef) (ts : List TaskRef) → All (Overdue now) ts → Mem t ts → Overdue now t
  late_of_mem t [] h m = absurd (not-mem-nil m)
  late_of_mem t (u ∷ ts) h m =
      Or.elim (hlevel) (mem-cons.0 m) (λ e. rw e h.0) (late_of_mem t ts h.1)

  fine_of_mem : (t : TaskRef) (ts : List TaskRef) → All (OnTime now) ts → Mem t ts → OnTime now t
  fine_of_mem t [] h m = absurd (not-mem-nil m)
  fine_of_mem t (u ∷ ts) h m =
      Or.elim (hlevel) (mem-cons.0 m) (λ e. rw e h.0) (fine_of_mem t ts h.1)

  expire_agents-OnTime :
      (t : TaskRef) (m : Map AgentQueue)
      → Map.Distinct m
      → Map.Every IsOwned m
      → Mem t (all_tasks (expire_agents now m).0)
      → OnTime now t
  unfolding expire_agents
  expire_agents-OnTime t [] d o k = absurd (not-mem-nil k)
  expire_agents-OnTime t ((id, aq) ∷ m) d o k =
      let kept = expire_agent now aq in
      let (perm, _, _) = expire_agent_lem now id aq (Map.Every-head IsOwned id aq m o) in
      let k' = subst (Mem t) (all_tasks-entry id kept (expire_agents now m).0) k in
      Or.elim (hlevel) (mem-append.0 k')
        (λ here. fine_of_mem t _ (remaining_tasks-OnTime now aq.tasks) ((Perm.mem_iff perm).0 here))
        (expire_agents-OnTime t m d.1 (Map.Every-tail IsOwned id aq m d.0 o))

  expire_agents-inflight :
      (a : String) (m : Map AgentQueue)
      → Map.Distinct m
      → Map.Every IsOwned m
      → (or_empty (Map.lookup a (expire_agents now m).0)).inflight
        ≡ (or_empty (Map.lookup a m)).inflight
  unfolding expire_agents Map.lookup
  expire_agents-inflight a [] d o = refl
  expire_agents-inflight a ((id, aq) ∷ m) d o =
      let (_, same, _) = expire_agent_lem now id aq (Map.Every-head IsOwned id aq m o) in
      ground (
        arith,
        same,
        eq_iff id a,
        expire_agents-absent id m d.0,
        expire_agents-inflight a m d.1 (Map.Every-tail IsOwned id aq m d.0 o),
      )

-- What ExpireDeadlined promises: each queued task is either returned, if its deadline is set and has
-- passed, or still queued, if not; none is lost. No count of tasks in flight changes.
pub record Expired (now : TaskRef → ℕ) (q : TaskQueue) (r : TaskQueue × List TaskRef) : Type 0 where
  pub valid : IsValid r.0
  pub same : Perm (r.1 ++ all_tasks r.0.agents) (all_tasks q.agents)
  pub late : (t : TaskRef) → Mem t r.1 → (0 < t.deadline) × (t.deadline < now t)
  pub fine : (t : TaskRef) → Mem t (all_tasks r.0.agents) → (t.deadline ≡ 0) ⊎ (now t ≤ t.deadline)
  pub flying : (a : String) → inflight_for a r.0 ≡ inflight_for a q
  pub counted : r.0.total_count + length r.1 ≡ q.total_count

-- ExpireDeadlined takes out of a valid queue exactly the tasks whose deadline is set and lies before
-- the reading of the clock that is made for the task, and keeps the queue valid.
pub expire_deadlined-Expired :
    (now : TaskRef → ℕ) (q : TaskQueue) → IsValid q → Expired now q (expire_deadlined now q)
unfolding expire_deadlined
expire_deadlined-Expired now q v =
    let (rest, expired) = expire_agents now q.agents in
    let perm = expire_agents-perm now q.agents v.distinct v.owned in
    let (distinct, owned, busy) = expire_agents-Counts now q.agents v.distinct v.owned in
    let counted : q.total_count ≡ queued_of rest + length expired = omega (
      arith,
      length-perm perm,
      length-append expired (all_tasks rest),
      length-all_tasks rest,
      length-all_tasks q.agents,
      v.counted,
    ) in
    record {
      valid = record {
        distinct = distinct;
        owned = owned;
        busy = busy;
        counted = omega (arith, counted);
      };
      same = perm;
      late = λ t m.
          let late = late_of_mem now t _ (expire_agents-Overdue now q.agents) m in ground arith;
      fine = λ t m.
          let fine = expire_agents-OnTime now t q.agents v.distinct v.owned m in ground arith;
      flying = λ a. expire_agents-inflight now a q.agents v.distinct v.owned;
      counted = omega (arith, counted);
    }
