-- ===== src/Scheduler/Queue/Finish.antt =====
-- Complete and Remove.
use mathlib.Core.List.Perm
use mathlib.Core.List.{Perm, mem-cons_of_mem}
use pinchtab.Prelude.{
  ℕ, suc, ◌+◌, ◌-◌, ◌<◌, ◌≡◌, refl, sym, ap, subst, ◌∙◌, inl, inr, String, Bool, true, false, ◌&&◌,
  none, some, List, [], ◌∷◌, length, length-perm, get_elem?, All, ◌==◌, str_eq, eq_iff,
  if◌then◌else◌, Bool-cases, Option-cases, arith,
}
use pinchtab.Prelude.Map
use pinchtab.Prelude.Map.{Map}
use pinchtab.Heap
use pinchtab.Heap.Remove.{remove_lem}
use pinchtab.Scheduler.Task.{TaskRef}
use pinchtab.Scheduler.Queue.{
  TaskQueue, AgentQueue, less, or_empty, put, complete, index_of, remove_at, remove,
}
use pinchtab.Scheduler.Queue.Less.{less-IsWeakOrder}
use pinchtab.Scheduler.Queue.Invariant.{
  IsValid, tasks_of, inflight_for, SameFor, queued_at, put-Counts, put_self, put_other,
}

-- What Complete promises: one task less in flight for the agent, and nothing else.
pub record Completed (agent : String) (q q' : TaskQueue) : Type 0 where
  pub valid : IsValid q'
  pub flying : inflight_for agent q' ≡ inflight_for agent q - 1
  pub queued : tasks_of agent q' ≡ tasks_of agent q
  pub others : (a : String) → str_eq agent a ≡ false → SameFor a q q'
  pub counted : q'.total_count ≡ q.total_count
  pub signalled : 0 < length (tasks_of agent q) → q'.notify ≡ true

complete_absent :
    (agent : String) (q : TaskQueue) → Map.lookup agent q.agents ≡ none → complete agent q ≡ q
unfolding complete
complete_absent agent q e = rw (e, complete)

-- the queue after Complete for an agent that has an entry
abbrev completed : String → AgentQueue → TaskQueue → TaskQueue
completed agent aq q = record q {
  agents = put agent (record aq { inflight = aq.inflight - 1 }) q.agents;
  notify = if length aq.tasks == 0 then q.notify else true;
}

complete_found :
    (agent : String) (aq : AgentQueue) (q : TaskQueue)
    → Map.lookup agent q.agents ≡ some aq
    → complete agent q ≡ completed agent aq q
unfolding complete
complete_found agent aq q e = rw (e, complete)

-- An entry that is put back keeps the other agents' entries.
put-SameFor :
    (agent a : String) (aq : AgentQueue) (m : Map AgentQueue)
    → str_eq agent a ≡ false
    → let aq' = or_empty (Map.lookup a (put agent aq m)) in
      let old = or_empty (Map.lookup a m) in (aq'.tasks ≡ old.tasks) × (aq'.inflight ≡ old.inflight)
put-SameFor agent a aq m h =
    let same = put_other agent a aq m h in (ap (λ aq. aq.tasks) same, ap (λ aq. aq.inflight) same)

put-lookup :
    (agent a : String) (aq : AgentQueue) (m : Map AgentQueue)
    → str_eq agent a ≡ false
    → Map.lookup a (put agent aq m) ≡ Map.lookup a m
put-lookup agent a aq m h = elim (Bool-cases (aq.inflight == 0 && length aq.tasks == 0)) [
  | inl idle ↦ rw idle (rw (Map.lookup-delete agent a m) (rw h))
  | inr work ↦ rw work (rw (Map.lookup-insert agent a aq m) (rw h))
]

-- In a valid queue, Complete takes one off the agent's tasks in flight, if it has any, changes no
-- queued task, and signals a worker if the agent has a task queued.
pub complete-Completed :
    (agent : String) (q : TaskQueue) → IsValid q → Completed agent q (complete agent q)
complete-Completed agent q v = elim (Option-cases (Map.lookup agent q.agents)) [
  | inl absent ↦
      let gone = ap or_empty absent in
      rw (complete_absent agent q absent) (record {
        valid = v;
        flying = omega (arith, ap (λ aq. aq.inflight) gone);
        queued = refl;
        others = λ a h. (refl, refl);
        counted = refl;
        signalled = λ p. absurd (omega (arith, p, ap (λ aq. length aq.tasks) gone));
      })
  | inr (aq, found) ↦
      let here = ap or_empty found in
      let aq' : AgentQueue = record aq { inflight = aq.inflight - 1 } in
      let there = put_self agent aq' q.agents in
      let own = v.owned agent aq found in
      rw (complete_found agent aq q found) (record {
        valid =
            put-Counts agent aq' q.agents q.total_count q.total_count v
              (record { heap = own.heap; own = own.own }) (omega (arith, ap queued_at found));
        flying = ap (λ aq. aq.inflight) there ∙ ap (λ aq. aq.inflight - 1) (sym here);
        queued = ap (λ aq. aq.tasks) there ∙ ap (λ aq. aq.tasks) (sym here);
        others = λ a h. put-SameFor agent a aq' q.agents h;
        counted = refl;
        signalled = λ p.
            let some_queued = ap (λ aq. length aq.tasks) here in ground (arith, p, some_queued);
      })
]

index_of-none :
    (id : String) (ts : List TaskRef) (k : ℕ)
    → index_of id ts k ≡ none
    → All (λ t. str_eq t.id id ≡ false) ts
unfolding index_of
index_of-none id [] k e = tt
index_of-none id (t ∷ ts) k e = elim (Bool-cases (str_eq t.id id)) [
  | inl hit ↦ absurd (ground arith)
  | inr miss ↦ (miss, index_of-none id ts (suc k) (ground arith))
]

index_of-some :
    (id : String) (ts : List TaskRef) (k i : ℕ)
    → index_of id ts k ≡ some i
    → (j : ℕ) × (t : TaskRef) × (i ≡ k + j) × (get_elem? ts j ≡ some t) × (t.id ≡ id)
unfolding index_of
index_of-some id [] k i e = absurd (ground arith)
index_of-some id (t ∷ ts) k i e = elim (Bool-cases (str_eq t.id id)) [
  | inl hit ↦ (0, t, ground arith, refl, (eq_iff t.id id).0 hit)
  | inr miss ↦
      let (j, u, at, found, same) = index_of-some id ts (suc k) i (ground arith) in
      (suc j, u, omega (arith, at), found, same)
]

-- What Remove promises on both ways out.
abbrev pub Removed : String → String → TaskQueue → TaskQueue × Bool → Type 0
Removed id agent q (q', true) =
    (t : TaskRef) × (t.id ≡ id)
    × IsValid q'
    × Perm (t ∷ tasks_of agent q') (tasks_of agent q)
    × (inflight_for agent q' ≡ inflight_for agent q)
    × ((a : String) → str_eq agent a ≡ false → Map.lookup a q'.agents ≡ Map.lookup a q.agents)
    × (q'.max_per_agent ≡ q.max_per_agent)
    × (q'.total_count + 1 ≡ q.total_count)
Removed id agent q (q', false) = (q' ≡ q) × All (λ t. str_eq t.id id ≡ false) (tasks_of agent q)

-- the queue after Remove has left `rest` to the agent
abbrev removed : String → AgentQueue → List TaskRef → TaskQueue → TaskQueue
removed agent aq rest q = record q {
  agents = put agent (record aq { tasks = rest }) q.agents;
  total_count = q.total_count - 1;
}

remove_at-some :
    (agent : String) (aq : AgentQueue) (i : ℕ) (q : TaskQueue) (t : TaskRef) (rest : List TaskRef)
    → Heap.remove less aq.tasks i ≡ some (t, rest)
    → remove_at agent aq i q ≡ (removed agent aq rest q, true)
unfolding remove_at
remove_at-some agent aq i q t rest e = rw (e, remove_at)

remove_at-Removed :
    (id agent : String) (aq : AgentQueue) (i : ℕ) (t : TaskRef) (q : TaskQueue)
    → IsValid q
    → Map.lookup agent q.agents ≡ some aq
    → get_elem? aq.tasks i ≡ some t
    → t.id ≡ id
    → Removed id agent q (remove_at agent aq i q)
remove_at-Removed id agent aq i t q v found at same =
    let own = v.owned agent aq found in
    let (rest, out, heap, perm) = remove_lem less less-IsWeakOrder aq.tasks i t own.heap at in
    let aq' : AgentQueue = record aq { tasks = rest } in
    let here = ap or_empty found in
    let there = put_self agent aq' q.agents in
    let size = length-perm perm in
    let queued : queued_at (Map.lookup agent q.agents) ≡ length aq.tasks = ap queued_at found in
    let enough = Map.at-le-sum (λ aq. length aq.tasks) agent q.agents in
    subst (Removed id agent q) (sym (remove_at-some agent aq i q t rest out)) (
      t,
      same,
      put-Counts agent aq' q.agents q.total_count (q.total_count - 1) v
          (record {
            heap = heap;
            own = λ s m. own.own s ((Perm.mem_iff perm).0 (mem-cons_of_mem t m));
          })
          (omega (arith, queued, enough, size, v.counted)),
      subst (λ a. Perm (t ∷ a.tasks) (tasks_of agent q)) (sym there)
          (subst (λ a. Perm (t ∷ rest) a.tasks) (sym here) perm),
      ap (λ aq. aq.inflight) there ∙ ap (λ aq. aq.inflight) (sym here),
      (λ a h. put-lookup agent a aq' q.agents h),
      refl,
      omega (arith, queued, enough, size, v.counted),
    )

-- In a valid queue, Remove takes one task with the id out of the agent's queue and keeps the queue
-- valid, or returns false and changes nothing, when the agent has no such task queued.
pub remove-Removed :
    (id agent : String) (q : TaskQueue) → IsValid q → Removed id agent q (remove id agent q)
unfolding remove
remove-Removed id agent q v = elim (Option-cases (Map.lookup agent q.agents)) [
  | inl absent ↦
      rw (absent, remove)
        (refl, subst (λ o. All (λ t. str_eq t.id id ≡ false) (or_empty o).tasks) (sym absent) tt)
  | inr (aq, found) ↦ elim (Option-cases (index_of id aq.tasks 0)) [
    | inl missing ↦
        rw (found, missing, remove)
          (
            refl,
            subst (λ o. All (λ t. str_eq t.id id ≡ false) (or_empty o).tasks) (sym found)
                (index_of-none id aq.tasks 0 missing),
          )
    | inr (i, there) ↦
        let (j, t, e, at, same) = index_of-some id aq.tasks 0 i there in
        rw (found, there, remove)
          (remove_at-Removed id agent aq i t q v found
            (ap (get_elem? aq.tasks) (omega (arith, e)) ∙ at) same)
  ]
]
