-- ===== src/Scheduler/Queue/Sound.antt =====
-- What holds of the queue of a running scheduler, under each operation.
use pinchtab.Prelude.{
  ℕ, ◌-◌, ◌<◌, ◌≡◌, refl, sym, ap, subst, ◌∙◌, inl, inr, String, Bool, true, false, Option, none,
  some, length, length-perm, str_eq, eq_iff, leb, ◌==◌, ◌&&◌, Bool-cases, Option-cases, arith,
}
use pinchtab.Prelude.Map
use pinchtab.Prelude.Map.{Map}
use pinchtab.Scheduler.Task.{TaskRef}
use pinchtab.Scheduler.Queue.{
  TaskQueue, AgentQueue, put, dequeue, enqueue, or_empty, complete, remove, expire_deadlined,
  set_limits, new_task_queue,
}
use pinchtab.Scheduler.Queue.Invariant.{IsValid, tasks_of}
use pinchtab.Scheduler.Queue.Admit.{enqueue-IsValid}
use pinchtab.Scheduler.Queue.Fair.{ServedIf, dequeue-ServedIf}
use pinchtab.Scheduler.Queue.Finish.{complete-Completed, Removed, remove-Removed}
use pinchtab.Scheduler.Queue.Expire.{expire_deadlined-Expired, expire_agents-absent}

-- The queue is valid, an agent may have a task queued, and no agent is without a name.
pub record IsSound (q : TaskQueue) : Type 0 where
  pub valid : IsValid q
  pub room : 0 < q.max_per_agent
  pub named : Map.lookup "" q.agents ≡ none

pub new-IsSound : (total per_agent : ℕ) → 0 < per_agent → IsSound (new_task_queue total per_agent)
unfolding new_task_queue Map.lookup
new-IsSound total per_agent h = record {
  valid = record {
    distinct = tt;
    owned = λ k v e. absurd (Map.lookup-nil k v e);
    busy = λ k v e. absurd (Map.lookup-nil k v e);
    counted = refl;
  };
  room = h;
  named = refl;
}

pub set_limits-IsSound :
    (total per_agent : ℕ) (q : TaskQueue) → IsSound q → IsSound (set_limits total per_agent q)
unfolding set_limits
set_limits-IsSound total per_agent q v = record {
  valid = v.valid;
  room = ground (arith, v.room);
  named = v.named;
}

insert_named :
    (agent : String) (aq : AgentQueue) (m : Map AgentQueue)
    → str_eq agent "" ≡ false
    → Map.lookup "" m ≡ none
    → Map.lookup "" (Map.insert agent aq m) ≡ none
insert_named agent aq m h e = rw (Map.lookup-insert agent "" aq m) (rw h e)

put_named :
    (agent : String) (aq : AgentQueue) (m : Map AgentQueue)
    → str_eq agent "" ≡ false
    → Map.lookup "" m ≡ none
    → Map.lookup "" (put agent aq m) ≡ none
put_named agent aq m h e = elim (Bool-cases (aq.inflight == 0 && length aq.tasks == 0)) [
  | inl idle ↦ rw idle (rw (Map.lookup-delete agent "" m) (rw h e))
  | inr work ↦ rw work (insert_named agent aq m h e)
]

-- A name that has an entry is not empty.
has_name :
    (agent : String) (aq : AgentQueue) (q : TaskQueue)
    → Map.lookup "" q.agents ≡ none
    → Map.lookup agent q.agents ≡ some aq
    → str_eq agent "" ≡ false
has_name agent aq q e found = elim (Bool-cases (str_eq agent "")) [
  | inl hit ↦
      let same = subst (λ a. Map.lookup a q.agents ≡ some aq) ((eq_iff agent "").0 hit) found in
      absurd (ground (arith, same))
  | inr miss ↦ miss
]

pub enqueue-IsSound :
    (t : TaskRef) (q : TaskQueue)
    → str_eq t.agent_id "" ≡ false
    → IsSound q
    → IsSound (enqueue t q).0
unfolding enqueue
enqueue-IsSound t q h v = record {
  valid = enqueue-IsValid t q v.room v.valid;
  room = ground (arith, v.room);
  named =
      let aq = or_empty (Map.lookup t.agent_id q.agents) in
      elim (Bool-cases (leb q.max_total q.total_count)) [
        | inl full ↦ rw full v.named
        | inr more ↦ elim (Bool-cases (leb q.max_per_agent (length aq.tasks))) [
          | inl full ↦ rw (more, full) (insert_named t.agent_id _ q.agents h v.named)
          | inr fits ↦ rw (more, fits) (insert_named t.agent_id _ q.agents h v.named)
        ]
      ];
}

-- An agent that has a task queued has a name.
queued_name :
    (agent : String) (q : TaskQueue)
    → Map.lookup "" q.agents ≡ none
    → 0 < length (tasks_of agent q)
    → str_eq agent "" ≡ false
queued_name agent q e p = elim (Option-cases (Map.lookup agent q.agents)) [
  | inl absent ↦ absurd (omega (arith, p, ap (λ o. length (or_empty o).tasks) absent))
  | inr (aq, found) ↦ has_name agent aq q e found
]

-- what a Dequeue leaves
abbrev pub left_by : TaskQueue → Option (TaskRef × TaskQueue) → TaskQueue
left_by q none = q
left_by q (some (_, q')) = q'

pub dequeue-IsSound :
    (max_per max_global : ℕ) (q : TaskQueue)
    → IsSound q
    → IsSound (left_by q (dequeue max_per max_global q))
dequeue-IsSound max_per max_global q v =
    go (dequeue max_per max_global q) (dequeue-ServedIf max_per max_global q v.valid)
  where
    go : (o : Option (TaskRef × TaskQueue)) → ServedIf max_per q o → IsSound (left_by q o)
    go none s = v
    go (some (t, q')) s =
        let name = queued_name t.agent_id q v.named (omega (arith, length-perm s.same)) in
        record {
          valid = s.valid;
          room = omega (arith, s.limits.1, v.room);
          named = s.others "" name ∙ v.named;
        }

pub complete-IsSound : (agent : String) (q : TaskQueue) → IsSound q → IsSound (complete agent q)
unfolding complete
complete-IsSound agent q v = record {
  valid = (complete-Completed agent q v.valid).valid;
  room = elim (Option-cases (Map.lookup agent q.agents)) [
    | inl absent ↦ rw (absent, complete) v.room
    | inr (aq, found) ↦ rw (found, complete) v.room
  ];
  named = elim (Option-cases (Map.lookup agent q.agents)) [
    | inl absent ↦ rw (absent, complete) v.named
    | inr (aq, found) ↦
        rw (found, complete)
          (put_named agent (record aq { inflight = aq.inflight - 1 }) q.agents
            (has_name agent aq q v.named found) v.named)
  ];
}

pub expire_deadlined-IsSound :
    (now : TaskRef → ℕ) (q : TaskQueue) → IsSound q → IsSound (expire_deadlined now q).0
unfolding expire_deadlined
expire_deadlined-IsSound now q v = record {
  valid = (expire_deadlined-Expired now q v.valid).valid;
  room = v.room;
  named = expire_agents-absent now "" q.agents v.named;
}

pub remove-IsSound : (id agent : String) (q : TaskQueue) → IsSound q → IsSound (remove id agent q).0
remove-IsSound id agent q v = go (remove id agent q) (remove-Removed id agent q v.valid)
  where
    go : (r : TaskQueue × Bool) → Removed id agent q r → IsSound r.0
    go (q', false) (e, _) = subst IsSound (sym e) v
    go (q', true) (t, _, valid, same, _, others, limits, _) =
        let name = queued_name agent q v.named (omega (arith, length-perm same)) in
        record {
          valid = valid;
          room = omega (arith, limits, v.room);
          named = others "" name ∙ v.named;
        }
