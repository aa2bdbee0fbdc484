-- ===== src/Scheduler/Queue/Fair.antt =====
-- Dequeue: which agent is served, and which of its tasks.
use mathlib.Core.List.Perm
use mathlib.Core.List.{Perm, mem-cons_self, mem-cons_of_mem}
use pinchtab.Prelude.{
  ℕ, ◌+◌, ◌-◌, ◌≤◌, ◌<◌, ◌≡◌, refl, sym, ap, subst, ◌∙◌, ◌⊎◌, inl, inr, String, false, Option, none,
  some, [], ◌∷◌, length, length-perm, All, ltb, leb, leb→le, ◌==◌, str_eq, eq_iff, Bool-cases,
  if◌then◌else◌, arith,
}
use pinchtab.Prelude.Map
use pinchtab.Prelude.Map.{Map}
use pinchtab.Heap.Ops.{pop_lem}
use pinchtab.Scheduler.Task.{TaskRef}
use pinchtab.Scheduler.Queue.{
  TaskQueue, AgentQueue, less, or_empty, best_agent, take_from, dequeue, inflight_of, max_int,
}
use pinchtab.Scheduler.Queue.Less.{less-IsWeakOrder}
use pinchtab.Scheduler.Queue.Invariant.{
  IsOwned, IsValid, tasks_of, inflight_for, queued_at, insert-Counts, insert_self,
}

-- An agent that may be served: it has a task queued and room for one in flight.
abbrev pub IsEligible : ℕ → AgentQueue → Type 0
IsEligible max_per aq = (0 < length aq.tasks) × (aq.inflight < max_per)

-- The outcome of the loop: no eligible agent has fewer tasks in flight, and the outcome is the start
-- or an eligible agent with its count.
abbrev pub Best : ℕ → Map AgentQueue → String × ℕ → String × ℕ → Type 0
Best max_per m (a0, c0) (a, c) =
    (c ≤ c0)
    × ((b : String) (bq : AgentQueue)
        → Map.lookup b m ≡ some bq
        → IsEligible max_per bq
        → c ≤ bq.inflight)
    × (((a ≡ a0) × (c ≡ c0))
        ⊎ ((aq : AgentQueue) × (Map.lookup a m ≡ some aq)
            × IsEligible max_per aq
            × (c ≡ aq.inflight)))

-- one round of the loop
abbrev advance : ℕ → String → AgentQueue → String × ℕ → String × ℕ
advance max_per id aq (agent, count) =
    if length aq.tasks == 0
    then (agent, count)
    else if leb max_per aq.inflight
    then (agent, count)
    else if ltb aq.inflight count
    then (id, aq.inflight)
    else (agent, count)

advance_lem :
    (max_per : ℕ) (id agent : String) (aq : AgentQueue) (count : ℕ)
    → let (a, c) = advance max_per id aq (agent, count) in
      (c ≤ count)
      × (IsEligible max_per aq → c ≤ aq.inflight)
      × (((a ≡ agent) × (c ≡ count)) ⊎ ((a ≡ id) × (c ≡ aq.inflight) × IsEligible max_per aq))
advance_lem max_per id agent aq count = ground arith

module _ (max_per : ℕ) (id : String) (aq : AgentQueue) (m : Map AgentQueue) (a0 a r : String)
    (c0 c n : ℕ) (absent : Map.lookup id m ≡ none) where
  -- where the best agent is found, once the first entry is put before the others
  source_cons :
      ((a ≡ a0) × (c ≡ c0)) ⊎ ((a ≡ id) × (c ≡ aq.inflight) × IsEligible max_per aq)
      → ((r ≡ a) × (n ≡ c))
        ⊎ ((bq : AgentQueue) × (Map.lookup r m ≡ some bq)
            × IsEligible max_per bq
            × (n ≡ bq.inflight))
      → ((r ≡ a0) × (n ≡ c0))
        ⊎ ((bq : AgentQueue) × (Map.lookup r ((id, aq) ∷ m) ≡ some bq)
            × IsEligible max_per bq
            × (n ≡ bq.inflight))
  unfolding Map.lookup
  source_cons (inl from) (inl (e, k)) = inl (ground arith)
  source_cons (inr (at, count, fits)) (inl (e, k)) =
      inr (aq, ground (arith, eq_iff id r), fits, k ∙ count)
  source_cons _ (inr (bq, found, fits, k)) = inr (bq, ground (arith, eq_iff id r), fits, k)

  Best-cons :
      c ≤ c0
      → (IsEligible max_per aq → c ≤ aq.inflight)
      → ((a ≡ a0) × (c ≡ c0)) ⊎ ((a ≡ id) × (c ≡ aq.inflight) × IsEligible max_per aq)
      → Best max_per m (a, c) (r, n)
      → Best max_per ((id, aq) ∷ m) (a0, c0) (r, n)
  unfolding Map.lookup
  Best-cons le served from (below, least, source) = (
    omega arith,
    (λ b bq e fits. elim (Bool-cases (str_eq id b)) [
      | inl hit ↦ ground (arith, served)
      | inr miss ↦ ground (arith, least b bq)
    ]),
    source_cons from source,
  )

pub best_agent-Best :
    (max_per : ℕ) (m : Map AgentQueue) (a0 : String) (c0 : ℕ)
    → Map.Distinct m
    → Best max_per m (a0, c0) (best_agent max_per m (a0, c0))
unfolding best_agent
best_agent-Best max_per [] a0 c0 d =
    (omega arith, (λ b bq e. absurd (Map.lookup-nil b bq e)), inl (refl, refl))
best_agent-Best max_per ((id, aq) ∷ m) a0 c0 d =
    let (a, c) = advance max_per id aq (a0, c0) in
    let (le, served, from) = advance_lem max_per id a0 aq c0 in
    let (r, n) = best_agent max_per m (a, c) in
    Best-cons max_per id aq m a0 a r c0 c n d.0 le served from (best_agent-Best max_per m a c d.1)

-- An agent with a name is eligible.
abbrev pub SomeEligible : ℕ → TaskQueue → Type 0
SomeEligible max_per q =
    (a : String) × (aq : AgentQueue) × (Map.lookup a q.agents ≡ some aq) × IsEligible max_per aq

-- The task is one of the agent's, no task of the agent is less, and it goes into flight.
pub record Served (max_per : ℕ) (q : TaskQueue) (t : TaskRef) (q' : TaskQueue) (agent : String)
    : Type 0 where
  pub room : inflight_for agent q < max_per
  pub fair :
      (b : String) (bq : AgentQueue)
      → Map.lookup b q.agents ≡ some bq
      → IsEligible max_per bq
      → inflight_for agent q ≤ bq.inflight
  pub first : All (λ s. less s t ≡ false) (tasks_of agent q)
  pub same : Perm (t ∷ tasks_of agent q') (tasks_of agent q)
  pub flying : inflight_for agent q' ≡ inflight_for agent q + 1
  pub others :
      (a : String) → str_eq agent a ≡ false → Map.lookup a q'.agents ≡ Map.lookup a q.agents
  pub limits : (q'.max_total ≡ q.max_total) × (q'.max_per_agent ≡ q.max_per_agent)
  pub counted : q'.total_count + 1 ≡ q.total_count
  pub valid : IsValid q'

abbrev pub Dequeued : ℕ → ℕ → TaskQueue → Option (TaskRef × TaskQueue) → Type 0
Dequeued max_per max_global q none = (max_global ≤ inflight_of q.agents) ⊎ ¬ SomeEligible max_per q
Dequeued max_per max_global q (some (t, q')) =
    (inflight_of q.agents < max_global) × Served max_per q t q' t.agent_id

pub take_from-Served :
    (max_per : ℕ) (agent : String) (aq : AgentQueue) (q : TaskQueue)
    → IsValid q
    → Map.lookup agent q.agents ≡ some aq
    → IsEligible max_per aq
    → ((b : String) (bq : AgentQueue)
        → Map.lookup b q.agents ≡ some bq
        → IsEligible max_per bq
        → aq.inflight ≤ bq.inflight)
    → (t : TaskRef) × (q' : TaskQueue) × (take_from agent aq q ≡ some (t, q'))
      × Served max_per q t q' t.agent_id
unfolding take_from
take_from-Served max_per agent aq q v found fits fair =
    let o = v.owned agent aq found in
    let ((t, rest), popped, p) = pop_lem less less-IsWeakOrder aq.tasks o.heap fits.0 in
    let mine : t.agent_id ≡ agent = o.own t ((Perm.mem_iff p.same).0 mem-cons_self) in
    let kept : IsOwned agent (record { tasks = rest; inflight = aq.inflight + 1 }) = record {
      heap = p.heap;
      own = λ s m. o.own s ((Perm.mem_iff p.same).0 (mem-cons_of_mem t m));
    } in
    let aq' : AgentQueue = record { tasks = rest; inflight = aq.inflight + 1 } in
    let q' : TaskQueue = record q {
      agents = Map.insert agent aq' q.agents;
      total_count = q.total_count - 1;
    } in
    let size = length-perm p.same in
    let queued : queued_at (Map.lookup agent q.agents) ≡ length aq.tasks = ap queued_at found in
    let enough = Map.at-le-sum (λ aq. length aq.tasks) agent q.agents in
    let here : or_empty (Map.lookup agent q.agents) ≡ aq = ap or_empty found in
    let there : or_empty (Map.lookup agent q'.agents) ≡ aq' =
      ap or_empty (insert_self agent aq' q.agents) in
    let count = ap (λ aq. aq.inflight) here in
    let served : Served max_per q t q' agent = record {
      room = omega (arith, count);
      fair = λ b bq e f. omega (arith, count, fair b bq e f);
      first = subst (λ aq. All (λ s. less s t ≡ false) aq.tasks) (sym here) p.least;
      same =
          subst (λ a. Perm (t ∷ a.tasks) (tasks_of agent q)) (sym there)
            (subst (λ a. Perm (t ∷ rest) a.tasks) (sym here) p.same);
      flying = omega (arith, count, ap (λ aq. aq.inflight) there);
      others = λ a other. rw (Map.lookup-insert agent a aq' q.agents) (rw other);
      limits = (refl, refl);
      counted = omega (arith, queued, enough, v.counted, fits.0);
      valid =
          insert-Counts agent aq' q.agents q.total_count (q.total_count - 1) v kept (omega arith)
            (omega (arith, queued, enough, v.counted, size, fits.0));
    } in
    (t, q', rw (popped, take_from), subst (λ a. Served max_per q t q' a) (sym mine) served)

none_eligible :
    (max_per : ℕ) (q : TaskQueue) (a : String) (n : ℕ)
    → Map.lookup "" q.agents ≡ none
    → max_per ≤ max_int
    → a ≡ ""
    → ((b : String) (bq : AgentQueue)
        → Map.lookup b q.agents ≡ some bq
        → IsEligible max_per bq
        → n ≤ bq.inflight)
    → ((a ≡ "") × (n ≡ max_int))
      ⊎ ((aq : AgentQueue) × (Map.lookup a q.agents ≡ some aq)
          × IsEligible max_per aq
          × (n ≡ aq.inflight))
    → ¬ SomeEligible max_per q
none_eligible max_per q a n named int e least (inl (_, k)) (b, bq, found, fits) =
    absurd (omega (arith, least b bq found fits, k, fits.1))
none_eligible max_per q a n named int e least (inr (aq, found, _, _)) _ =
    absurd (ground (arith, subst (λ a. Map.lookup a q.agents ≡ some aq) e found))

-- A task that Dequeue returns is served, whatever the limits are.
abbrev pub ServedIf : ℕ → TaskQueue → Option (TaskRef × TaskQueue) → Type 0
ServedIf max_per q none = Unit {0}
ServedIf max_per q (some (t, q')) = Served max_per q t q' t.agent_id

pub dequeue-ServedIf :
    (max_per max_global : ℕ) (q : TaskQueue)
    → IsValid q
    → ServedIf max_per q (dequeue max_per max_global q)
unfolding dequeue
dequeue-ServedIf max_per max_global q v =
    let (a, n) = best_agent max_per q.agents ("", max_int) in
    let (below, least, source) = best_agent-Best max_per q.agents "" max_int v.distinct in
    elim (Bool-cases (leb max_global (inflight_of q.agents))) [
      | inl full ↦ rw full tt
      | inr room ↦ elim (Bool-cases (str_eq a "")) [
        | inl nobody ↦ rw (room, nobody) tt
        | inr somebody ↦ elim source [
          | inl (e, _) ↦ absurd (ground (arith, (eq_iff a "").1 e))
          | inr (aq, found, fits, k) ↦
              let fair =
                λ (b : String) (bq : AgentQueue) (e : Map.lookup b q.agents ≡ some bq)
                    (f : IsEligible max_per bq).
                  rw k at (least b bq e f) in
              let (t, q', out, served) = take_from-Served max_per a aq q v found fits fair in
              rw (room, somebody, found, out) served
        ]
      ]
    ]

-- From a valid queue, Dequeue serves the task that it promises, or there is none to serve: the
-- queue stays valid, no limit is passed, the agent has the fewest tasks in flight of those that
-- could be served, and no other task of the agent has a lower priority value, or an equal one and
-- an earlier creation. It returns no task only when the global limit is reached or no agent has
-- both a task queued and room for one in flight. No agent's name is empty, and the limit is an
-- `int`.
pub dequeue-Dequeued :
    (max_per max_global : ℕ) (q : TaskQueue)
    → IsValid q
    → Map.lookup "" q.agents ≡ none
    → max_per ≤ max_int
    → Dequeued max_per max_global q (dequeue max_per max_global q)
unfolding dequeue
dequeue-Dequeued max_per max_global q v named int =
    let (a, n) = best_agent max_per q.agents ("", max_int) in
    let (below, least, source) = best_agent-Best max_per q.agents "" max_int v.distinct in
    elim (Bool-cases (leb max_global (inflight_of q.agents))) [
      | inl full ↦ rw full (inl (leb→le _ _ full))
      | inr room ↦ elim (Bool-cases (str_eq a "")) [
        | inl nobody ↦
            rw (room, nobody)
              (inr (none_eligible max_per q a n named int ((eq_iff a "").0 nobody) least source))
        | inr somebody ↦ elim source [
          | inl (e, _) ↦ absurd (ground (arith, (eq_iff a "").1 e))
          | inr (aq, found, fits, k) ↦
              let fair =
                λ (b : String) (bq : AgentQueue) (e : Map.lookup b q.agents ≡ some bq)
                    (f : IsEligible max_per bq).
                  rw k at (least b bq e f) in
              let (t, q', out, served) = take_from-Served max_per a aq q v found fits fair in
              rw (room, somebody, found, out) (ground arith, served)
        ]
      ]
    ]
