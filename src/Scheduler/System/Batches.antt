-- ===== src/Scheduler/System/Batches.antt =====
-- What a batch adds to the queue.
use pinchtab.Prelude.{
  ℕ, suc, ◌+◌, ◌≤◌, ◌<◌, ◌≡◌, eq_iff, refl, ap, inl, inr, String, true, Option, none, some, List,
  [], ◌∷◌, length, ltb, ltb→lt, str_eq, ◌==◌, Bool-cases, arith,
}
use pinchtab.Scheduler.Task.{SubmitRequest, TaskRef, Task}
use pinchtab.Scheduler.Queue.{TaskQueue, QueueError, global_full, agent_full, refused}
use pinchtab.Scheduler.Queue.Sound.{IsSound}
use pinchtab.Scheduler.Queue.Admit.{Admitted}
use pinchtab.Scheduler.State.{Scheduler}
use pinchtab.Scheduler.Submit.{
  World, SubmitError, invalid_task, invalid_deadline, past_deadline, queue_full, submit,
}
use pinchtab.Scheduler.Batch.{
  BatchRequest, BatchTaskDef, BatchResponse, missing_agent_id, empty_batch, batch_too_large,
  answered, BatchResponseItem, item_of, submit_request, batch_loop, handle_batch,
}
use pinchtab.Scheduler.System.QueueValid.{submit-Sound}
use pinchtab.Scheduler.System.Retained.{Submitted, submit-Submitted}

-- whether Submit took the task
abbrev taken : Option SubmitError → ℕ
taken none = 1
taken (some e) = 0

-- the number of tasks of a batch that were taken
abbrev pub taken_of : List BatchResponseItem → ℕ
taken_of [] = 0
taken_of (item ∷ items) = taken item.error + taken_of items

refused_count :
    (r : TaskRef) (q q' : TaskQueue) (e : QueueError)
    → Admitted r q (q', refused e)
    → q'.total_count ≡ q.total_count
refused_count r q q' (global_full n m) ((_, same), _, _, _) = same
refused_count r q q' (agent_full a n m) ((_, same), _, _, _, _, _) = same

Submitted-count :
    (w : World) (req : SubmitRequest) (s : Scheduler) (o : Scheduler × Option SubmitError)
    → Submitted w req s o
    → o.0.queue.total_count ≡ s.queue.total_count + taken o.1
Submitted-count w req s (s', none) (r, _, _, _, _, _, _, _, a) = omega (arith, a.0, a.1)
Submitted-count w req s (s', some (queue_full e)) (r, _, _, _, _, _, _, _, a) =
    omega (arith, refused_count r s.queue s'.queue e a)
Submitted-count w req s (s', some (invalid_task e)) same =
    omega (arith, ap (λ s. s.queue.total_count) same)
Submitted-count w req s (s', some invalid_deadline) same =
    omega (arith, ap (λ s. s.queue.total_count) same)
Submitted-count w req s (s', some past_deadline) same =
    omega (arith, ap (λ s. s.queue.total_count) same)

item_error : (id : String) (t : Task) (e : Option SubmitError) → (item_of id t e).error ≡ e
item_error id t none = refl
item_error id t (some (queue_full e)) = refl
item_error id t (some (invalid_task e)) = refl
item_error id t (some invalid_deadline) = refl
item_error id t (some past_deadline) = refl

batch_loop-counts :
    (world : ℕ → World) (req : BatchRequest) (i : ℕ) (tds : List BatchTaskDef) (s : Scheduler)
    → IsSound s.queue
    → (length (batch_loop world req i tds s).1 ≡ length tds)
      × IsSound (batch_loop world req i tds s).0.queue
      × ((batch_loop world req i tds s).0.queue.total_count
          ≡ s.queue.total_count + taken_of (batch_loop world req i tds s).1)
unfolding batch_loop
batch_loop-counts world req i [] s v = (refl, v, omega arith)
batch_loop-counts world req i (td ∷ tds) s v =
    let w = world i in
    let r = submit_request req td in
    let s1 = (submit w r s).0 in
    let (long, sound, count) = batch_loop-counts world req (suc i) tds s1 (submit-Sound w r s v) in
    let one = Submitted-count w r s (submit w r s) (submit-Submitted w r s v.valid) in
    let error = ap taken (item_error w.task_id (s1.memory s.next_address) (submit w r s).1) in
    (ap suc long, sound, omega (arith, count, one, error))

-- What handleBatch promises on each way out.
abbrev pub Batched : BatchRequest → Scheduler → Scheduler × BatchResponse → Type 0
Batched req s (s', answered items) =
    (length items ≡ length req.tasks)
    × (length req.tasks ≤ s.cfg.max_batch_size)
    × (s'.queue.total_count ≡ s.queue.total_count + taken_of items)
    × IsSound s'.queue
Batched req s (s', missing_agent_id) = (s' ≡ s) × (req.agent_id ≡ "")
Batched req s (s', empty_batch) = (s' ≡ s) × (req.tasks ≡ [])
Batched req s (s', batch_too_large n m) = (s' ≡ s) × (n ≡ length req.tasks) × (m < n)

no_tasks : {A : Type 0} (xs : List A) → (length xs == 0) ≡ true → xs ≡ []
no_tasks [] e = refl
no_tasks (x ∷ xs) e = ground arith

-- With a sound queue, handleBatch answers one item per task, and the queue grows by exactly the
-- items without an error; or it submits nothing, for want of an agent or of tasks, or because there
-- are more than the settings allow.
pub handle_batch-Batched :
    (world : ℕ → World) (req : BatchRequest) (s : Scheduler)
    → IsSound s.queue
    → Batched req s (handle_batch world req s)
unfolding handle_batch
handle_batch-Batched world req s v = elim (Bool-cases (str_eq req.agent_id "")) [
  | inl nobody ↦ rw (nobody, handle_batch) (refl, (eq_iff req.agent_id "").0 nobody)
  | inr somebody ↦ elim (Bool-cases (length req.tasks == 0)) [
    | inl nothing ↦ rw (somebody, nothing, handle_batch) (refl, no_tasks req.tasks nothing)
    | inr something ↦ elim (Bool-cases (ltb s.cfg.max_batch_size (length req.tasks))) [
      | inl large ↦ rw (somebody, something, large, handle_batch) (refl, refl, ltb→lt _ _ large)
      | inr small ↦
          let (long, sound, count) = batch_loop-counts world req 0 req.tasks s v in
          rw (somebody, something, small, handle_batch) (long, ground arith, count, sound)
    ]
  ]
]
