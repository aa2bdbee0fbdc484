-- ===== src/Scheduler/System/Retained.antt =====
-- What Submit leaves, and how long the result of a rejected task is kept.
use pinchtab.Prelude.{
  ℕ, ◌≤◌, ◌≡◌, refl, subst, sym, ap, ◌∙◌, inl, inr, String, Option, none, some, List, [], ◌∷◌, ltb,
  eq_refl, Bool-cases, arith,
}
use pinchtab.Prelude.Map
use pinchtab.Scheduler.Task.{
  Task, TaskRef, queued, rejected, SubmitRequest, ValidationError, validate,
}
use pinchtab.Scheduler.Queue
use pinchtab.Scheduler.Queue.{TaskQueue, QueueError, Admission, position, refused}
use pinchtab.Scheduler.Queue.Invariant.{IsValid}
use pinchtab.Scheduler.Queue.Admit.{Admitted, enqueue-Admitted}
use pinchtab.Scheduler.Results
use pinchtab.Scheduler.Results.{ResultStore}
use pinchtab.Scheduler.Results.Evict.{IsStore, get-evict, evict-IsStore, get-store, store-IsStore}
use pinchtab.Scheduler.State.{Scheduler, load}
use pinchtab.Scheduler.Submit.{
  World, SubmitError, invalid_task, invalid_deadline, past_deadline, queue_full, new_ref, new_task,
  accept, checked, deadline_of, submit,
}
use pinchtab.Scheduler.System.Linked.{self_address}

-- What Submit promises on each way out. A task is accepted with a deadline that has not passed; it is
-- queued, live and stored, and the queue has admitted it. A refused one is stored as rejected.
abbrev pub Submitted : World → SubmitRequest → Scheduler → Scheduler × Option SubmitError → Type 0
Submitted w req s (s', none) =
    (r : TaskRef) × (r.id ≡ w.task_id)
    × (r.agent_id ≡ req.agent_id)
    × (w.now ≤ r.deadline)
    × (Map.lookup r.id s'.live ≡ some r)
    × ((load r s').state ≡ queued)
    × ((load r s').spec ≡ r)
    × (Results.get r.id s'.results ≡ some (load r s'))
    × Admitted r s.queue (s'.queue, position (load r s').position)
Submitted w req s (s', some (queue_full e)) =
    (r : TaskRef) × (r.id ≡ w.task_id)
    × (r.agent_id ≡ req.agent_id)
    × (s'.live ≡ s.live)
    × ((load r s').state ≡ rejected)
    × ((load r s').completed_at ≡ 0)
    × ((load r s').spec ≡ r)
    × (s'.results ≡ Results.store (load r s') s.results)
    × Admitted r s.queue (s'.queue, refused e)
Submitted w req s (s', some _) = s' ≡ s

accept-Submitted :
    (w : World) (req : SubmitRequest) (s : Scheduler) (d : ℕ)
    → w.now ≤ d
    → IsValid s.queue
    → Submitted w req s (accept w (new_ref w req d s.next_address) s)
unfolding accept new_ref new_task
accept-Submitted w req s d h v = go (Queue.enqueue r s.queue).1 refl (enqueue-Admitted r s.queue v)
  where
    r : TaskRef
    r = new_ref w req d s.next_address

    go :
        (o : Admission)
        → (Queue.enqueue r s.queue).1 ≡ o
        → Admitted r s.queue (Queue.enqueue r s.queue)
        → Submitted w req s (accept w r s)
    go (refused e) h' a =
        rw (h', accept)
          (
            r,
            refl,
            refl,
            refl,
            rw (self_address s.next_address) refl,
            rw (self_address s.next_address) refl,
            rw (self_address s.next_address) refl,
            rw (self_address s.next_address) refl,
            subst (λ o. Admitted r s.queue ((Queue.enqueue r s.queue).0, o)) h' a,
          )
    go (position p) h' a =
        rw (h', accept)
          (
            r,
            refl,
            refl,
            h,
            rw (Map.lookup-insert r.id r.id r s.live, eq_refl r.id) refl,
            rw (self_address s.next_address) refl,
            rw (self_address s.next_address) refl,
            rw (self_address s.next_address) (get-store _ s.results),
            rw (self_address s.next_address)
                (subst (λ o. Admitted r s.queue ((Queue.enqueue r s.queue).0, o)) h' a),
          )

checked-Submitted :
    (w : World) (req : SubmitRequest) (s : Scheduler) (o : Option ℕ)
    → IsValid s.queue
    → Submitted w req s (checked w req s o)
unfolding checked
checked-Submitted w req s none v = refl
checked-Submitted w req s (some d) v = elim (Bool-cases (ltb d w.now)) [
  | inl past ↦ rw past refl
  | inr ahead ↦ rw ahead (accept-Submitted w req s d (ground arith) v)
]

-- With a valid queue, Submit either accepts the task, or stores it as rejected, or leaves the
-- scheduler as it is. An accepted task has a deadline that has not passed, is live and stored in
-- state queued, and the queue has admitted it within its limits. The queue refuses a task only for
-- a limit that it reports, and then no task is queued or dropped or becomes live.
pub submit-Submitted :
    (w : World) (req : SubmitRequest) (s : Scheduler)
    → IsValid s.queue
    → Submitted w req s (submit w req s)
unfolding submit
submit-Submitted w req s v = go (validate w.valid_callback req) refl
  where
    go :
        (o : Option ValidationError)
        → validate w.valid_callback req ≡ o
        → Submitted w req s (submit w req s)
    go (some e) h = rw (h, submit) refl
    go none h = rw (h, submit) (checked-Submitted w req s (deadline_of w req) v)

-- the store after the evictions at the given times
abbrev pub evict_all : List ℕ → ResultStore → ResultStore
evict_all [] rs = rs
evict_all (now ∷ nows) rs = evict_all nows (Results.evict now rs)

evict_all-kept :
    (nows : List ℕ) (rs : ResultStore) (id : String) (t : Task)
    → IsStore rs
    → t.completed_at ≡ 0
    → Results.get id rs ≡ some t
    → Results.get id (evict_all nows rs) ≡ some t
evict_all-kept [] rs id t d zero_time e = e
evict_all-kept (now ∷ nows) rs id t d zero_time e = elim (get-evict now rs id t d e) [
  | inl (gone, (_, done_at, _)) ↦ absurd (omega (arith, zero_time))
  | inr (kept, _) ↦
      evict_all-kept nows (Results.evict now rs) id t (evict-IsStore now rs d) zero_time kept
]

-- With a valid queue and one result per id, the result of a task that the queue refuses is never
-- evicted: it is stored as rejected with no time of completion, and it is still stored after
-- evictions at any times.
pub submit-rejected_retained :
    (w : World) (req : SubmitRequest) (s : Scheduler) (e : QueueError) (nows : List ℕ)
    → IsValid s.queue
    → IsStore s.results
    → (submit w req s).1 ≡ some (queue_full e)
    → (t : Task) × (t.state ≡ rejected)
      × (Results.get w.task_id (evict_all nows (submit w req s).0.results) ≡ some t)
submit-rejected_retained w req s e nows v d h = go (submit w req s) h (submit-Submitted w req s v)
  where
    go :
        (o : Scheduler × Option SubmitError)
        → o.1 ≡ some (queue_full e)
        → Submitted w req s o
        → (t : Task) × (t.state ≡ rejected)
          × (Results.get w.task_id (evict_all nows o.0.results) ≡ some t)
    go (s', none) h' x = absurd cc
    go (s', some (invalid_task e')) h' x = absurd cc
    go (s', some invalid_deadline) h' x = absurd cc
    go (s', some past_deadline) h' x = absurd cc
    go (s', some (queue_full e')) h'
          (r, same_id, _, _, refused_state, zero_time, same_spec, stored, _) =
        let t = load r s' in
        let now_there =
          subst (λ i. Results.get i (Results.store t s.results) ≡ some t)
            (ap (λ r. r.id) same_spec ∙ same_id) (get-store t s.results) in
        let kept =
          evict_all-kept nows (Results.store t s.results) w.task_id t (store-IsStore t s.results d)
            zero_time now_there in
        (
          t,
          refused_state,
          subst (λ rs. Results.get w.task_id (evict_all nows rs) ≡ some t) (sym stored) kept,
        )
