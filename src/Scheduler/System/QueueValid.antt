-- ===== src/Scheduler/System/QueueValid.antt =====
-- The queue and the results of a running scheduler.
use pinchtab.Prelude.{
  ℕ, ◌+◌, ◌≡◌, refl, subst, inl, inr, String, Bool, true, false, not, ◌&&◌, Option, none, some,
  List, [], ◌∷◌, ltb, str_eq, if◌then◌else◌, Bool-cases, Option-cases, arith,
}
use pinchtab.Prelude.Map.{Map}
use pinchtab.Scheduler.Task.{
  Task, TaskRef, TaskState, queued, assigned, running, failed, set_state, is_terminal,
  SubmitRequest, validate,
}
use pinchtab.Scheduler.Queue
use pinchtab.Scheduler.Queue.{TaskQueue, Admission, position, refused}
use pinchtab.Scheduler.Queue.Sound.{
  IsSound, left_by, new-IsSound, set_limits-IsSound, enqueue-IsSound, dequeue-IsSound,
  complete-IsSound, remove-IsSound, expire_deadlined-IsSound,
}
use pinchtab.Scheduler.Results.{same_state}
use pinchtab.Scheduler.Config.{Config, normalize}
use pinchtab.Scheduler.State.{
  Scheduler, new, load, write, set_state_of, end_task, finish_task, reload_config, max_webhooks,
}
use pinchtab.Scheduler.Submit.{World, submit, accept, checked, new_ref, deadline_of}
use pinchtab.Scheduler.Cancel.{Cancelling, observed, marked, withdraw, count_cancel, cancel_step}
use pinchtab.Scheduler.Dispatch.{
  take, assign, start, Outcome, success, failure, settle, count_outcome, count_latency, conclude,
  count_expired, reap_task, reap_loop, reap, shut_task, shut_down, stop, evict,
}
use pinchtab.Scheduler.System.{
  Event, submits, cancels, takes, assigns, starts, concludes, reaps, evicts, stops, reloads, step,
  run,
}

abbrev HasSoundQueue : Scheduler → Type 0
HasSoundQueue s = IsSound s.queue

if_Sound :
    (b : Bool) (x y : Scheduler)
    → HasSoundQueue x
    → HasSoundQueue y
    → HasSoundQueue (if b then x else y)
if_Sound true x y p q = p
if_Sound false x y p q = q

finish_task-Sound :
    (r : TaskRef) (s : Scheduler) → HasSoundQueue s → HasSoundQueue (finish_task r s)
unfolding finish_task
finish_task-Sound r s v =
    let done = complete-IsSound r.agent_id s.queue v in
    let s1 = end_task r s in
    if_Sound (not (str_eq r.callback_url "") && is_terminal (load r s1).state) _ s1
      (if_Sound (ltb s1.webhooks max_webhooks)
        (record s1 { webhooks = s1.webhooks + 1; sent = load r s1 ∷ s1.sent }) s1 done done)
      done

assign-Sound :
    (now : ℕ) (r : TaskRef) (s : Scheduler) → HasSoundQueue s → HasSoundQueue (assign now r s).0
unfolding assign set_state_of
assign-Sound now r s v = elim (Option-cases (set_state now (load r s) assigned).1) [
  | inl fine ↦ rw (fine, assign) v
  | inr (e, bad) ↦ rw (bad, assign) (finish_task-Sound r (set_state_of now r assigned s) v)
]

start-Sound :
    (now : ℕ) (r : TaskRef) (s : Scheduler) → HasSoundQueue s → HasSoundQueue (start now r s).0
unfolding start set_state_of
start-Sound now r s v = elim (Option-cases (set_state now (load r s) running).1) [
  | inl fine ↦ rw (fine, start) v
  | inr (e, bad) ↦ rw (bad, start) (finish_task-Sound r (set_state_of now r running s) v)
]

conclude-Sound :
    (now latency : ℕ) (r : TaskRef) (o : Outcome) (s : Scheduler)
    → HasSoundQueue s
    → HasSoundQueue (conclude now latency r o s)
unfolding conclude set_state_of
conclude-Sound now latency r (success x) s v =
    finish_task-Sound r
      (count_outcome r (success x) (settle now r (success x) (count_latency latency s))) v
conclude-Sound now latency r (failure x) s v =
    finish_task-Sound r
      (count_outcome r (failure x) (settle now r (failure x) (count_latency latency s))) v

reap_loop-Sound :
    (now : ℕ) (rs : List TaskRef) (s : Scheduler)
    → HasSoundQueue s
    → HasSoundQueue (reap_loop now rs s)
unfolding reap_loop set_state_of
reap_loop-Sound now [] s v = v
reap_loop-Sound now (r ∷ rs) s v =
    let late = record (load r s) { error = "deadline exceeded while queued" } in
    reap_loop-Sound now rs (reap_task now r s)
      (finish_task-Sound r (count_expired r (set_state_of now r failed (write r late s))) v)

shut_down-Sound :
    (now : ℕ) (m : Map TaskRef) (s : Scheduler)
    → HasSoundQueue s
    → HasSoundQueue (shut_down now m s)
unfolding shut_down set_state_of
shut_down-Sound now [] s v = v
shut_down-Sound now ((id, r) ∷ m) s v =
    shut_down-Sound now m (shut_task now r s) (if_Sound (is_terminal (load r s).state) s _ v v)

withdraw-Sound :
    (state : TaskState) (r : TaskRef) (s : Scheduler)
    → HasSoundQueue s
    → HasSoundQueue (withdraw state r s)
withdraw-Sound state r s v = elim (Bool-cases (same_state state queued)) [
  | inl waiting ↦ rw waiting (remove-IsSound r.id r.agent_id s.queue v)
  | inr other ↦ rw other v
]

cancel_step-Sound :
    (now : ℕ) (id : String) (p : Cancelling) (s : Scheduler)
    → HasSoundQueue s
    → HasSoundQueue (cancel_step now id p s).0
unfolding cancel_step set_state_of
cancel_step-Sound now id (observed state r) s v = withdraw-Sound state r s v
cancel_step-Sound now id (marked r) s v = finish_task-Sound r (count_cancel r s) v
cancel_step-Sound now id _ s v = v

accept-Sound :
    (w : World) (r : TaskRef) (s : Scheduler)
    → str_eq r.agent_id "" ≡ false
    → HasSoundQueue s
    → HasSoundQueue (accept w r s).0
unfolding accept
accept-Sound w r s name v = go (Queue.enqueue r s.queue).1 refl
  where
    go : (o : Admission) → (Queue.enqueue r s.queue).1 ≡ o → HasSoundQueue (accept w r s).0
    go (refused e) h = rw (h, accept) (enqueue-IsSound r s.queue name v)
    go (position p) h = rw (h, accept) (enqueue-IsSound r s.queue name v)

pub submit-Sound :
    (w : World) (req : SubmitRequest) (s : Scheduler)
    → HasSoundQueue s
    → HasSoundQueue (submit w req s).0
unfolding submit new_ref validate
submit-Sound w req s v = elim (Option-cases (validate w.valid_callback req)) [
  | inr (e, bad) ↦ rw (bad, submit) v
  | inl fine ↦ rw (fine, submit) (checks (ground arith) (deadline_of w req))
]
  where
    checks : str_eq req.agent_id "" ≡ false → (d : Option ℕ) → HasSoundQueue (checked w req s d).0
    checks name none = v
    checks name (some d) = elim (Bool-cases (ltb d w.now)) [
      | inl past ↦ rw (past, checked) v
      | inr future ↦ rw (future, checked) (accept-Sound w (new_ref w req d s.next_address) s name v)
    ]

step-Sound : (e : Event) (s : Scheduler) → HasSoundQueue s → HasSoundQueue (step e s)
unfolding step take reap reload_config evict stop
step-Sound (submits w req) s v = submit-Sound w req s v
step-Sound (cancels now id p) s v = cancel_step-Sound now id p s v
step-Sound takes s v =
    let per_agent = s.cfg.max_per_agent_flight in
    let kept = dequeue-IsSound per_agent s.cfg.max_inflight s.queue v in
    elim (Option-cases (Queue.dequeue per_agent s.cfg.max_inflight s.queue)) [
      | inl nothing ↦ rw (nothing, take) v
      | inr ((r, q), found) ↦ rw (found, take) (subst (λ o. IsSound (left_by s.queue o)) found kept)
    ]
step-Sound (assigns now r) s v = assign-Sound now r s v
step-Sound (starts now r) s v = start-Sound now r s v
step-Sound (concludes now latency r o) s v = conclude-Sound now latency r o s v
step-Sound (reaps now clock) s v =
    reap_loop-Sound now (Queue.expire_deadlined clock s.queue).1
      (record s { queue = (Queue.expire_deadlined clock s.queue).0 })
      (expire_deadlined-IsSound clock s.queue v)
step-Sound (evicts now) s v = v
step-Sound (stops now) s v = shut_down-Sound now s.live s v
step-Sound (reloads c) s v = elim (Bool-cases (ltb 0 c.max_queue_size)) [
  | inl given ↦ rw given (set_limits-IsSound c.max_queue_size c.max_per_agent s.queue v)
  | inr absent ↦ rw absent v
]

run-Sound : (es : List Event) (s : Scheduler) → HasSoundQueue s → HasSoundQueue (run es s)
unfolding run
run-Sound [] s v = v
run-Sound (e ∷ es) s v = run-Sound es (step e s) (step-Sound e s v)

-- From a new scheduler on, over any interleaving: the count of queued tasks is exact, each agent's
-- tasks are a heap of tasks of its own, no entry is left for an idle agent, no agent has an empty
-- name, and an agent may have a task queued.
pub run-new-IsSound :
    (blank : Task) (c : Config) (es : List Event) → IsSound (run es (new blank c)).queue
unfolding new normalize
run-new-IsSound blank c es = run-Sound es (new blank c) (new-IsSound _ _ (ground arith))
