-- ===== src/Scheduler/System/Advance/Steps.antt =====
-- What each operation does to the tasks in memory.
use pinchtab.Prelude.{
  ℕ, suc, ◌≡◌, refl, sym, subst, inl, inr, String, false, Option, none, some, List, [], ◌∷◌, ltb,
  ◌==◌, Bool-cases, Option-cases, arith,
}
use pinchtab.Prelude.Map.{Map}
use pinchtab.Scheduler.Task.{
  Task, TaskRef, assigned, running, done, failed, cancelled, is_terminal, set_state, SubmitRequest,
  validate,
}
use pinchtab.Scheduler.Task.Lifecycle.{here}
use pinchtab.Scheduler.Queue
use pinchtab.Scheduler.Queue.{TaskQueue, Admission, position, refused}
use pinchtab.Scheduler.Config.{Config}
use pinchtab.Scheduler.State.{
  Scheduler, load, write, set_state_of, finish_task, store_result, reload_config,
}
use pinchtab.Scheduler.Submit.{World, submit, accept, checked, new_ref, deadline_of}
use pinchtab.Scheduler.Cancel.{
  Cancelling, looking, unlisted, found_live, observed, removed, signalled, marked, answered,
  withdraw, signal, count_cancel, cancel_step,
}
use pinchtab.Scheduler.Dispatch.{
  take, assign, start, Outcome, success, failure, settle, count_outcome, count_latency,
  open_context, drop_context, count_expired, reap_task, shut_task, conclude, reap_loop, reap,
  shut_down, stop, evict,
}
use pinchtab.Scheduler.System.{takes, step}
use pinchtab.Scheduler.System.Advance.{
  Later, Advances, Advances-refl, Advances-trans, same_memory, unmoved, write-Advances,
  set_state_of-Advances, if_Advances, finish_task-Advances,
}

pub assign-Advances : (now : ℕ) (r : TaskRef) (s : Scheduler) → Advances s (assign now r s).0
unfolding assign
assign-Advances now r s =
    let s1 = set_state_of now r assigned s in
    let moved = set_state_of-Advances now r assigned s in
    elim (Option-cases (set_state now (load r s) assigned).1) [
      | inl fine ↦
          rw (fine, assign) (Advances-trans moved (same_memory s1 (open_context r s1) refl refl))
      | inr (e, bad) ↦ rw (bad, assign) (Advances-trans moved (finish_task-Advances r s1))
    ]

pub start-Advances : (now : ℕ) (r : TaskRef) (s : Scheduler) → Advances s (start now r s).0
unfolding start
start-Advances now r s =
    let s1 = set_state_of now r running s in
    let moved = set_state_of-Advances now r running s in
    let s2 = finish_task r s1 in
    elim (Option-cases (set_state now (load r s) running).1) [
      | inl fine ↦
          rw (fine, start) (Advances-trans moved (same_memory s1 (store_result r s1) refl refl))
      | inr (e, bad) ↦
          rw (bad, start)
            (Advances-trans (Advances-trans moved (finish_task-Advances r s1))
              (same_memory s2 (drop_context r s2) refl refl))
    ]

pub settle-Advances :
    (now : ℕ) (r : TaskRef) (o : Outcome) (s : Scheduler) → Advances s (settle now r o s)
settle-Advances now r (failure e) s =
    Advances-trans (write-Advances r _ s (record { moves = here; same = refl }))
      (set_state_of-Advances now r failed _)
settle-Advances now r (success e) s =
    Advances-trans (write-Advances r _ s (record { moves = here; same = refl }))
      (set_state_of-Advances now r done _)

pub count_outcome-Advances :
    (r : TaskRef) (o : Outcome) (s : Scheduler) → Advances s (count_outcome r o s)
count_outcome-Advances r (failure e) s = same_memory s _ refl refl
count_outcome-Advances r (success e) s = same_memory s _ refl refl

pub conclude-Advances :
    (now latency : ℕ) (r : TaskRef) (o : Outcome) (s : Scheduler)
    → Advances s (conclude now latency r o s)
unfolding conclude
conclude-Advances now latency r o s =
    let s1 = count_latency latency s in
    let s2 = settle now r o s1 in
    let s3 = count_outcome r o s2 in
    let s4 = finish_task r s3 in
    Advances-trans (same_memory s s1 refl refl) (
      Advances-trans (settle-Advances now r o s1) (
        Advances-trans (count_outcome-Advances r o s2) (
          Advances-trans (finish_task-Advances r s3)
            (same_memory s4 (drop_context r s4) refl refl))))

pub reap_task-Advances : (now : ℕ) (r : TaskRef) (s : Scheduler) → Advances s (reap_task now r s)
unfolding reap_task
reap_task-Advances now r s =
    let late = record (load r s) { error = "deadline exceeded while queued" } in
    let s1 = write r late s in
    let s2 = set_state_of now r failed s1 in
    Advances-trans (write-Advances r late s (record { moves = here; same = refl })) (
      Advances-trans (set_state_of-Advances now r failed s1) (
        Advances-trans (same_memory s2 (count_expired r s2) refl refl)
          (finish_task-Advances r (count_expired r s2))))

pub reap_loop-Advances :
    (now : ℕ) (rs : List TaskRef) (s : Scheduler) → Advances s (reap_loop now rs s)
unfolding reap_loop
reap_loop-Advances now [] s = Advances-refl s
reap_loop-Advances now (r ∷ rs) s =
    Advances-trans (reap_task-Advances now r s) (reap_loop-Advances now rs (reap_task now r s))

pub shut_task-Advances : (now : ℕ) (r : TaskRef) (s : Scheduler) → Advances s (shut_task now r s)
unfolding shut_task
shut_task-Advances now r s =
    let s1 = set_state_of now r cancelled s in
    let t = record (load r s1) { error = "scheduler shutdown" } in
    let s2 = write r t s1 in
    if_Advances (is_terminal (load r s).state) s _ _ (Advances-refl s) (
      Advances-trans (set_state_of-Advances now r cancelled s) (
        Advances-trans (write-Advances r t s1 (record { moves = here; same = refl }))
          (same_memory s2 (store_result r s2) refl refl)))

pub shut_down-Advances :
    (now : ℕ) (m : Map TaskRef) (s : Scheduler) → Advances s (shut_down now m s)
unfolding shut_down
shut_down-Advances now [] s = Advances-refl s
shut_down-Advances now ((id, r) ∷ m) s =
    Advances-trans (shut_task-Advances now r s) (shut_down-Advances now m (shut_task now r s))

pub cancel_step-Advances :
    (now : ℕ) (id : String) (p : Cancelling) (s : Scheduler) → Advances s (cancel_step now id p s).0
unfolding cancel_step
cancel_step-Advances now id looking s = Advances-refl s
cancel_step-Advances now id unlisted s = Advances-refl s
cancel_step-Advances now id (found_live r) s = Advances-refl s
cancel_step-Advances now id (observed state r) s = same_memory s (withdraw state r s) refl refl
cancel_step-Advances now id (removed r) s = same_memory s (signal id s) refl refl
cancel_step-Advances now id (signalled r) s = set_state_of-Advances now r cancelled s
cancel_step-Advances now id (marked r) s =
    Advances-trans (same_memory s (count_cancel r s) refl refl)
      (finish_task-Advances r (count_cancel r s))
cancel_step-Advances now id (answered o) s = Advances-refl s

-- A new task takes an address that was not in use.
pub alloc-Advances :
    (r : TaskRef) (t : Task) (s s' : Scheduler)
    → r.address ≡ s.next_address
    → s'.memory ≡ s.memory
    → s'.next_address ≡ suc s.next_address
    → Advances s (write r t s')
alloc-Advances r t s s' a m n = record {
  kept = omega (arith, n);
  later = λ p h.
      let other : (p == r.address) ≡ false = ground arith in
      rw other (subst (λ m. Later (s.memory p) (m p)) (sym m) (unmoved (s.memory p)));
}

pub accept-Advances :
    (w : World) (r : TaskRef) (s : Scheduler)
    → r.address ≡ s.next_address
    → Advances s (accept w r s).0
unfolding accept
accept-Advances w r s a = go (Queue.enqueue r s.queue).0 (Queue.enqueue r s.queue).1 refl
  where
    go :
        (q : TaskQueue) (o : Admission)
        → (Queue.enqueue r s.queue).1 ≡ o
        → Advances s (accept w r s).0
    go q (refused e) h = rw (h, accept) (alloc-Advances r _ s _ a refl refl)
    go q (position p) h = rw (h, accept) (alloc-Advances r _ s _ a refl refl)

pub submit-Advances :
    (w : World) (req : SubmitRequest) (s : Scheduler) → Advances s (submit w req s).0
unfolding submit new_ref
submit-Advances w req s = elim (Option-cases (validate w.valid_callback req)) [
  | inr (e, bad) ↦ rw (bad, submit) (Advances-refl s)
  | inl fine ↦ rw (fine, submit) (checks (deadline_of w req))
]
  where
    checks : (d : Option ℕ) → Advances s (checked w req s d).0
    checks none = Advances-refl s
    checks (some d) = elim (Bool-cases (ltb d w.now)) [
      | inl past ↦ rw (past, checked) (Advances-refl s)
      | inr future ↦
          rw (future, checked) (accept-Advances w (new_ref w req d s.next_address) s refl)
    ]

pub take-Advances : (s : Scheduler) → Advances s (step takes s)
unfolding step take
take-Advances s =
    elim (Option-cases (Queue.dequeue s.cfg.max_per_agent_flight s.cfg.max_inflight s.queue)) [
      | inl nothing ↦ rw (nothing, take) (Advances-refl s)
      | inr ((r, q), found) ↦ rw (found, take) (same_memory s (record s { queue = q }) refl refl)
    ]

pub reap-Advances : (now : ℕ) (clock : TaskRef → ℕ) (s : Scheduler) → Advances s (reap now clock s)
unfolding reap
reap-Advances now clock s =
    let (q, expired) = Queue.expire_deadlined clock s.queue in
    let s1 = record s { queue = q } in
    Advances-trans (same_memory s s1 refl refl) (reap_loop-Advances now expired s1)

pub evict-Advances : (now : ℕ) (s : Scheduler) → Advances s (evict now s)
unfolding evict
evict-Advances now s = same_memory s _ refl refl

pub stop-Advances : (now : ℕ) (s : Scheduler) → Advances s (stop now s)
unfolding stop
stop-Advances now s =
    let s1 = shut_down now s.live s in
    Advances-trans (shut_down-Advances now s.live s)
      (same_memory s1 (record s1 { live = [] }) refl refl)

pub reload-Advances : (c : Config) (s : Scheduler) → Advances s (reload_config c s)
unfolding reload_config
reload-Advances c s = same_memory s _ refl refl
