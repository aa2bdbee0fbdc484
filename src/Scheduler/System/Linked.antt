-- ===== src/Scheduler/System/Linked.antt =====
-- The live tasks and the memory that they point into.
use pinchtab.Prelude.{
  ℕ, suc, ◌+◌, ◌<◌, ◌≡◌, refl, subst, ◌∙◌, inl, inr, String, Bool, true, false, not, ◌&&◌, Option,
  none, some, List, [], ◌∷◌, ltb, ◌==◌, str_eq, if◌then◌else◌, Bool-cases, Option-cases, arith,
}
use pinchtab.Prelude.Map
use pinchtab.Prelude.Map.{Map}
use pinchtab.Scheduler.Task.{
  Task, TaskRef, assigned, running, failed, cancelled, rejected, is_terminal, set_state,
  SubmitRequest, validate,
}
use pinchtab.Scheduler.Queue
use pinchtab.Scheduler.Queue.{TaskQueue, Admission, position, refused}
use pinchtab.Scheduler.Results
use pinchtab.Scheduler.Config.{Config}
use pinchtab.Scheduler.State.{
  Scheduler, load, write, set_state_of, end_task, finish_task, store_result, reload_config,
  max_webhooks,
}
use pinchtab.Scheduler.Submit.{
  World, submit, accept, new_task, reject, register, checked, new_ref, deadline_of,
}
use pinchtab.Scheduler.Cancel.{Cancelling, signalled, marked, count_cancel, cancel_step}
use pinchtab.Scheduler.Dispatch.{
  take, assign, start, Outcome, success, failure, settle, count_outcome, count_latency,
  open_context, count_expired, reap_task, conclude, reap_loop, reap, stop, evict,
}
use pinchtab.Scheduler.System.{
  Event, submits, cancels, takes, assigns, starts, concludes, reaps, evicts, stops, reloads, step,
  run,
}
use pinchtab.Scheduler.State.{new}
use pinchtab.Scheduler.System.Advance.{Advances}
use pinchtab.Scheduler.System.Advance.Steps.{alloc-Advances}
use pinchtab.Scheduler.System.Lives.{step-Advances}

pub self_address : (a : ℕ) → (a == a) ≡ true
self_address a = ground arith

-- Each of the tasks stands under its id, and its address is in use and holds it.
abbrev LinkedIn : Scheduler → Map TaskRef → Type 0
LinkedIn s m =
    Map.Every
      (λ (id : String) (r : TaskRef).
        (r.id ≡ id) × (r.address < s.next_address) × ((load r s).spec ≡ r))
      m

abbrev pub IsLinked : Scheduler → Type 0
IsLinked s = LinkedIn s s.live

abbrev Within : Map TaskRef → Map TaskRef → Type 0
Within m m' = (id : String) (r : TaskRef) → Map.lookup id m' ≡ some r → Map.lookup id m ≡ some r

advance-LinkedIn :
    (s s' : Scheduler) (m m' : Map TaskRef)
    → Advances s s'
    → Within m m'
    → LinkedIn s m
    → LinkedIn s' m'
advance-LinkedIn s s' m m' a within linked id r e =
    let (same_id, below, same_ref) = linked id r (within id r e) in
    (same_id, omega (arith, a.kept), (a.later r.address below).same ∙ same_ref)

delete-Within : (k : String) (m : Map TaskRef) → Within m (Map.delete k m)
delete-Within k m id r e = elim (Bool-cases (str_eq k id)) [
  | inl hit ↦ absurd (ground (arith, Map.lookup-delete k id m))
  | inr miss ↦ ground (arith, Map.lookup-delete k id m)
]

-- No live task is added or replaced.
abbrev Kept : Scheduler → Scheduler → Type 0
Kept s s' = Within s.live s'.live

same_live : (s s' : Scheduler) → s'.live ≡ s.live → Kept s s'
same_live s s' e id r h = subst (λ m. Map.lookup id m ≡ some r) e h

Kept-trans : (s t u : Scheduler) → Kept s t → Kept t u → Kept s u
Kept-trans s t u a b id r h = a id r (b id r h)

-- What finish_task leaves of the state that matters to the clients.
pub record Ended (r : TaskRef) (s s' : Scheduler) : Type 0 where
  pub memory : s'.memory ≡ s.memory
  pub live : s'.live ≡ Map.delete r.id s.live
  pub results : s'.results ≡ Results.store (load r s) s.results

if_Ended :
    (b : Bool) (r : TaskRef) (s x y : Scheduler)
    → Ended r s x
    → Ended r s y
    → Ended r s (if b then x else y)
if_Ended true r s x y p q = p
if_Ended false r s x y p q = q

pub finish_task-Ended : (r : TaskRef) (s : Scheduler) → Ended r s (finish_task r s)
unfolding finish_task
finish_task-Ended r s =
    let s1 = end_task r s in
    let same : Ended r s s1 = record { memory = refl; live = refl; results = refl } in
    if_Ended (not (str_eq r.callback_url "") && is_terminal (load r s1).state) r s _ s1
      (if_Ended (ltb s1.webhooks max_webhooks) r s
        (record s1 { webhooks = s1.webhooks + 1; sent = load r s1 ∷ s1.sent }) s1
        (record { memory = refl; live = refl; results = refl }) same)
      same

finish_task-Kept : (r : TaskRef) (s : Scheduler) → Kept s (finish_task r s)
finish_task-Kept r s id q h =
    delete-Within r.id s.live id q
      (subst (λ m. Map.lookup id m ≡ some q) (finish_task-Ended r s).live h)

take-Kept : (s : Scheduler) → Kept s (step takes s)
unfolding step take
take-Kept s =
    elim (Option-cases (Queue.dequeue s.cfg.max_per_agent_flight s.cfg.max_inflight s.queue)) [
      | inl nothing ↦ rw (nothing, take) (same_live s s refl)
      | inr ((r, q), found) ↦ rw (found, take) (same_live s (record s { queue = q }) refl)
    ]

assign-Kept : (now : ℕ) (r : TaskRef) (s : Scheduler) → Kept s (assign now r s).0
unfolding assign set_state_of
assign-Kept now r s =
    let s1 = set_state_of now r assigned s in
    elim (Option-cases (set_state now (load r s) assigned).1) [
      | inl fine ↦ rw (fine, assign) (same_live s (open_context r s1) refl)
      | inr (e, bad) ↦ rw (bad, assign) (finish_task-Kept r s1)
    ]

start-Kept : (now : ℕ) (r : TaskRef) (s : Scheduler) → Kept s (start now r s).0
unfolding start set_state_of
start-Kept now r s =
    let s1 = set_state_of now r running s in
    elim (Option-cases (set_state now (load r s) running).1) [
      | inl fine ↦ rw (fine, start) (same_live s (store_result r s1) refl)
      | inr (e, bad) ↦ rw (bad, start) (finish_task-Kept r s1)
    ]

conclude-Kept :
    (now latency : ℕ) (r : TaskRef) (o : Outcome) (s : Scheduler)
    → Kept s (conclude now latency r o s)
unfolding conclude set_state_of
conclude-Kept now latency r (failure e) s =
    finish_task-Kept r
      (count_outcome r (failure e) (settle now r (failure e) (count_latency latency s)))
conclude-Kept now latency r (success e) s =
    finish_task-Kept r
      (count_outcome r (success e) (settle now r (success e) (count_latency latency s)))

reap_loop-Kept : (now : ℕ) (rs : List TaskRef) (s : Scheduler) → Kept s (reap_loop now rs s)
unfolding reap_loop reap_task set_state_of
reap_loop-Kept now [] s = same_live s s refl
reap_loop-Kept now (r ∷ rs) s =
    let late = record (load r s) { error = "deadline exceeded while queued" } in
    let s1 = count_expired r (set_state_of now r failed (write r late s)) in
    Kept-trans s (reap_task now r s) (reap_loop now rs (reap_task now r s)) (finish_task-Kept r s1)
      (reap_loop-Kept now rs (reap_task now r s))

cancel_step-Kept :
    (now : ℕ) (id : String) (p : Cancelling) (s : Scheduler) → Kept s (cancel_step now id p s).0
unfolding cancel_step set_state_of
cancel_step-Kept now id (signalled r) s = same_live s (set_state_of now r cancelled s) refl
cancel_step-Kept now id (marked r) s = finish_task-Kept r (count_cancel r s)
cancel_step-Kept now id _ s = same_live s s refl

Kept-IsLinked : (e : Event) (s : Scheduler) → Kept s (step e s) → IsLinked s → IsLinked (step e s)
Kept-IsLinked e s kept linked =
    advance-LinkedIn s (step e s) s.live (step e s).live (step-Advances e s) kept linked

-- The task that is built is not in the memory before; the pointers to it name it.
accept-IsLinked :
    (w : World) (r : TaskRef) (s : Scheduler)
    → r.address ≡ s.next_address
    → IsLinked s
    → IsLinked (accept w r s).0
unfolding accept new_task
accept-IsLinked w r s a linked = go (Queue.enqueue r s.queue).0 (Queue.enqueue r s.queue).1 refl
  where
    go :
        (q : TaskQueue) (o : Admission)
        → (Queue.enqueue r s.queue).1 ≡ o
        → IsLinked (accept w r s).0
    go q (refused e) h =
        let s' = reject w r e (record s { queue = q }) in
        let moved =
          alloc-Advances r (record (new_task r) { state = rejected; error = w.error_text e }) s
            (record s {
              queue = q;
              results = s'.results;
              metrics = s'.metrics;
              next_address = suc s.next_address;
            })
            a refl refl in
        rw (h, accept) (advance-LinkedIn s s' s.live s.live moved (λ id r h. h) linked)
    go q (position p) h =
        let s' = register r p (record s { queue = q }) in
        let moved =
          alloc-Advances r (record (new_task r) { position = p }) s
            (record s {
              queue = q;
              results = s'.results;
              metrics = s'.metrics;
              live = s'.live;
              next_address = suc s.next_address;
            })
            a refl refl in
        let old = advance-LinkedIn s s' s.live s.live moved (λ id r h. h) linked in
        rw (h, accept)
          (Map.insert-Every _ r.id r s.live
            (refl, omega (arith, a), rw (self_address r.address) refl) old)

submit-IsLinked :
    (w : World) (req : SubmitRequest) (s : Scheduler) → IsLinked s → IsLinked (submit w req s).0
unfolding submit new_ref
submit-IsLinked w req s linked = elim (Option-cases (validate w.valid_callback req)) [
  | inr (e, bad) ↦ rw (bad, submit) linked
  | inl fine ↦ rw (fine, submit) (checks (deadline_of w req))
]
  where
    checks : (d : Option ℕ) → IsLinked (checked w req s d).0
    checks none = linked
    checks (some d) = elim (Bool-cases (ltb d w.now)) [
      | inl past ↦ rw (past, checked) linked
      | inr future ↦
          rw (future, checked) (accept-IsLinked w (new_ref w req d s.next_address) s refl linked)
    ]

reap-Kept : (now : ℕ) (clock : TaskRef → ℕ) (s : Scheduler) → Kept s (reap now clock s)
unfolding reap
reap-Kept now clock s =
    let (q, expired) = Queue.expire_deadlined clock s.queue in
    reap_loop-Kept now expired (record s { queue = q })

step-IsLinked : (e : Event) (s : Scheduler) → IsLinked s → IsLinked (step e s)
unfolding step stop evict reload_config
step-IsLinked (submits w req) s h = submit-IsLinked w req s h
step-IsLinked (cancels now id p) s h =
    Kept-IsLinked (cancels now id p) s (cancel_step-Kept now id p s) h
step-IsLinked takes s h = Kept-IsLinked takes s (take-Kept s) h
step-IsLinked (assigns now r) s h = Kept-IsLinked (assigns now r) s (assign-Kept now r s) h
step-IsLinked (starts now r) s h = Kept-IsLinked (starts now r) s (start-Kept now r s) h
step-IsLinked (concludes now latency r o) s h =
    Kept-IsLinked (concludes now latency r o) s (conclude-Kept now latency r o s) h
step-IsLinked (reaps now clock) s h = Kept-IsLinked (reaps now clock) s (reap-Kept now clock s) h
step-IsLinked (evicts now) s h = Kept-IsLinked (evicts now) s (λ id r e. e) h
step-IsLinked (stops now) s h = λ id r e. absurd (Map.lookup-nil id r e)
step-IsLinked (reloads c) s h = Kept-IsLinked (reloads c) s (λ id r e. e) h

pub run-IsLinked : (es : List Event) (s : Scheduler) → IsLinked s → IsLinked (run es s)
unfolding run
run-IsLinked [] s h = h
run-IsLinked (e ∷ es) s h = run-IsLinked es (step e s) (step-IsLinked e s h)

-- From a new scheduler on, over any interleaving: each live task stands under its id, its address
-- is in use, and what stands there is that task.
pub run-new-IsLinked :
    (blank : Task) (c : Config) (es : List Event) → IsLinked (run es (new blank c))
unfolding new
run-new-IsLinked blank c es =
    run-IsLinked es (new blank c) (λ id r e. absurd (Map.lookup-nil id r e))
