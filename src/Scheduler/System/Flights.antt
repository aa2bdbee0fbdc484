-- ===== src/Scheduler/System/Flights.antt =====
-- The counts of tasks in flight, where finishTask calls Complete for a task that is not in flight.
use pinchtab.Prelude.{
  ℕ, suc, ◌+◌, ◌-◌, ◌<◌, ◌≡◌, refl, subst, sym, ap, ◌∙◌, inl, inr, String, Bool, true, false, not,
  ◌&&◌, Option, none, some, ◌∷◌, ltb, lt→ltb, str_eq, if◌then◌else◌, Bool-cases, arith,
}
use pinchtab.Prelude.Map
use pinchtab.Scheduler.Task.{
  TaskRef, Task, TaskState, queued, running, cancelled, is_terminal, set_state,
}
use pinchtab.Scheduler.Queue
use pinchtab.Scheduler.Queue.{TaskQueue}
use pinchtab.Scheduler.Queue.Invariant.{IsValid, inflight_for}
use pinchtab.Scheduler.Queue.Fair.{ServedIf, dequeue-ServedIf}
use pinchtab.Scheduler.Queue.Finish.{complete-Completed, Removed, remove-Removed}
use pinchtab.Scheduler.Queue.Sound.{IsSound, set_limits-IsSound}
use pinchtab.Scheduler.Config.{Config}
use pinchtab.Scheduler.State.{
  Scheduler, load, set_state_of, end_task, finish_task, reload_config, max_webhooks,
}
use pinchtab.Scheduler.Cancel.{
  cancel, cancel_steps, cancel_step, withdraw, signal, count_cancel, answered,
}
use pinchtab.Scheduler.Dispatch.{
  take, Outcome, success, failure, settle, count_outcome, count_latency, conclude,
}
use pinchtab.Scheduler.Results.{same_state}

if_queue :
    (b : Bool) (x y : Scheduler) (q : TaskQueue)
    → x.queue ≡ q
    → y.queue ≡ q
    → (if b then x else y).queue ≡ q
if_queue true x y q e f = e
if_queue false x y q e f = f

pub finish_task-queue :
    (r : TaskRef) (s : Scheduler) → (finish_task r s).queue ≡ Queue.complete r.agent_id s.queue
unfolding finish_task
finish_task-queue r s =
    let s1 = end_task r s in
    if_queue (not (str_eq r.callback_url "") && is_terminal (load r s1).state) _ s1 s1.queue
      (if_queue (ltb s1.webhooks max_webhooks)
        (record s1 { webhooks = s1.webhooks + 1; sent = load r s1 ∷ s1.sent }) s1 s1.queue refl
        refl)
      refl

Removed-flights :
    (id agent : String) (q : TaskQueue) (r : TaskQueue × Bool)
    → Removed id agent q r
    → IsValid q
    → IsValid r.0 × (inflight_for agent r.0 ≡ inflight_for agent q)
Removed-flights id agent q (q', true) (t, _, valid, _, flying, _, _, _) v = (valid, flying)
Removed-flights id agent q (q', false) (e, _) v =
    (subst IsValid (sym e) v, ap (inflight_for agent) e)

withdraw_flights :
    (state : TaskState) (r : TaskRef) (s : Scheduler)
    → IsValid s.queue
    → IsValid (withdraw state r s).queue
      × (inflight_for r.agent_id (withdraw state r s).queue ≡ inflight_for r.agent_id s.queue)
withdraw_flights state r s v = elim (Bool-cases (same_state state queued)) [
  | inl waiting ↦
      rw waiting
        (Removed-flights r.id r.agent_id s.queue _ (remove-Removed r.id r.agent_id s.queue v) v)
  | inr other ↦ rw other (v, refl)
]

pub cancellable :
    (now : ℕ) (t : Task) → is_terminal t.state ≡ false → (set_state now t cancelled).1 ≡ none
unfolding set_state
cancellable now t h = ground arith

-- Cancel of a live task, if no other goroutine comes between
pub undisturbed :
    (now : ℕ) (id : String) (r : TaskRef) (s : Scheduler)
    → Map.lookup id s.live ≡ some r
    → is_terminal (load r s).state ≡ false
    → cancel now id s ≡ (
      finish_task r (
          count_cancel r
            (set_state_of now r cancelled (signal id (withdraw (load r s).state r s)))),
      answered none,
    )
unfolding cancel cancel_steps cancel_step
undisturbed now id r s found open_still =
    let fine = cancellable now (load r s) open_still in rw (found, open_still, fine) refl

cancel_flights :
    (now : ℕ) (id : String) (r : TaskRef) (s : Scheduler)
    → IsValid s.queue
    → Map.lookup id s.live ≡ some r
    → is_terminal (load r s).state ≡ false
    → IsValid (cancel now id s).0.queue
      × (inflight_for r.agent_id (cancel now id s).0.queue ≡ inflight_for r.agent_id s.queue - 1)
unfolding set_state_of
cancel_flights now id r s v found open_still =
    let out = withdraw (load r s).state r s in
    let (valid, flying) = withdraw_flights (load r s).state r s v in
    let s1 = set_state_of now r cancelled (signal id out) in
    let c = complete-Completed r.agent_id out.queue valid in
    let same = finish_task-queue r (count_cancel r s1) in
    rw (undisturbed now id r s found open_still) (
      subst IsValid (sym same) c.valid,
      ap (inflight_for r.agent_id) same ∙ c.flying ∙ ap (λ n. n - 1) flying,
    )

settled_queue :
    (now latency : ℕ) (r : TaskRef) (o : Outcome) (s : Scheduler)
    → (count_outcome r o (settle now r o (count_latency latency s))).queue ≡ s.queue
unfolding set_state_of
settled_queue now latency r (success x) s = refl
settled_queue now latency r (failure x) s = refl

conclude_flights :
    (now latency : ℕ) (r : TaskRef) (o : Outcome) (s : Scheduler)
    → IsValid s.queue
    → inflight_for r.agent_id (conclude now latency r o s).queue
      ≡ inflight_for r.agent_id s.queue - 1
unfolding conclude
conclude_flights now latency r o s v =
    let s1 = count_outcome r o (settle now r o (count_latency latency s)) in
    ap (inflight_for r.agent_id)
      (finish_task-queue r s1 ∙ ap (Queue.complete r.agent_id) (settled_queue now latency r o s))
    ∙ (complete-Completed r.agent_id s.queue v).flying

-- Cancelling a live task that waits in a valid queue, and so is not in flight, takes one off its
-- agent's count of tasks in flight, if that is not 0; here no other goroutine comes between the
-- sections of the call.
pub cancel_queued-inflight :
    (now : ℕ) (id : String) (r : TaskRef) (s : Scheduler) (n : ℕ)
    → IsValid s.queue
    → Map.lookup id s.live ≡ some r
    → (load r s).state ≡ queued
    → inflight_for r.agent_id s.queue ≡ suc n
    → inflight_for r.agent_id (cancel now id s).0.queue ≡ n
cancel_queued-inflight now id r s n v found waiting flying =
    omega (arith, flying, (cancel_flights now id r s v found (ap is_terminal waiting)).1)

-- Cancelling a live task that is running takes one off its agent's count of tasks in flight, in a
-- valid queue, and the worker takes off another when its request ends, however it ends: two for the
-- one task, if the count is at least 2; here no other goroutine comes between the sections of the
-- call.
pub conclude_cancelled-inflight :
    (now later latency : ℕ) (id : String) (r : TaskRef) (o : Outcome) (s : Scheduler) (n : ℕ)
    → IsValid s.queue
    → Map.lookup id s.live ≡ some r
    → (load r s).state ≡ running
    → inflight_for r.agent_id s.queue ≡ suc (suc n)
    → inflight_for r.agent_id (conclude later latency r o (cancel now id s).0).queue ≡ n
conclude_cancelled-inflight now later latency id r o s n v found busy flying =
    let (valid, once) = cancel_flights now id r s v found (ap is_terminal busy) in
    omega (arith, flying, once, conclude_flights later latency r o (cancel now id s).0 valid)

take_nothing : (s : Scheduler) → IsValid s.queue → s.cfg.max_per_agent_flight ≡ 0 → take s ≡ none
unfolding take
take_nothing s v zero_flight =
    go (Queue.dequeue s.cfg.max_per_agent_flight s.cfg.max_inflight s.queue) refl
      (dequeue-ServedIf s.cfg.max_per_agent_flight s.cfg.max_inflight s.queue v)
  where
    go :
        (o : Option (TaskRef × TaskQueue))
        → Queue.dequeue s.cfg.max_per_agent_flight s.cfg.max_inflight s.queue ≡ o
        → ServedIf s.cfg.max_per_agent_flight s.queue o
        → take s ≡ none
    go none e served = rw (e, take)
    go (some (t, q)) e served = absurd (omega (arith, served.room, zero_flight))

-- After a reload that gives a positive global limit of tasks in flight and a limit of 0 per agent, no
-- worker is handed a task, whatever is queued in a sound queue.
pub reload-take_nothing :
    (c : Config) (s : Scheduler)
    → IsSound s.queue
    → 0 < c.max_inflight
    → c.max_per_agent_flight ≡ 0
    → take (reload_config c s) ≡ none
unfolding reload_config
reload-take_nothing c s v given zero_flight =
    take_nothing (reload_config c s) valid (rw (lt→ltb _ _ given) zero_flight)
  where
    valid : IsValid (reload_config c s).queue
    valid = elim (Bool-cases (ltb 0 c.max_queue_size)) [
      | inl sized ↦ rw sized ((set_limits-IsSound c.max_queue_size c.max_per_agent s.queue v).valid)
      | inr unsized ↦ rw unsized (v.valid)
    ]
