-- ===== src/Scheduler/System/Alone.antt =====
-- What a call of Cancel does to the queue and the cancel functions, when no other goroutine comes
-- between its sections.
use pinchtab.Prelude.{
  ℕ, ◌+◌, ◌≡◌, refl, sym, ap, subst, ◌∙◌, ◌⊎◌, inl, inr, String, Bool, true, false, not, ◌&&◌,
  Option, none, some, ◌∷◌, ltb, str_eq, eq_iff, if◌then◌else◌, Bool-cases, Option-cases, arith,
}
use pinchtab.Prelude.Map
use pinchtab.Prelude.Map.{Map}
use pinchtab.Scheduler.Task.{TaskRef, TaskState, queued, cancelled, is_terminal}
use pinchtab.Scheduler.Queue
use pinchtab.Scheduler.Queue.{TaskQueue}
use pinchtab.Scheduler.Queue.Invariant.{IsValid}
use pinchtab.Scheduler.Queue.Finish.{Removed, remove-Removed}
use pinchtab.Scheduler.Results
use pinchtab.Scheduler.Results.{same_state}
use pinchtab.Scheduler.State.{Scheduler, load, set_state_of, end_task, finish_task, max_webhooks}
use pinchtab.Scheduler.Cancel.{
  Cancelling, answered, already_terminal, call_cancel, withdraw, signal, count_cancel, absent,
  cancel, cancel_steps, cancel_step,
}
use pinchtab.Scheduler.System.Flights.{finish_task-queue, undisturbed}

-- A task that waits is taken out of its agent's queue, before finishTask calls Complete.
abbrev pub Withdrawn : TaskRef → Scheduler → Scheduler → Type 0
Withdrawn r s s' =
    ((load r s).state ≡ queued)
      × ((out : TaskQueue × Bool) × Removed r.id r.agent_id s.queue out
          × (s'.queue ≡ Queue.complete r.agent_id out.0))
    ⊎ (¬ ((load r s).state ≡ queued)) × (s'.queue ≡ Queue.complete r.agent_id s.queue)

-- The cancel function of the task is called, if it has one.
abbrev called : Option Bool → Option Bool
called none = none
called (some b) = some true

abbrev pub Signalled : String → Map Bool → Map Bool → Type 0
Signalled id m m' =
    (j : String)
    → Map.lookup j m' ≡ (if str_eq id j then called (Map.lookup id m) else Map.lookup j m)

-- A call that succeeds has withdrawn the task and called its cancel function; any other changes nothing.
abbrev pub Alone : String → Scheduler → Scheduler × Cancelling → Type 0
Alone id s (s', answered none) =
    (r : TaskRef) × (Map.lookup id s.live ≡ some r)
    × Withdrawn r s s'
    × Signalled id s.cancels s'.cancels
Alone id s (s', p) = s' ≡ s

call_cancel-Signalled : (id : String) (m : Map Bool) → Signalled id m (call_cancel id m)
call_cancel-Signalled id m j = elim (Option-cases (Map.lookup id m)) [
  | inl absent' ↦
      rw (call_cancel, absent')
        (elim (Bool-cases (str_eq id j)) [
          | inl hit ↦ rw hit (ap (λ k. Map.lookup k m) (sym ((eq_iff id j).0 hit)) ∙ absent')
          | inr miss ↦ rw miss refl
        ])
  | inr (b, there) ↦ rw (call_cancel, there) (Map.lookup-insert id j true m)
]

if_cancels :
    (b : Bool) (x y s : Scheduler)
    → x.cancels ≡ s.cancels
    → y.cancels ≡ s.cancels
    → (if b then x else y).cancels ≡ s.cancels
if_cancels true x y s p q = p
if_cancels false x y s p q = q

finish_task-cancels : (r : TaskRef) (s : Scheduler) → (finish_task r s).cancels ≡ s.cancels
unfolding finish_task
finish_task-cancels r s =
    let s1 = end_task r s in
    if_cancels (not (str_eq r.callback_url "") && is_terminal (load r s1).state) _ s1 s
      (if_cancels (ltb s1.webhooks max_webhooks)
        (record s1 { webhooks = s1.webhooks + 1; sent = load r s1 ∷ s1.sent }) s1 s refl refl)
      refl

queued_cases :
    (f : TaskState)
    → ((f ≡ queued) × (same_state f queued ≡ true))
      ⊎ ((¬ (f ≡ queued)) × (same_state f queued ≡ false))
queued_cases queued = inl (refl, refl)
queued_cases f = inr ((λ e. ground (arith, e)), refl)

withdraw-Withdrawn :
    (r : TaskRef) (s s' : Scheduler)
    → IsValid s.queue
    → s'.queue ≡ Queue.complete r.agent_id (withdraw (load r s).state r s).queue
    → Withdrawn r s s'
withdraw-Withdrawn r s s' v e = elim (queued_cases (load r s).state) [
  | inl (waits, same) ↦ inl (
    waits,
    (Queue.remove r.id r.agent_id s.queue, remove-Removed r.id r.agent_id s.queue v, rw same at e),
  )
  | inr (other, same) ↦ inr (other, rw same at e)
]

live-Alone :
    (now : ℕ) (id : String) (r : TaskRef) (s : Scheduler)
    → IsValid s.queue
    → Map.lookup id s.live ≡ some r
    → is_terminal (load r s).state ≡ false
    → Alone id s (cancel now id s)
unfolding set_state_of
live-Alone now id r s v found open_still =
    let s1 =
      count_cancel r (set_state_of now r cancelled (signal id (withdraw (load r s).state r s))) in
    let queue = finish_task-queue r s1 in
    let cancels = finish_task-cancels r s1 in
    let marks : Signalled id s.cancels (finish_task r s1).cancels =
      λ j. ap (Map.lookup j) cancels ∙ call_cancel-Signalled id s.cancels j in
    subst (Alone id s) (sym (undisturbed now id r s found open_still))
      (r, found, withdraw-Withdrawn r s (finish_task r s1) v queue, marks)

-- In a valid queue, with no other goroutine in between.
pub cancel-Alone :
    (now : ℕ) (id : String) (s : Scheduler) → IsValid s.queue → Alone id s (cancel now id s)
unfolding cancel cancel_steps cancel_step
cancel-Alone now id s v = elim (Option-cases (Map.lookup id s.live)) [
  | inl gone ↦
      let same : cancel now id s ≡ (s, answered (some (absent (Results.get id s.results)))) =
        rw gone refl in
      subst (Alone id s) (sym same) refl
  | inr (r, found) ↦ elim (Bool-cases (is_terminal (load r s).state)) [
    | inl over ↦
        let same : cancel now id s ≡ (s, answered (some (already_terminal (load r s).state))) =
          rw (found, over) refl in
        subst (Alone id s) (sym same) refl
    | inr open_still ↦ live-Alone now id r s v found open_still
  ]
]
