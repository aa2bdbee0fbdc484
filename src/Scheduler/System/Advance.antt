-- ===== src/Scheduler/System/Advance.antt =====
-- What a write through a pointer, and the end of a task, do to the tasks in memory.
pub mod Steps
use pinchtab.Prelude.{
  ℕ, suc, ◌≤◌, ◌<◌, ◌≡◌, refl, sym, ap, subst, ◌∙◌, inl, inr, String, Bool, true, false, not, ◌&&◌,
  Option, none, some, List, [], ◌∷◌, ltb, ◌==◌, str_eq, if◌then◌else◌, Bool-cases, Option-cases,
  arith,
}
use pinchtab.Prelude.Map
use pinchtab.Prelude.Map.{Map}
use pinchtab.Scheduler.Task.{
  Task, TaskRef, TaskState, assigned, running, done, failed, cancelled, is_terminal, set_state,
  SubmitRequest, validate,
}
use pinchtab.Scheduler.Task.Lifecycle.{◌⟶*◌, here, ⟶*-trans, step-⟶*, set_state-Follows}
use pinchtab.Scheduler.Queue
use pinchtab.Scheduler.Queue.{TaskQueue, Admission, position, refused}
use pinchtab.Scheduler.Config.{Config}
use pinchtab.Scheduler.State.{
  Scheduler, load, write, set_state_of, fire_webhook, end_task, finish_task, store_result,
  reload_config, max_webhooks,
}
use pinchtab.Scheduler.Submit.{World, submit, accept, checked, new_ref, deadline_of}
use pinchtab.Scheduler.Dispatch.{
  take, assign, start, Outcome, success, failure, settle, count_outcome, count_latency,
  open_context, drop_context, count_expired, reap_task, shut_task, conclude, reap_loop, reap,
  shut_down, stop, evict,
}
use pinchtab.Scheduler.System.{takes, step}

-- The same task, at a later or the same place of the life cycle.
pub record Later (t t' : Task) : Type 0 where
  pub moves : t.state ⟶* t'.state
  pub same : t'.spec ≡ t.spec

abbrev pub unmoved : (t : Task) → Later t t
unmoved t = record { moves = here; same = refl }

Later-trans : {t u v : Task} → Later t u → Later u v → Later t v
Later-trans a b = record { moves = ⟶*-trans a.moves b.moves; same = b.same ∙ a.same }

set_state-Later : (now : ℕ) (t : Task) (next : TaskState) → Later t (set_state now t next).0
set_state-Later now t next = elim (set_state-Follows now t next) [
  | inl (_, edge, e, f) ↦ record { moves = step-⟶* now t next; same = f }
  | inr (_, _, e) ↦ record { moves = step-⟶* now t next; same = ap (λ t. t.spec) e }
]

-- Every task that was in use is the same task, further on in its life.
pub record Advances (s s' : Scheduler) : Type 0 where
  pub kept : s.next_address ≤ s'.next_address
  pub later : (p : ℕ) → p < s.next_address → Later (s.memory p) (s'.memory p)

pub Advances-refl : (s : Scheduler) → Advances s s
Advances-refl s = record { kept = omega arith; later = λ p h. unmoved (s.memory p) }

pub Advances-trans : {s t u : Scheduler} → Advances s t → Advances t u → Advances s u
Advances-trans {s} {t} {u} a b = record {
  kept = omega (arith, a.kept, b.kept);
  later = λ p h. Later-trans (a.later p h) (b.later p (omega (arith, a.kept)));
}

-- A step that leaves the memory alone.
pub same_memory :
    (s s' : Scheduler) → s'.memory ≡ s.memory → s'.next_address ≡ s.next_address → Advances s s'
same_memory s s' e n = record {
  kept = omega (arith, n);
  later = λ p h. subst (λ m. Later (s.memory p) (m p)) (sym e) (unmoved (s.memory p));
}

pub write-Advances :
    (r : TaskRef) (t : Task) (s : Scheduler) → Later (load r s) t → Advances s (write r t s)
write-Advances r t s l = record {
  kept = omega arith;
  later = λ p h. elim (Bool-cases (p == r.address)) [
    | inl hit ↦ rw hit (subst (λ a. Later (s.memory a) t) (ground arith) l)
    | inr miss ↦ rw miss (unmoved (s.memory p))
  ];
}

pub set_state_of-Advances :
    (now : ℕ) (r : TaskRef) (next : TaskState) (s : Scheduler)
    → Advances s (set_state_of now r next s)
unfolding set_state_of
set_state_of-Advances now r next s = write-Advances r _ s (set_state-Later now (load r s) next)

-- A step whose test only chooses between two outcomes.
pub if_Advances :
    (b : Bool) (s x y : Scheduler) → Advances s x → Advances s y → Advances s (if b then x else y)
if_Advances true s x y p q = p
if_Advances false s x y p q = q

pub fire_webhook-Advances : (r : TaskRef) (s : Scheduler) → Advances s (fire_webhook r s)
fire_webhook-Advances r s =
    if_Advances (not (str_eq r.callback_url "") && is_terminal (load r s).state) s _ _
      (if_Advances (ltb s.webhooks max_webhooks) s _ _ (same_memory s _ refl refl)
        (Advances-refl s))
      (Advances-refl s)

pub finish_task-Advances : (r : TaskRef) (s : Scheduler) → Advances s (finish_task r s)
unfolding finish_task
finish_task-Advances r s =
    Advances-trans (same_memory s (end_task r s) refl refl) (fire_webhook-Advances r (end_task r s))
